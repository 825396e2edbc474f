-- ===== src/Planning/Checks.antt =====
-- What the tests of the validation establish.
use new_day.Prelude.{
  ◌≡◌, refl, sym, ap, suc, ◌≤◌, true, Option, none, some, List, [], ◌∷◌, any, map, length, holds,
  In, inl, inr, arith, Bool-cases,
}
use new_day.Prelude.Lists.{any-In}
use new_day.Prelude.Strings.{Text, text_eq, text_eq_iff, text_eq_refl}
use new_day.Planning.{ConstraintKind, ExplicitConstraint, of_kind, set_size, no_repeats}

-- No element stands twice.
abbrev pub NoRepeats : List Text → Type 0
NoRepeats [] = Unit
NoRepeats (x ∷ xs) = (In x xs → ⊥) × NoRepeats xs

set_size-le : (xs : List Text) → set_size xs ≤ length xs
unfolding set_size
set_size-le [] = omega arith
set_size-le (x ∷ xs) = ground (arith, set_size-le xs)

pub no_repeats_sound : (xs : List Text) → no_repeats xs ≡ true → NoRepeats xs
unfolding no_repeats set_size
no_repeats_sound [] h = tt
no_repeats_sound (x ∷ xs) h = elim (Bool-cases (any (text_eq x) xs)) [
  | inl y ↦ absurd (ground (arith, set_size-le xs, rw y at h))
  | inr n ↦ (
    λ i. absurd (ground (arith, any-In (text_eq x) x xs i (text_eq_refl x))),
    no_repeats_sound xs (ground (arith, rw n at h)),
  )
]

-- An option that holds an id.
pub holds-id : (id : Text) (o : Option Text) → holds (text_eq id) o ≡ true → o ≡ some id
holds-id id none h = absurd (ground arith)
holds-id id (some t) h = ap some (sym ((text_eq_iff id t).0 h))

pub of_kind_sound : (k : ConstraintKind) (c : ExplicitConstraint) → of_kind k c ≡ true → c.kind ≡ k
of_kind_sound k c h = ground arith

pub of_kind_refl : (k : ConstraintKind) (c : ExplicitConstraint) → c.kind ≡ k → of_kind k c ≡ true
of_kind_refl k c h = ground arith

pub length-map : {A B : Type 0} (f : A → B) (xs : List A) → length (map f xs) ≡ length xs
length-map f [] = refl
length-map f (x ∷ xs) = ap (λ n. suc n) (length-map f xs)
