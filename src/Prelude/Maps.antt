-- ===== src/Prelude/Maps.antt =====
-- `new Map(…).get`, and options that hold something.
use mathlib.Core.Path.{◌≡◌, refl, sym, ap, ◌∙◌}
use mathlib.Core.Logic.{inl, inr}
use mathlib.Core.Bool.{Bool, true}
use mathlib.Core.Option.{Option, none, some}
use mathlib.Core.List.{List, [], ◌∷◌}
use native.Mathlib.Omega.{arith}
use new_day.Prelude.Tests.{Bool-cases, if◌then◌else◌, is_some, or_default, holds}
use new_day.Prelude.Lists.{In, along}
use new_day.Prelude.Strings.{Text, text_eq, text_eq_iff}

-- `new Map(xs.map((x) => [x.id, x])).get(id)`: the last entry of a key stays.
unfoldable pub map_get : {A : Type 0} → (A → Text) → Text → List A → Option A
map_get key id [] = none
map_get key id (x ∷ xs) =
    let rest = map_get key id xs in
    if is_some rest then rest else if text_eq (key x) id then some x else none

some_value : {A : Type 0} (x a : A) → some x ≡ some a → x ≡ a
some_value x a h = ap (λ o. or_default o x) h

pub holds-some :
    {A : Type 0} (p : A → Bool) (o : Option A)
    → holds p o ≡ true
    → (a : A) × (o ≡ some a) × (p a ≡ true)
holds-some p none h = absurd (ground arith)
holds-some p (some a) h = (a, refl, h)

pub is_some-some : {A : Type 0} (o : Option A) → is_some o ≡ true → (a : A) × (o ≡ some a)
is_some-some none h = absurd (ground arith)
is_some-some (some a) h = (a, refl)

-- The entry that is found stands in the list under its key.
pub map_get-In :
    {A : Type 0} (key : A → Text) (id : Text) (xs : List A) (a : A)
    → map_get key id xs ≡ some a
    → In a xs × (key a ≡ id)
unfolding map_get
map_get-In key id [] a h = absurd (ground arith)
map_get-In {A = A} key id (x ∷ xs) a h =
    go (map_get key id xs) (λ b e. map_get-In key id xs b e) refl h
  where
    go :
        (r : Option A)
        → ((b : A) → map_get key id xs ≡ some b → In b xs × (key b ≡ id))
        → map_get key id xs ≡ r
        → (if is_some r then r else if text_eq (key x) id then some x else none) ≡ some a
        → In a (x ∷ xs) × (key a ≡ id)
    go (some b) later e k = let (i, q) = later a (e ∙ k) in (inr i, q)
    go none later e k = elim (Bool-cases (text_eq (key x) id)) [
      | inl y ↦
          let same = some_value x a (rw y at k) in
          (inl (sym same), along (λ z. key z ≡ id) same ((text_eq_iff (key x) id).0 y))
      | inr n ↦ absurd (ground (arith, rw n at k))
    ]
