-- ===== src/Prelude/Checked.antt =====
-- Validations that throw: a chain of checks, and loops of checks.
use mathlib.Core.Path.{◌≡◌, refl}
use mathlib.Core.Logic.{◌⊎◌, inl, inr}
use mathlib.Core.Bool.{Bool, true, false, not}
use mathlib.Core.List.{List, [], ◌∷◌}
use native.Mathlib.Omega.{arith}
use new_day.Prelude.Lists.{any, In, along}
use mathlib.Core.Path.{sym}

module _ {E A : Type 0} where
  -- `if (!condition) throw error`, and what follows.
  unfoldable pub require : Bool → E → E ⊎ A → E ⊎ A
  require true error next = next
  require false error next = inl error

  unfoldable pub then_check : E ⊎ Unit {0} → E ⊎ A → E ⊎ A
  then_check (inl error) next = inl error
  then_check (inr passed) next = next

module _ {E A : Type 0} where
  -- `for (const x of xs) …`.
  unfoldable pub check_each : (A → E ⊎ Unit {0}) → List A → E ⊎ Unit {0}
  check_each body [] = inr tt
  check_each body (x ∷ xs) = then_check (body x) (check_each body xs)

  -- A loop that refuses an element which repeats one that it has seen.
  unfoldable pub unique_from : (A → A → Bool) → E → List A → List A → E ⊎ Unit {0}
  unique_from same error seen [] = inr tt
  unique_from same error seen (x ∷ xs) =
      require (not (any (same x) seen)) error (unique_from same error (x ∷ seen) xs)

-- Each element differs from those after it.
abbrev pub Apart : {A : Type 0} → (A → A → Bool) → List A → Type 0
Apart same [] = Unit
Apart {A = A} same (x ∷ xs) = ((y : A) → In y xs → same y x ≡ false) × Apart same xs

module _ {E A : Type 0} where
  pub require-passed :
      (condition : Bool) (error : E) (next : E ⊎ A) (a : A)
      → require condition error next ≡ inr a
      → (condition ≡ true) × (next ≡ inr a)
  unfolding require
  require-passed true error next a h = (refl, h)
  require-passed false error next a h = absurd (ground arith)

  pub then_check-passed :
      (checked : E ⊎ Unit {0}) (next : E ⊎ A) (a : A)
      → then_check checked next ≡ inr a
      → (checked ≡ inr tt) × (next ≡ inr a)
  unfolding then_check
  then_check-passed (inr tt) next a h = (refl, h)
  then_check-passed (inl error) next a h = absurd (ground arith)

module _ {E A : Type 0} where
  pub check_each-In :
      (body : A → E ⊎ Unit {0}) (xs : List A)
      → check_each body xs ≡ inr tt
      → (x : A) → In x xs
      → body x ≡ inr tt
  unfolding check_each
  check_each-In body [] h x i = absurd i
  check_each-In body (y ∷ ys) h x (inl e) =
      along (λ z. body z ≡ inr tt) (sym e) (then_check-passed (body y) (check_each body ys) tt h).0
  check_each-In body (y ∷ ys) h x (inr i) =
      check_each-In body ys (then_check-passed (body y) (check_each body ys) tt h).1 x i

  unique-unseen :
      (same : A → A → Bool) (error : E) (seen xs : List A)
      → unique_from same error seen xs ≡ inr tt
      → (y : A) → In y xs
      → any (same y) seen ≡ false
  unfolding unique_from
  unique-unseen same error seen [] h y i = absurd i
  unique-unseen same error seen (x ∷ xs) h y (inl e) =
      let (fresh, rest) = require-passed _ error _ tt h in
      along (λ z. any (same z) seen ≡ false) (sym e) (ground arith)
  unique-unseen same error seen (x ∷ xs) h y (inr i) =
      let (fresh, rest) = require-passed _ error _ tt h in
      ground (arith, unique-unseen same error (x ∷ seen) xs rest y i)

  pub unique-Apart :
      (same : A → A → Bool) (error : E) (seen xs : List A)
      → unique_from same error seen xs ≡ inr tt
      → Apart same xs
  unfolding unique_from
  unique-Apart same error seen [] h = tt
  unique-Apart same error seen (x ∷ xs) h =
      let (fresh, rest) = require-passed _ error _ tt h in
      (
        λ y i. ground (arith, unique-unseen same error (x ∷ seen) xs rest y i),
        unique-Apart same error (x ∷ seen) xs rest,
      )
