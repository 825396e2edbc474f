-- ===== src/Model/Keys.antt =====
-- `recurrenceOccurrenceKey` names one occurrence only.
use new_day.Prelude.{
  ◌≡◌, refl, sym, ap, ◌∙◌, ℕ, ◌+◌, true, arith, List, [], ◌∷◌, ◌++◌, length, some,
}
use new_day.Prelude.Strings.{Text}
use new_day.Dates.{LocalDate, is_local_date, read_date, date_text}
use new_day.Dates.Written.{read_date-date_text}
use new_day.Dates.Calendar.{is_local_date-IsDate}
use new_day.Model.{recurrence_occurrence_key}

module _ {A : Type 0} where
  length-append : (xs ys : List A) → length (xs ++ ys) ≡ length xs + length ys
  length-append [] ys = omega arith
  length-append (x ∷ xs) ys = omega (arith, length-append xs ys)

cons_injective : (x y : ℕ) (xs ys : Text) → x ∷ xs ≡ y ∷ ys → (x ≡ y) × (xs ≡ ys)
cons_injective x y xs ys h = ground arith

some_injective : (x y : ℕ) → some x ≡ some y → x ≡ y
some_injective x y h = ground arith

-- Two texts that end in parts of one length are equal only part by part.
append_injective :
    (xs ys zs ws : Text) → xs ++ zs ≡ ys ++ ws → length zs ≡ length ws → (xs ≡ ys) × (zs ≡ ws)
append_injective [] [] zs ws h l = (refl, h)
append_injective [] (y ∷ ys) zs ws h l =
    absurd (let q = ap length h in let n = length-append ys ws in omega arith)
append_injective (x ∷ xs) [] zs ws h l =
    absurd (let q = ap length h in let n = length-append xs zs in omega arith)
append_injective (x ∷ xs) (y ∷ ys) zs ws h l =
    let (e, f) = cons_injective x y (xs ++ zs) (ys ++ ws) h in
    let (g, k) = append_injective xs ys zs ws f l in (cc, k)

-- Keys of dates are equal only for the same series and the same date.
pub recurrence_occurrence_key-injective :
    (a b : Text) (d e : LocalDate)
    → is_local_date d ≡ true
    → is_local_date e ≡ true
    → recurrence_occurrence_key a d ≡ recurrence_occurrence_key b e
    → (a ≡ b) × (d ≡ e)
unfolding recurrence_occurrence_key date_text
recurrence_occurrence_key-injective a b d e hd he h =
    let (same, tail) = append_injective a b (b':' ∷ date_text d) (b':' ∷ date_text e) h refl in
    let texts : date_text d ≡ date_text e =
      (cons_injective b':' b':' (date_text d) (date_text e) tail).1 in
    let below_d = ((is_local_date-IsDate d).0 hd).fits in
    let below_e = ((is_local_date-IsDate e).0 he).fits in
    (
      same,
      some_injective d e (
          sym (read_date-date_text d below_d) ∙ ap read_date texts ∙ read_date-date_text e below_e),
    )
