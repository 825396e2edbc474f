-- ===== src/Prelude/Strings.antt =====
-- JavaScript strings as lists of Unicode code points: SQLite's binary collation of UTF-8 text is the
-- lexicographic order of the code points, and `length` counts a point past U+FFFF twice.
use Prim.Native.Nat.{ℕ, ◌+◌}
use Prim.Native.Char.{code}
use Prim.Native.String.{String}
use mathlib.Core.Path.{◌≡◌, refl}
use mathlib.Core.Logic.{◌↔◌, inl, inr}
use mathlib.Core.Bool.{Bool, true, false, ◌&&◌, ◌||◌}
use mathlib.Core.List.{List, [], ◌∷◌}
use native.Mathlib.Omega.{arith}
use new_day.Prelude.Tests.{ltb, leb, ◌==◌, Bool-cases, if◌then◌else◌}

abbrev pub Text : Type 0
Text = List ℕ

abbrev pub codes : String → Text
codes String.[] = []
codes (String.◌∷◌ c s) = code c ∷ codes s

unfoldable pub text_eq : Text → Text → Bool
text_eq [] [] = true
text_eq (a ∷ s) (b ∷ t) = a == b && text_eq s t
text_eq _ _ = false

pub text_eq_sound : (s t : Text) → text_eq s t ≡ true → s ≡ t
unfolding text_eq
text_eq_sound [] [] h = refl
text_eq_sound (a ∷ s) (b ∷ t) h = ground (arith, text_eq_sound s t)
text_eq_sound [] (b ∷ t) h = ground arith
text_eq_sound (a ∷ s) [] h = ground arith

pub text_eq_refl : (s : Text) → text_eq s s ≡ true
unfolding text_eq
text_eq_refl [] = refl
text_eq_refl (a ∷ s) = ground (arith, text_eq_refl s)

pub text_eq_iff : (s t : Text) → (text_eq s t ≡ true) ↔ (s ≡ t)
text_eq_iff s t = (text_eq_sound s t, λ e. rw e (text_eq_refl t))

-- The lexicographic order.
unfoldable pub text_lt : Text → Text → Bool
text_lt [] [] = false
text_lt [] (b ∷ t) = true
text_lt (a ∷ s) [] = false
text_lt (a ∷ s) (b ∷ t) = if a == b then text_lt s t else ltb a b

-- `length`, in UTF-16 code units.
unfoldable pub utf16_length : Text → ℕ
utf16_length [] = 0
utf16_length (a ∷ s) = (if ltb a 0x10000 then 1 else 2) + utf16_length s

-- The white space and line terminators that `trim` removes.
pub is_space : ℕ → Bool
is_space c =
    (leb 9 c && leb c 13)
    || c == 32
    || c == 160
    || c == 0x1680
    || (leb 0x2000 c && leb c 0x200A)
    || c == 0x2028
    || c == 0x2029
    || c == 0x202F
    || c == 0x205F
    || c == 0x3000
    || c == 0xFEFF

trim_start : Text → Text
trim_start [] = []
trim_start (c ∷ s) = let rest = trim_start s in if is_space c then rest else c ∷ s

abbrev end_with : ℕ → Text → Text
end_with c [] = if is_space c then [] else c ∷ []
end_with c (d ∷ s) = c ∷ d ∷ s

trim_end : Text → Text
trim_end [] = []
trim_end (c ∷ s) = end_with c (trim_end s)

unfoldable pub trim : Text → Text
unfolding trim_start trim_end is_space
trim s = trim_end (trim_start s)

end_with-trimmed : (c : ℕ) (s : Text) → trim_end s ≡ s → trim_end (end_with c s) ≡ end_with c s
unfolding trim_end
end_with-trimmed c [] h = ground arith
end_with-trimmed c (d ∷ s) h = ground arith

trim_end-trim_end : (s : Text) → trim_end (trim_end s) ≡ trim_end s
unfolding trim_end
trim_end-trim_end [] = refl
trim_end-trim_end (c ∷ s) = end_with-trimmed c (trim_end s) (trim_end-trim_end s)

-- The first character, if there is one, is no space.
abbrev Starts : Text → Type 0
Starts [] = Unit
Starts (c ∷ s) = is_space c ≡ false

Starts-trim_start : (s : Text) → Starts (trim_start s)
unfolding trim_start
Starts-trim_start [] = tt
Starts-trim_start (c ∷ s) = elim (Bool-cases (is_space c)) [
  | inl t ↦ rw t (Starts-trim_start s)
  | inr f ↦ rw f f
]

trim_start-fixed : (s : Text) → Starts s → trim_start s ≡ s
unfolding trim_start
trim_start-fixed [] h = refl
trim_start-fixed (c ∷ s) h = rw h

end_with-Starts : (c : ℕ) (s : Text) → is_space c ≡ false → Starts (end_with c s)
end_with-Starts c [] h = rw h h
end_with-Starts c (d ∷ s) h = h

trim_end-Starts : (s : Text) → Starts s → Starts (trim_end s)
unfolding trim_end
trim_end-Starts [] h = tt
trim_end-Starts (c ∷ s) h = end_with-Starts c (trim_end s) h

-- Trimming twice is trimming once.
pub trim-trim : (s : Text) → trim (trim s) ≡ trim s
unfolding trim
trim-trim s =
    rw (trim_start-fixed (trim_end (trim_start s)) (trim_end-Starts _ (Starts-trim_start s)))
      (trim_end-trim_end (trim_start s))
