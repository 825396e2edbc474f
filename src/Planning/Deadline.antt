-- ===== src/Planning/Deadline.antt =====
-- The pattern of deadline claims in apps/api/src/agent/validate-planning-output.ts: a regular
-- expression without the flag `u`, whose `.` stands for one UTF-16 unit and no line terminator, and
-- which ignores case.
use new_day.Prelude.{
  ℕ, ◌+◌, ◌-◌, Bool, true, false, not, ◌&&◌, ◌||◌, Option, none, some, List, [], ◌∷◌, any, ltb, leb,
  ◌==◌, if◌then◌else◌, map, holds,
}
use new_day.Prelude.Strings.{Text, codes}

abbrev fold_case : ℕ → ℕ
fold_case c = if leb 65 c && leb c 90 then c + 32 else c

-- What follows a word at the start of a text.
unfoldable pub after_word : Text → Text → Option Text
after_word [] t = some t
after_word (c ∷ w) [] = none
after_word (c ∷ w) (d ∷ t) = if c == d then after_word w t else none

abbrev starts_with : Text → Text → Bool
starts_with t w = holds (λ r. true) (after_word w t)

abbrev is_line_terminator : ℕ → Bool
is_line_terminator c = c == 10 || c == 13 || c == 0x2028 || c == 0x2029

abbrev units : ℕ → ℕ
units c = if ltb c 0x10000 then 1 else 2

-- `.{0,gap}(?:w|…)`.
unfoldable pub within : ℕ → List Text → Text → Bool
within gap ws [] = any (starts_with []) ws
within gap ws (c ∷ t) =
    let later = within (gap - units c) ws t in
    any (starts_with (c ∷ t)) ws || (not (is_line_terminator c) && leb (units c) gap && later)

-- `(?:w|…).{0,gap}(?:v|…)`.
abbrev pair_at : List Text → ℕ → List Text → Text → Bool
pair_at ws gap vs t = any (λ w. holds (within gap vs) (after_word w t)) ws

abbrev today : List Text
today = codes "今天" ∷ codes "今日" ∷ codes "今晚" ∷ []

unfoldable pub claim_at : Text → Bool
unfolding after_word within
claim_at t =
    starts_with t (codes "硬截止")
    || starts_with t (codes "硬性截止")
    || pair_at (codes "必须" ∷ codes "务必" ∷ codes "最迟" ∷ []) 12 today t
    || pair_at today 12 (codes "必须" ∷ codes "截止" ∷ codes "到期" ∷ []) t
    || starts_with t (codes "deadline")
    || pair_at (codes "must" ∷ []) 24 (codes "today" ∷ []) t

unfoldable pub claim_in : Text → Bool
claim_in [] = false
claim_in (c ∷ t) = claim_at (c ∷ t) || claim_in t

unfoldable pub has_deadline_claim : Text → Bool
unfolding claim_in
has_deadline_claim reason = claim_in (map fold_case reason)
