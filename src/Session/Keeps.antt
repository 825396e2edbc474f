-- ===== src/Session/Keeps.antt =====
-- Invariants of steps, with one rule for each way to build a step.
use new_day.Prelude.{◌≡◌, refl, Bool, true, false, List, [], ◌∷◌, if◌then◌else◌}
use new_day.Prelude.Lists.{along}
use new_day.Result.{Result, ok, err, PlannerError}
use new_day.Session.{Session, Exec, pure, throw, lift, continue, ◌>>=◌, for_each}

-- Where `P` holds before the step, it holds after it, also if the step throws.
pub record Keeps {A : Type 0} (P : Session → Type 0) (step : Exec A) : Type 0 where
  pub at : (s : Session) → P s → P (step s).1

-- Blocks.
module _ {A B : Type 0} {P : Session → Type 0} where
  -- What follows a step runs where the step has returned.
  pub Keeps-continue :
      (r : Result A) (next : A → Exec B) (t : Session)
      → P t
      → ((a : A) → Keeps P (next a))
      → P (continue r next t).1
  Keeps-continue (err e) next t holds_there then_kept = holds_there
  Keeps-continue (ok a) next t holds_there then_kept = (then_kept a).at t holds_there

  pub Keeps-bind :
      (step : Exec A) (next : A → Exec B)
      → Keeps P step
      → ((a : A) → Keeps P (next a))
      → Keeps P (step >>= next)
  unfolding ◌>>=◌
  Keeps-bind step next kept then_kept = record {
    at = λ s before. Keeps-continue (step s).0 next (step s).1 (kept.at s before) then_kept;
  }

  -- A check that may throw: what follows it may use that it has passed.
  pub Keeps-bind-lift :
      (check : Result A) (next : A → Exec B)
      → ((a : A) → check ≡ ok a → Keeps P (next a))
      → Keeps P (lift check >>= next)
  unfolding ◌>>=◌
  Keeps-bind-lift (err e) next then_kept = record { at = λ s before. before }
  Keeps-bind-lift (ok a) next then_kept = record { at = (then_kept a refl).at }

-- Steps that leave the session as it is.
module _ {A : Type 0} {P : Session → Type 0} where
  pub Keeps-still : (step : Exec A) → ((s : Session) → s ≡ (step s).1) → Keeps P step
  Keeps-still step still = record { at = λ s before. along P (still s) before }

  pub Keeps-throw : (e : PlannerError) → Keeps P (throw {A = A} e)
  unfolding throw
  Keeps-throw e = Keeps-still (throw e) (λ s. refl)

  pub Keeps-lift : (check : Result A) → Keeps P (lift check)
  unfolding lift
  Keeps-lift check = Keeps-still (lift check) (λ s. refl)

  pub Keeps-pure : (a : A) → Keeps P (pure a)
  unfolding pure
  Keeps-pure a = Keeps-still (pure a) (λ s. refl)

  -- Branches, each under its condition.
  pub Keeps-if :
      (condition : Bool) (yes_step no_step : Exec A)
      → (condition ≡ true → Keeps P yes_step)
      → (condition ≡ false → Keeps P no_step)
      → Keeps P (if condition then yes_step else no_step)
  Keeps-if false yes_step no_step on_yes on_no = on_no refl
  Keeps-if true yes_step no_step on_yes on_no = on_yes refl

  pub Keeps-for_each :
      (items : List A) (body : A → Exec (Unit {0}))
      → ((item : A) → Keeps P (body item))
      → Keeps P (for_each items body)
  unfolding for_each pure
  Keeps-for_each [] body kept = record { at = λ s before. before }
  Keeps-for_each (item ∷ items) body kept =
      Keeps-bind (body item) (λ _. for_each items body) (kept item)
        (λ _. Keeps-for_each items body kept)

pub ruleset keeps_rules =
    (Keeps-bind, Keeps-if, Keeps-for_each, Keeps-pure, Keeps-lift, Keeps-throw)
