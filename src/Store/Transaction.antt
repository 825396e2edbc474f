-- ===== src/Store/Transaction.antt =====
-- How a transaction ends: COMMIT keeps the tables of the operation, and ROLLBACK takes the old ones.
use new_day.Prelude.{◌≡◌, refl, ◌∙◌, false, List, [], ◌∷◌, arith}
use new_day.Result.{Result, ok, err, PlannerError}
use new_day.Session.{Session, Exec, Callback, set_latest, delete_latest, delete_if_latest}
use new_day.Store.{transaction, close_transaction, run_callback, run_callbacks}

-- Callbacks touch no table.
tables-run_callback : (c : Callback) (s : Session) → (run_callback c s).tables ≡ s.tables
tables-run_callback (set_latest u) s = refl
tables-run_callback delete_latest s = refl
tables-run_callback (delete_if_latest token) s = ground arith

pub tables-run_callbacks :
    (cs : List Callback) (s : Session) → (run_callbacks cs s).tables ≡ s.tables
unfolding run_callbacks
tables-run_callbacks [] s = refl
tables-run_callbacks (c ∷ cs) s =
    tables-run_callbacks cs (run_callback c s) ∙ tables-run_callback c s

module _ {A : Type 0} where
  close-error :
      (s s' : Session) (r : Result A) (e : PlannerError)
      → (close_transaction s r s').0 ≡ err e
      → (close_transaction s r s').1.tables ≡ s.tables
  close-error s s' (ok a) e h = absurd (ground arith)
  close-error s s' (err x) e h = refl

  pub transaction-error :
      (m : Exec A) (s : Session) (e : PlannerError)
      → (transaction m s).0 ≡ err e
      → (transaction m s).1.tables ≡ s.tables
  unfolding transaction
  transaction-error m s e h =
      close-error s _ (m (record s { callbacks = []; mutated = false })).0 e h
