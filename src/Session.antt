-- ===== src/Session.antt =====
-- The state that planner commands run on, and how they run: the tables of the SQLite store
-- (apps/api/src/storage/sqlite-planner-store.ts), the metadata row `planner_revision`, the state of
-- the open transaction, and the module-level map `latestUndoByStore` of planner-undo.ts at this store.
pub mod Keeps
pub mod Returns
use new_day.Prelude.{ℕ, Bool, false, Option, List, []}
use new_day.Prelude.Strings.{Text}
use new_day.Model.{Task, RecurrenceSeries, FocusRecord, ResourceTaskLink}
use new_day.Undo.{UndoChangeSet, StoredUndo}
use new_day.Result
use new_day.Result.{Result, ok, err, PlannerError}

pub record Tables : Type 0 where
  pub tasks : List Task
  pub series : List RecurrenceSeries
  pub focus : List FocusRecord
  pub links : List ResourceTaskLink
  -- the ids of `life_resources`, which commands do not change
  pub resources : List Text
  pub revision : ℕ

-- The functions that are handed to `afterCommit`.
pub data Callback : Type 0 where
  set_latest : StoredUndo → Callback
  delete_latest : Callback
  delete_if_latest : Text → Callback

pub record Session : Type 0 where
  pub tables : Tables
  pub open tables use *
  pub mutated : Bool
  pub callbacks : List Callback
  pub latest_undo : Option StoredUndo
  -- how many times `crypto.randomUUID` was called
  pub uuids : ℕ
  -- the change set of the commands that run
  pub changes : UndoChangeSet

-- A step that reads and writes the session and may throw: what was written before stays written.
abbrev pub Exec : Type 0 → Type 0
Exec A = Session → Result A × Session

unfoldable pub pure : {A : Type 0} → A → Exec A
pure a s = (ok a, s)

unfoldable pub throw : {A : Type 0} → PlannerError → Exec A
throw e s = (err e, s)

unfoldable pub lift : {A : Type 0} → Result A → Exec A
lift r s = (r, s)

abbrev pub continue : {A B : Type 0} → Result A → (A → Exec B) → Exec B
continue (ok a) f s = f a s
continue (err e) f s = (err e, s)

infixl 10 ◌>>=◌ ◌>>◌
unfoldable pub ◌>>=◌ : {A B : Type 0} → Exec A → (A → Exec B) → Exec B
unfolding pure throw lift
◌>>=◌ m f s = let (r, s') = m s in continue r f s'

abbrev pub ◌>>◌ : {A B : Type 0} → Exec A → Exec B → Exec B
m >> n = m >>= λ _. n

-- `for (const x of xs) …`.
unfoldable pub for_each : {A : Type 0} → List A → (A → Exec (Unit {0})) → Exec (Unit {0})
for_each [] body = pure tt
for_each (new_day.Prelude.◌∷◌ x xs) body = body x >> for_each xs body
