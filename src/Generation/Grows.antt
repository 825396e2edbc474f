-- ===== src/Generation/Grows.antt =====
-- What one write of generation does to the occurrence keys of the tasks.
use new_day.Prelude.{
  ◌≡◌, refl, sym, ap, inl, inr, Bool, true, false, Option, none, some, List, [], ◌∷◌, any, arith,
  Bool-cases,
}
use new_day.Prelude.Strings.{Text, text_eq_refl}
use new_day.Prelude.Lists.{along}
use new_day.Table
use new_day.Model.{Task}
use new_day.Result.{Result, ok, guard, PlannerError}
use new_day.Session.{Session, Exec, ◌>>=◌}
use new_day.Session.Returns.{Returns}
use new_day.Store.{
  get_task, get_task_by_occurrence_key, first_match, has_key, same_row, key_taken, put_task,
  nested_transaction, write_task,
}
use new_day.Store.Effects.{task_id}

-- Some task has the key.
abbrev pub HasTask : Session → Text → Type 0
HasTask s key = any (has_key key) s.tasks ≡ true

any-put :
    (p : Task → Bool) (t : Task) (ts : List Task)
    → Table.find task_id t.id ts ≡ none
    → any p ts ≡ true
    → any p (Table.put task_id t ts) ≡ true
unfolding Table.find Table.put
any-put p t [] e h = ground arith
any-put p t (x ∷ xs) e h = ground (arith, any-put p t xs)

any-put_new :
    (p : Task → Bool) (t : Task) (ts : List Task)
    → p t ≡ true
    → any p (Table.put task_id t ts) ≡ true
unfolding Table.put
any-put_new p t [] h = ground arith
any-put_new p t (x ∷ xs) h = ground (arith, any-put_new p t xs)

pub any-first_match :
    (p : Task → Bool) (ts : List Task) (t : Task) → first_match p ts ≡ some t → any p ts ≡ true
unfolding first_match
any-first_match p [] t h = ground arith
any-first_match p (x ∷ xs) t h = ground (arith, any-first_match p xs t)

-- A task whose id is free is added, if the write returns.
pub put_task-Returns :
    (t : Task) (s u : Session) (a : Unit {0})
    → Table.find task_id t.id s.tasks ≡ none
    → Returns (put_task t) s a u
    → u.tasks ≡ Table.put task_id t s.tasks
unfolding put_task nested_transaction write_task same_row
put_task-Returns t s u a e h = elim (Bool-cases (key_taken t s.tasks)) [
  | inl k ↦ absurd (ground arith)
  | inr n ↦
      let q : (put_task t s).1.tasks ≡ u.tasks =
        ap (λ (x : Result (Unit {0}) × Session). x.1.tasks) h in
      sym (rw (e, n) at q)
]

module _ {B : Type 0} where
  pub get_task-step :
      (id : Text) (f : Option Task → Exec B) (s : Session) (b : B) (u : Session)
      → Returns (get_task id >>= f) s b u
      → Returns (f (Table.find task_id id s.tasks)) s b u
  unfolding ◌>>=◌ get_task
  get_task-step id f s b u h = h

  pub by_key-step :
      (key : Text) (f : Option Task → Exec B) (s : Session) (b : B) (u : Session)
      → Returns (get_task_by_occurrence_key key >>= f) s b u
      → Returns (f (first_match (has_key key) s.tasks)) s b u
  unfolding ◌>>=◌ get_task_by_occurrence_key
  by_key-step key f s b u h = h

-- What is left when generation has dealt with a key.
pub record Grows (key : Text) (s u : Session) : Type 0 where
  pub has_task : HasTask u key
  pub keeps_tasks : (k : Text) → HasTask s k → HasTask u k

pub Grows-put :
    (key : Text) (t : Task) (s v : Session)
    → Table.find task_id key s.tasks ≡ none
    → t.id ≡ key
    → t.occurrence_key ≡ some key
    → v.tasks ≡ Table.put task_id t s.tasks
    → Grows key s v
Grows-put key t s v free id occ e = record {
  has_task =
      along (λ ts. any (has_key key) ts ≡ true) (sym e)
        (any-put_new (has_key key) t s.tasks (rw occ (text_eq_refl key)));
  keeps_tasks = λ k h.
      along (λ ts. any (has_key k) ts ≡ true) (sym e)
        (any-put (has_key k) t s.tasks (rw id free) h);
}

pub Grows-then : (key : Text) (s v u : Session) → v ≡ u → Grows key s v → Grows key s u
Grows-then key s v u e g = along (Grows key s) e g

pub is_free :
    {A : Type 0} (o : Option A) (e : PlannerError) (a : Unit {0})
    → guard (elim o [ none ↦ true | some t ↦ false ]) e ≡ ok a
    → o ≡ none
is_free none e a h = refl
is_free (some t) e a h = absurd (ground arith)
