-- ===== src/Session/Returns.antt =====
-- What it takes for a block to return: every step before the last returned.
use new_day.Prelude.{◌≡◌, refl, arith}
use new_day.Result.{Result, ok, err}
use new_day.Session.{Session, Exec, lift, continue, ◌>>=◌}

-- `m` returns `a` from `s`, and leaves `t`.
abbrev pub Returns : {A : Type 0} → Exec A → Session → A → Session → Type 0
Returns m s a t = m s ≡ (ok a, t)

module _ {A B : Type 0} where
  pub bind-Returns :
      (m : Exec A) (f : A → Exec B) (s : Session) (b : B) (u : Session)
      → Returns (m >>= f) s b u
      → (a : A) × (t : Session) × Returns m s a t × Returns (f a) t b u
  unfolding ◌>>=◌
  bind-Returns m f s b u h = go (m s).0 (m s).1 refl h
    where
      go :
          (r : Result A) (t : Session)
          → m s ≡ (r, t)
          → continue r f t ≡ (ok b, u)
          → (a : A) × (t : Session) × Returns m s a t × Returns (f a) t b u
      go (ok a) t e h = (a, t, e, h)
      go (err x) t e h = absurd (ground arith)

  pub lift-Returns :
      (r : Result A) (f : A → Exec B) (s : Session) (b : B) (u : Session)
      → Returns (lift r >>= f) s b u
      → (a : A) × (r ≡ ok a) × Returns (f a) s b u
  unfolding ◌>>=◌
  lift-Returns (ok a) f s b u h = (a, refl, h)
  lift-Returns (err e) f s b u h = absurd (ground arith)
