-- ===== src/Backup/Again.antt =====
-- A backup that was read is read again as it is.
use new_day.Prelude.{◌≡◌}
use new_day.Host.{Host}
use new_day.Result.{Result, ok}

-- A schema that returns what it returned.
abbrev Again : {A : Type 0} → (A → Result A) → Type 0
Again {A = A} f = (x y : A) → f x ≡ ok y → f y ≡ ok y
