-- ===== src/Model/Schemas.antt =====
-- What a schema returns, it returns again.
use new_day.Host.{Host}
