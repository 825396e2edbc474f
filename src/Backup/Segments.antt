-- ===== src/Backup/Segments.antt =====
-- In an accepted backup, a date belongs to one segment of a logical series at most.
use new_day.Host.{Host}
