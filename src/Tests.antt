-- ===== src/Tests.antt =====
-- Runs of the code on small inputs, and its theorems at such inputs.
mod Data
mod Calendar
mod Generated
mod Commands
mod Merged
mod Plans
mod Rows
mod Sent
mod Scanned
mod Planned
mod Restored
mod Undone
mod Shelved
mod Drained
