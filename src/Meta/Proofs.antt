-- ===== src/Meta/Proofs.antt =====
-- The commands that each operation on names queues.
pub mod Writes
pub mod Unlink
pub mod Absent
pub mod Link
pub mod Rename
pub mod Attach
pub mod Freeze
pub mod Resize
pub mod Attributes
