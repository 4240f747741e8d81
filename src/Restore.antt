-- ===== src/Restore.antt =====
-- internal/restore: the traversal that restores a backup.
pub mod File
pub mod Saved
pub mod Resolver
pub mod Listed
pub mod Mode
pub mod Visitor
pub mod Visited
pub mod Sample
mod Tests
