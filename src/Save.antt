-- ===== src/Save.antt =====
-- internal/save: the traversal that saves a directory hierarchy.
pub mod File
pub mod Dir
pub mod Visitor
pub mod Convert
pub mod Converted
pub mod Permissions
pub mod Loads
pub mod Root
pub mod Resolver
pub mod Resolved
pub mod Semaphore
pub mod Balanced
pub mod Listings
pub mod Chunks
pub mod Caching
mod Tests
