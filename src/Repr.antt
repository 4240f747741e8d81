-- ===== src/Repr.antt =====
-- internal/repr: directory listings and file contents as the bytes of blobs.
pub mod Info
pub mod Convert
pub mod Marshal
pub mod Sample
mod Tests
