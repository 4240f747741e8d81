-- ===== src/Blob.antt =====
-- internal/blob: scores, and the stores of blobs.
pub mod Hex
pub mod Score
pub mod Store
pub mod Stack
pub mod Gcs
pub mod ObjectRecord
pub mod Listing
pub mod Keeping
pub mod Sample
mod Tests
