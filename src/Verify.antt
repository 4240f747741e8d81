-- ===== src/Verify.antt =====
-- internal/verify: the records of a verification and the walk that checks a backup.
pub mod Record
pub mod RecordText
pub mod Resolver
pub mod Certified
pub mod Log
pub mod Logged
pub mod Unterminated
pub mod Reused
pub mod Whole
pub mod Scores
mod Tests
