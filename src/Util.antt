-- ===== src/Util.antt =====
-- internal/util
pub mod StringSet
mod Tests
