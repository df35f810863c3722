-- ===== src/Import.antt =====
-- frontend/src/lib/danmaku-import.ts: a file of danmaku, in any of the formats of the import
-- dialog, becomes a list of `DanmakuData`.
mod Tests
pub mod Common
pub mod Normalized
pub mod Ass
pub mod File
