-- ===== src/Api/Types.antt =====
-- frontend/src/api/types.ts and catalog-types.ts: what the server sends. A property that may be
-- missing or null is an `Option`.
pub mod Session
pub mod Danmaku
pub mod Pools
pub mod PoolDanmaku
pub mod Keywords
pub mod Bindings
pub mod Users
pub mod Videos
