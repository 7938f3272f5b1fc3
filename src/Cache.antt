-- ===== src/Cache.antt =====
-- service/src/main/jni/pdnsd/src/cache.c, by part.
pub mod Lock
pub mod Rrl
pub mod Cent
pub mod Store
