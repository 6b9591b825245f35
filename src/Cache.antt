-- ===== src/Cache.antt =====
-- The caches of memflow: the validators of memflow/src/types/cache, and the translation lookaside
-- buffer of memflow/src/mem/virt_translate/cache/tlb_cache.rs.
pub mod Validator
pub mod Count
pub mod CountLaws
pub mod Tlb
pub mod TlbLaws
pub mod TlbReads
mod Tests
