-- ===== src/PageCache.antt =====
-- memflow/src/mem/phys_mem/middleware/cache: the cache of physical pages.
pub mod Cache
pub mod Read
pub mod CacheLaws
pub mod TakeLaws
pub mod StoreLaws
pub mod LostSlot
pub mod LostOps
pub mod LostReads
pub mod LostLoop
pub mod Uses
pub mod LostLaws
mod Tests
