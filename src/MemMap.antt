-- ===== src/MemMap.antt =====
-- memflow/src/mem/mem_map.rs: the map from linear addresses to regions of memory.
pub mod Map
pub mod Iterator
pub mod Routes
pub mod FindLaws
mod PartLaws
mod Pending
mod FoundLaws
mod KeepLaws
mod RoundLaws
mod GetNextLaws
mod CallLaws
mod NextLaws
mod CollectLaws
pub mod PushLaws
pub mod VecLaws
mod Tests
