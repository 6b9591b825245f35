-- ===== src/Types.antt =====
-- memflow/src/types: addresses, page flags, physical addresses and byte units.
pub mod Address
pub mod AddressLaws
pub mod Page
pub mod PageLaws
pub mod PhysAddr
pub mod PhysAddrLaws
pub mod Units
mod Tests
