-- ===== src/Mmu.antt =====
-- memflow/src/mem/virt_translate/mmu: the description of a memory management unit, the tables made
-- from it, the filter of virtual ranges, and the steps of the page walk; the architectures of
-- memflow/src/architecture that it serves.
pub mod Def
pub mod Spec
pub mod Arch
pub mod TableLaws
pub mod SpecLaws
pub mod ArchLaws
pub mod TranslateData
pub mod Filter
pub mod RangeLaws
pub mod FilterLaws
pub mod FilterParts
pub mod FilterCanonical
pub mod FilterWrap
pub mod SplitChunk
pub mod SplitPiecesLaws
pub mod Refill
pub mod RefillMoves
pub mod RefillLaws
pub mod Walk
pub mod Iterate
pub mod ReadLaws
pub mod KeepLaws
pub mod RunLaws
pub mod GiveUpLaws
pub mod WalkLaws
mod WalkTests
mod RunTests
mod SplitTests
mod Tests
