-- ===== src/Iter.antt =====
-- memflow/src/iter: splitting of buffers, and the iterator of page-aligned chunks.
pub mod Split
pub mod Cells
pub mod BaseSplits
pub mod SplitLaws
pub mod Chunks
pub mod PageRest
pub mod ChunksLaws
pub mod CoverLaws
pub mod PagesLaws
mod Tests
