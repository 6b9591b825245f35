-- ===== src/Error.antt =====
-- memflow/src/error.rs: the error type with its origins and kinds, its integer codes for foreign
-- callers, and partial errors.
pub mod Origin
pub mod Kind
pub mod Code
pub mod CodeLaws
pub mod Partial
pub mod PartialLaws
mod Tests
