-- ===== src/Args.antt =====
-- memflow/src/plugins/args.rs: the arguments of connectors and plugins.
pub mod Text
pub mod Entries
pub mod EntriesLaws
pub mod HashMap
pub mod Parse
pub mod Validator
mod SplitLaws
mod StripLaws
mod PrintLaws
mod ParseLaws
mod RoundTrip
mod ValidatorLaws
mod Tests
