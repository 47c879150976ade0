-- ===== src/Verifier.antt =====
-- onomancy_protocol/src/verifier: from a store of evidence to what the verifier believes.
pub mod Store
pub mod Evidence
pub mod Lineage
pub mod Succession
pub mod Decisions
pub mod Acceptances
pub mod Rules
pub mod Resolution
pub mod State
pub mod Prune
pub mod Diff
pub mod Verdict
pub mod Fixtures
mod Examples
