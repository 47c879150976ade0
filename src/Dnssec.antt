-- ===== src/Dnssec.antt =====
-- onomancy_dnssec: the vocabulary of the DNS anchoring protocol.
pub mod Freshness
pub mod Serial
pub mod ZoneStateKey
pub mod Units
mod Examples
