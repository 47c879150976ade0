-- ===== src/Statement.antt =====
-- onomancy_dnssec/src/statement: the signed units that a certificate carries.
pub mod Rotation
pub mod Successor
use onomancy.Core.{Bytes}
use onomancy.Wire.{OversizeUnit}

-- How signing ends short of a unit: over the cap, or at the `unreachable!` behind `Signed::sign`.
pub data SignFailure : Type 0 where
  oversize : OversizeUnit → SignFailure
  unreachable : SignFailure
