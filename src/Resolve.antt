-- ===== src/Resolve.antt =====
-- onomancy_protocol/src/resolve.rs: the greedy walk of a name's segments through namestores.
pub mod Walk
mod Examples
use onomancy.Prelude.{ℕ, zero, suc, ◌+◌, ◌-◌, List, [], ◌∷◌, length, take, drop, Option, none, some}
use onomancy.Core.{DocAnchor, Bytes}

-- onomancy_core/src/name/segment.rs: a segment's text.
abbrev pub Segment : Type 0
Segment = Bytes

-- resolve/namestore.rs: how a replica's standing was established, weakest first.
pub data Authority : Type 0 where
  trusted_substrate carriage_verified : Authority

-- `Ord::min`
abbrev pub min : Authority → Authority → Authority
min trusted_substrate b = trusted_substrate
min carriage_verified b = b

pub record Vouched (N : Type 0) : Type 0 where
  pub namestore : N
  pub authority : Authority

-- The seams: the references that a namestore holds, and the replicas at hand.
pub record Namestores (N : Type 0) : Type 0 where
  pub reference : N → List Segment → Option DocAnchor
  pub replica : DocAnchor → Option (Vouched N)

-- resolve/resolution.rs
pub data PartialReason : Type 0 where
  dangling_segment : PartialReason
  unsynced_target : DocAnchor → PartialReason

pub data Resolution (N : Type 0) : Type 0 where
  resolved : N → Authority → Resolution N
  partial : ℕ → PartialReason → Resolution N

module _ {N : Type 0} (stores : Namestores N) where
  -- The longest prefix of at most `n` segments that the namestore maps, with its target.
  unfoldable pub longest_match : N → List Segment → ℕ → Option (ℕ × DocAnchor)
  longest_match current remaining zero = none
  longest_match current remaining (suc n) =
      elim (stores.reference current (take (suc n) remaining)) [
        | some target ↦ some (suc n, target)
        | none ↦ longest_match current remaining n
      ]

  -- The loop; `none` means that the fuel ran out.
  unfoldable pub walk : ℕ → ℕ → N → Authority → List Segment → Option (Resolution N)
  unfolding longest_match
  walk zero total current authority remaining = none
  walk (suc fuel) total current authority [] = some (resolved current authority)
  walk (suc fuel) total current authority (s ∷ ss) =
      elim (longest_match current (s ∷ ss) (length (s ∷ ss))) [
        | none ↦ some (partial (total - length (s ∷ ss)) dangling_segment)
        | some (matched, target) ↦
            let remaining = drop matched (s ∷ ss) in
            elim (stores.replica target) [
              | none ↦ some (partial (total - length remaining) (unsynced_target target))
              | some vouched ↦
                  walk fuel total vouched.namestore (min authority vouched.authority) remaining
            ]
      ]

  -- `resolve`: every round consumes a segment, so one round more than there are segments is enough.
  unfoldable pub resolve : Vouched N → List Segment → Option (Resolution N)
  unfolding walk
  resolve root segments =
      walk (length segments + 1) (length segments) root.namestore root.authority segments
