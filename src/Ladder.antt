-- ===== src/Ladder.antt =====
-- onomancy_protocol/src/ladder.rs: which of two records is the zone's later word.
pub mod Order
mod Examples
use onomancy.Prelude.{ℕ, ◌==◌, if◌then◌else◌, Ordering}
use onomancy.Prelude.Lex.{lex}
use onomancy.Core.{DocAnchor}
use onomancy.Dnssec.Freshness.{Freshness}
use onomancy.Dnssec.ZoneStateKey.{ZoneStateKey, cmp, zone_vouched}

pub record Contender : Type 0 where
  pub document : DocAnchor
  pub freshness : Freshness
  pub key : ZoneStateKey

pub data Continuity : Type 0 where
  fork : Continuity
  left_newer : Continuity
  right_newer : Continuity
  silent : Continuity

pub data Verdict : Type 0 where
  equal : Verdict
  equivocation : Verdict
  fork : Verdict
  left : Verdict
  right : Verdict

-- Rung 2: the zone-state key, without `issued_at` across documents.
zone_rung : Contender → Contender → Verdict
zone_rung l r =
    if l.document == r.document
    then (elim (cmp l.key r.key) [
      | Ordering.gt ↦ Verdict.left
      | Ordering.lt ↦ Verdict.right
      | Ordering.eq ↦ Verdict.equal
    ])
    else (elim (lex (zone_vouched l.key) (zone_vouched r.key)) [
      | Ordering.gt ↦ Verdict.left
      | Ordering.lt ↦ Verdict.right
      | Ordering.eq ↦ Verdict.equivocation
    ])

-- Rung 1, when signed statements speak, and rung 2 below it.
lower_rungs : Contender → Contender → Continuity → Verdict
unfolding zone_rung
lower_rungs l r Continuity.fork = Verdict.fork
lower_rungs l r Continuity.left_newer = Verdict.left
lower_rungs l r Continuity.right_newer = Verdict.right
lower_rungs l r Continuity.silent = zone_rung l r

-- Rung 0 decides between a fresh and a stale chain; otherwise the lower rungs do.
by_freshness : Freshness → Freshness → Verdict → Verdict
by_freshness Freshness.fresh Freshness.stale below = Verdict.left
by_freshness Freshness.stale Freshness.fresh below = Verdict.right
by_freshness _ _ below = below

-- `compare`
unfoldable pub compare : Contender → Contender → Continuity → Verdict
unfolding lower_rungs by_freshness
compare l r c = by_freshness l.freshness r.freshness (lower_rungs l r c)
