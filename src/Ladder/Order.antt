-- ===== src/Ladder/Order.antt =====
-- The ladder is a deterministic, unbiased order: `compare` of ladder.rs.
use onomancy.Prelude.{◌≡◌, ◌↔◌, arith}
use onomancy.Dnssec.Freshness.{Freshness}
use onomancy.Ladder.{Contender, Continuity, Verdict, compare}

-- The operands' view from the other side.
abbrev pub mirror : Continuity → Continuity
mirror Continuity.left_newer = Continuity.right_newer
mirror Continuity.right_newer = Continuity.left_newer
mirror Continuity.fork = Continuity.fork
mirror Continuity.silent = Continuity.silent

abbrev pub flip : Verdict → Verdict
flip Verdict.left = Verdict.right
flip Verdict.right = Verdict.left
flip Verdict.equal = Verdict.equal
flip Verdict.equivocation = Verdict.equivocation
flip Verdict.fork = Verdict.fork

-- Swapping the contenders and the orientation of the continuity mirrors the verdict, for every
-- pair and every continuity.
pub compare-mirror :
    (l r : Contender) (c : Continuity) → compare r l (mirror c) ≡ flip (compare l r c)
unfolding compare
compare-mirror l r Continuity.fork = ground arith
compare-mirror l r Continuity.left_newer = ground arith
compare-mirror l r Continuity.right_newer = ground arith
compare-mirror l r Continuity.silent = ground arith

-- A fresh contender beats a stale one on either side, whatever the statements say.
pub compare-fresh-stale :
    (l r : Contender) (c : Continuity)
    → l.freshness ≡ Freshness.fresh
    → r.freshness ≡ Freshness.stale
    → (compare l r c ≡ Verdict.left) × (compare r l c ≡ Verdict.right)
unfolding compare
compare-fresh-stale l r c hl hr = ground arith

-- With no statement on the pair the verdict is `equal` exactly for one document, one key and one
-- freshness grade, which is to say for equal contenders.
pub compare-equal : (l r : Contender) → (compare l r Continuity.silent ≡ Verdict.equal) ↔ (l ≡ r)
unfolding compare
compare-equal l r = (λ h. ground arith, λ h. ground arith)

-- Between contenders of one freshness grade a fork of the statements is the verdict, and nothing
-- else of the ladder yields one.
pub compare-fork :
    (l r : Contender) (c : Continuity)
    → (compare l r c ≡ Verdict.fork) ↔ ((l.freshness ≡ r.freshness) × (c ≡ Continuity.fork))
unfolding compare
compare-fork l r Continuity.fork = (λ h. ground arith, λ h. ground arith)
compare-fork l r Continuity.left_newer = (λ h. ground arith, λ h. ground arith)
compare-fork l r Continuity.right_newer = (λ h. ground arith, λ h. ground arith)
compare-fork l r Continuity.silent = (λ h. ground arith, λ h. ground arith)

-- With the statements silent strict wins compose, within a document and across documents: three
-- contenders never beat one another in a circle.
pub compare-left_trans :
    (a b c : Contender)
    → compare a b Continuity.silent ≡ Verdict.left
    → compare b c Continuity.silent ≡ Verdict.left
    → compare a c Continuity.silent ≡ Verdict.left
unfolding compare
compare-left_trans a b c p q = ground arith
