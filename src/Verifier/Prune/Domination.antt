-- ===== src/Verifier/Prune/Domination.antt =====
-- Domination of prune.rs is a strict partial order.
use onomancy.Prelude.{
  ℕ, ◌≤◌, ◌<◌, Bool, true, false, not, ◌&&◌, ◌||◌, ◌≡◌, ◌≢◌, ◌↔◌, ◌⊎◌, inl, inr, leb, ltb, ◌==◌,
  arith, Bool-cases,
}
use onomancy.Verifier.Evidence.{BindingEvidence, is_certificate}
use onomancy.Verifier.Prune.{dominates}

-- At least as good in each of the four dimensions, and better in one of them.
pub record IsBetter (a b : BindingEvidence) : Type 0 where
  pub other_item : a.hash ≢ b.hash
  pub attested : not (not (is_certificate a.attestation) && is_certificate b.attestation) ≡ true
  pub document : a.document ≡ b.document
  pub generation : a.generation ≡ b.generation
  pub inception : a.window.inception ≤ b.window.inception
  pub expiration : b.window.expiration ≤ a.window.expiration
  pub serial : b.key.serial ≤ a.key.serial
  pub issued_at : b.key.issued_at ≤ a.key.issued_at
  pub strictly :
      (a.window.inception < b.window.inception)
      ⊎ ((b.window.expiration < a.window.expiration)
          ⊎ ((b.key.serial < a.key.serial) ⊎ (b.key.issued_at < a.key.issued_at)))

ltb-true : (a b : ℕ) → a < b → ltb a b ≡ true
ltb-true a b h = ground arith

leb-true : (a b : ℕ) → a ≤ b → leb a b ≡ true
leb-true a b h = ground arith

eqb-false : (a b : ℕ) → a ≢ b → not (a == b) ≡ true
eqb-false a b h = ground arith

not-true : (b : Bool) → not b ≡ true → b ≡ false
not-true b h = ground arith

both : (a b : Bool) → a ≡ true → b ≡ true → (a && b) ≡ true
both a b p q = ground arith

either : (a b : Bool) → (a ≡ true) ⊎ (b ≡ true) → (a || b) ≡ true
either a b o = ground arith

pub dominates_iff : (a b : BindingEvidence) → (dominates a b ≡ true) ↔ IsBetter a b
unfolding dominates
dominates_iff a b = (
  λ h. record {
    other_item = ground arith;
    attested = ground arith;
    document = ground arith;
    generation = ground arith;
    inception = ground arith;
    expiration = ground arith;
    serial = ground arith;
    issued_at = ground arith;
    strictly = ground arith;
  },
  λ w. ground arith,
)

-- Domination is asymmetric: no two records dominate each other, so no record dominates itself.
pub dominates_asym : (a b : BindingEvidence) → dominates a b ≡ true → dominates b a ≡ false
dominates_asym a b h = elim (Bool-cases (dominates b a)) [
  | inl k ↦
      let p : IsBetter a b = (dominates_iff a b).0 h in
      let q : IsBetter b a = (dominates_iff b a).0 k in absurd (clash p q)
  | inr k ↦ k
]
  where
    clash : IsBetter a b → IsBetter b a → ⊥
    clash p q = ground arith

-- Domination is transitive where the outer two records are of different items.
pub dominates_trans :
    (a b c : BindingEvidence)
    → a.hash ≢ c.hash
    → dominates a b ≡ true
    → dominates b c ≡ true
    → dominates a c ≡ true
dominates_trans a b c distinct h k =
    (dominates_iff a c).1 (join ((dominates_iff a b).0 h) ((dominates_iff b c).0 k))
  where
    join : IsBetter a b → IsBetter b c → IsBetter a c
    join p q = record {
      other_item = distinct;
      attested = ground arith;
      document = ground arith;
      generation = ground arith;
      inception = ground arith;
      expiration = ground arith;
      serial = ground arith;
      issued_at = ground arith;
      strictly = ground arith;
    }
