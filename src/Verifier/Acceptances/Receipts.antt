-- ===== src/Verifier/Acceptances/Receipts.antt =====
-- Which acceptance wins by the receipts rule of state.rs.
use onomancy.Prelude.{
  List, Bool, true, false, not, ◌&&◌, any, any-false, filter_map, filter_map-In, In-filter_map,
  last, Option, none, some, some-injective, if◌then◌else◌, ◌==◌, ◌≡◌, inl, inr, refl, ◌∙◌, In,
  eqb→eq, arith, Bool-cases, Option-cases,
}
use onomancy.Prelude.Lex.{lexb}
use onomancy.Prelude.Sort.{sort-In, In-sort}
use onomancy.Prelude.Sorted.{sort-IsSorted, last-greatest}
use onomancy.Core.{Digest, DocAnchor}
use onomancy.Dnssec.Units.{DnsName}
use onomancy.Dnssec.ZoneStateKey.{ZoneStateKey, words, eqb}
use onomancy.Verifier.Evidence.{Evidence}
use onomancy.Verifier.Decisions.{Decisions, Acceptance, get, get_all}
use onomancy.Verifier.Acceptances.{
  Ranked, AcceptanceResolution, no_acceptance, rank_acceptance, ranked_key, losers_below,
  ranked_acceptances, winner_of, winning_acceptance,
}

module _ (hostname : DnsName) (excluded : List Digest) (evidence : Evidence)
    (acceptances : List Acceptance) where
  -- An acceptance that counts, with the greatest receipt, which no other document has as well.
  pub record IsWinner (d : DocAnchor) : Type 0 where
    pub acceptance : Acceptance
    pub held : In acceptance acceptances
    pub receipt : Ranked
    pub counts : rank_acceptance hostname excluded evidence acceptance ≡ some receipt
    pub names : receipt.document ≡ d
    pub greatest :
        (other : Acceptance) (s : Ranked)
        → In other acceptances
        → rank_acceptance hostname excluded evidence other ≡ some s
        → lexb (words s.key) (words receipt.key) ≡ true
    pub unrivalled :
        (other : Acceptance) (s : Ranked)
        → In other acceptances
        → rank_acceptance hostname excluded evidence other ≡ some s
        → s.key ≡ receipt.key
        → s.document ≡ d

  key_first :
      (a b : Ranked)
      → lexb (ranked_key a) (ranked_key b) ≡ true
      → lexb (words a.key) (words b.key) ≡ true
  key_first a b h = ground arith

  same_document :
      (s best : Ranked)
      → (eqb s.key best.key && not (s.document == best.document)) ≡ false
      → s.key ≡ best.key
      → s.document ≡ best.document
  same_document s best h e = elim (Bool-cases (s.document == best.document)) [
    | inl q ↦ eqb→eq s.document best.document q
    | inr q ↦
        cc (
          clash (eqb s.key best.key) (s.document == best.document) (same_key s.key best.key e) q,
          h,
        )
  ]
    where
      clash : (a b : Bool) → a ≡ true → b ≡ false → (a && not b) ≡ true
      clash a b p q = ground arith

      same_key : (a b : ZoneStateKey) → a ≡ b → eqb a b ≡ true
      same_key a b p = ground arith

  winner_of-IsWinner :
      (d : DocAnchor)
      → (winner_of (ranked_acceptances hostname excluded evidence acceptances)).winner ≡ some d
      → IsWinner d
  unfolding winner_of ranked_acceptances
  winner_of-IsWinner d h = by_last (last ranked) refl h
    where
      ranked : List Ranked
      ranked = ranked_acceptances hostname excluded evidence acceptances

      rank : Acceptance → Option Ranked
      rank a = rank_acceptance hostname excluded evidence a

      ranked-In :
          (other : Acceptance) (s : Ranked)
          → In other acceptances
          → rank other ≡ some s
          → In s ranked
      ranked-In other s m e =
          sort-In ranked_key s (filter_map rank acceptances)
            (In-filter_map rank other s acceptances m e)

      rivals : Ranked → Bool
      rivals best =
          any (λ (r : Ranked). eqb r.key best.key && not (r.document == best.document)) ranked

      answer : Option Ranked → AcceptanceResolution
      answer o = elim o [
        | none ↦ no_acceptance
        | some best ↦
            if rivals best
            then record { winner = none; losers = losers_below ranked best.key; tied = true }
            else record {
              winner = some best.document;
              losers = losers_below ranked best.key;
              tied = false;
            }
      ]

      by_last : (o : Option Ranked) → last ranked ≡ o → (answer o).winner ≡ some d → IsWinner d
      by_last none e k = cc k
      by_last (some best) e k = elim (Bool-cases (rivals best)) [
        | inl t ↦ cc (rw t at k)
        | inr t ↦
            let named : best.document ≡ d = some-injective _ _ (rw t at k) in
            let (m, top) =
              last-greatest ranked_key ranked best
                (sort-IsSorted ranked_key (filter_map rank acceptances)) e in
            let (a, held, counts) =
              filter_map-In rank best acceptances
                (In-sort ranked_key best (filter_map rank acceptances) m) in
            record {
              acceptance = a;
              held = held;
              receipt = best;
              counts = counts;
              names = named;
              greatest = λ other s n q. key_first s best (top s (ranked-In other s n q));
              unrivalled = λ other s n q same.
                  same_document s best
                    (any-false
                      (λ (r : Ranked). eqb r.key best.key && not (r.document == best.document)) s
                      ranked t (ranked-In other s n q))
                    same
                  ∙ named;
            }
      ]

-- A document wins only by an acceptance of the hostname that counts, whose receipt none of the
-- acceptances that count exceeds and none for another document equals.
pub winning_acceptance-IsWinner :
    (hostname : DnsName) (decisions : Decisions) (evidence : Evidence) (d : DocAnchor)
    → (winning_acceptance hostname decisions evidence).winner ≡ some d
    → (acceptances : List Acceptance) × ((get hostname decisions.acceptances ≡ some acceptances)
        × IsWinner hostname (get_all hostname decisions.resets) evidence acceptances d)
unfolding winning_acceptance
winning_acceptance-IsWinner hostname decisions evidence d h =
    elim (Option-cases (get hostname decisions.acceptances)) [
      | inl e ↦ cc (rw (winning_acceptance, e) at h)
      | inr (acceptances, e) ↦ (
        acceptances,
        (
          e,
          winner_of-IsWinner hostname (get_all hostname decisions.resets) evidence acceptances d
              (rw (winning_acceptance, e) at h),
        ),
      )
    ]
