-- ===== src/Verifier/Prune/Keeps.antt =====
-- What `prune` of prune.rs leaves in the store.
use onomancy.Prelude.{
  ℕ, ◌≤◌, List, [], ◌∷◌, map, Bool, true, ◌&&◌, ◌≡◌, ◌↔◌, ◌⊎◌, inl, inr, refl, sym, ◌∙◌, none, some,
  not, any, leb, subst, In, In-elem, filter, filter-In, In-filter, In-map, map-In, In-append_left,
  In-append_right, ◌==◌, arith,
}
use onomancy.Prelude.Sort.{sort_by_key, sort-In, dedup-In}
use onomancy.Core.{Digest, UnixSeconds}
use onomancy.Dnssec.Units.{ChainValidator, AuthorityVerifier, RotationStatement, SuccessorStatement}
use onomancy.Verifier.Store.{
  Hasher, Store, Item, chain_refresh, record_item, rotation, successor, content_hash,
}
use onomancy.Verifier.Store.Union.{IsValid, hashes, from_iter-IsValid}
use onomancy.Verifier.Evidence.{Evidence, BindingEvidence}
use onomancy.Verifier.Evidence.Extract.{validate_and_extract}
use onomancy.Verifier.Evidence.Extract.Origin.{
  Origin, of_certificate, of_refresh, validate_and_extract-Origin,
}
use onomancy.Verifier.Evidence.Sound.{validate_record-ok}
use onomancy.Verifier.Decisions.{Decisions}
use onomancy.Verifier.Prune.{
  dominates, frontier, endpoint, kept_of_group, group_of, representatives, kept_of_groups,
  all_cited, horizon_at, keep_set, stays, prune,
}
use onomancy.Verifier.Prune.Domination.{IsBetter}
use onomancy.Verifier.Prune.Frontier.{OnePerItem, frontier-IsKeptFor}

-- Records of the same hostname and document.
abbrev pub same_group : BindingEvidence → BindingEvidence → Bool
same_group a b = a.hostname == b.hostname && a.document == b.document

abbrev group_key : BindingEvidence → List ℕ
group_key r = r.hostname ∷ r.document ∷ []

same_group_refl : (r : BindingEvidence) → same_group r r ≡ true
same_group_refl r = ground arith

same_group-eq :
    (a b : BindingEvidence)
    → same_group a b ≡ true
    → (a.hostname ≡ b.hostname) × (a.document ≡ b.document)
same_group-eq a b h = ground arith

representative :
    (records : List BindingEvidence) (r : BindingEvidence)
    → In r records
    → (like : BindingEvidence) × (In like (representatives records) × In r (group_of records like))
unfolding representatives group_of
representative records r m =
    elim (dedup-In same_group r (sort_by_key group_key records) (sort-In group_key r records m)) [
      | inl k ↦ (r, (k, filter-In (λ x. same_group x r) r records m (same_group_refl r)))
      | inr (like, k, e) ↦ (like, (k, filter-In (λ x. same_group x like) r records m e))
    ]

kept_of_groups-In :
    (horizon : ℕ) (records likes : List BindingEvidence) (like : BindingEvidence) (d : Digest)
    → In like likes
    → In d (kept_of_group horizon (group_of records like))
    → In d (kept_of_groups horizon records likes)
unfolding kept_of_groups
kept_of_groups-In horizon records [] like d m k = elim m [ ]
kept_of_groups-In horizon records (l ∷ ls) like d (inl e) k =
    In-append_left d (kept_of_group horizon (group_of records l))
      (kept_of_groups horizon records ls)
      (subst (λ x. In d (kept_of_group horizon (group_of records x))) e k)
kept_of_groups-In horizon records (l ∷ ls) like d (inr n) k =
    In-append_right d (kept_of_group horizon (group_of records l))
      (kept_of_groups horizon records ls) (kept_of_groups-In horizon records ls like d n k)

-- Of one hostname and document, records of one item are one record.
abbrev pub OnePerGroup : List BindingEvidence → Type 0
OnePerGroup records =
    (a b : BindingEvidence)
    → In a records
    → In b records
    → a.hash ≡ b.hash
    → a.hostname ≡ b.hostname
    → a.document ≡ b.document
    → a ≡ b

frontier-In :
    (horizon : ℕ) (group : List BindingEvidence) (r : BindingEvidence)
    → In r (frontier horizon group)
    → In r group
unfolding frontier
frontier-In horizon group r m =
    (In-filter (λ (x : BindingEvidence). leb x.key.serial horizon) r group
      (In-filter
        (λ (x : BindingEvidence). not (any (λ (other : BindingEvidence). dominates other x) group))
        r (filter (λ (x : BindingEvidence). leb x.key.serial horizon) group) m).0).0

module _ (h : Hasher) (validator : ChainValidator) (authority : AuthorityVerifier) (store : Store)
    (now : UnixSeconds) (decisions : Decisions) where
  abbrev evidence : Evidence
  evidence = validate_and_extract h validator authority store

  abbrev pruned : Store
  pruned = prune h validator authority store now decisions

  stays_rotation : (keep : List Digest) (st : RotationStatement) → stays h keep (rotation st) ≡ true
  unfolding stays
  stays_rotation keep st = refl

  stays_successor :
      (keep : List Digest) (st : SuccessorStatement) → stays h keep (successor st) ≡ true
  unfolding stays
  stays_successor keep st = refl

  stays-kept :
      (keep : List Digest) (item : Item) → In (content_hash h item) keep → stays h keep item ≡ true
  unfolding stays
  stays-kept keep (rotation st) m = refl
  stays-kept keep (successor st) m = refl
  stays-kept keep (record_item c) m = In-elem (content_hash h (record_item c)) keep m
  stays-kept keep (chain_refresh n c) m = In-elem (content_hash h (chain_refresh n c)) keep m

  keep_set-cited :
      (d : Digest) → In d (all_cited decisions.acceptances) → In d (keep_set evidence now decisions)
  unfolding keep_set
  keep_set-cited d m =
      In-append_left d (all_cited decisions.acceptances)
        (kept_of_groups (horizon_at now) evidence.records (representatives evidence.records)) m

  keep_set-frontier :
      (like r : BindingEvidence)
      → In like (representatives evidence.records)
      → In r (frontier (horizon_at now) (group_of evidence.records like))
      → In r.hash (keep_set evidence now decisions)
  unfolding keep_set kept_of_group
  keep_set-frontier like r m k =
      In-append_right r.hash (all_cited decisions.acceptances)
        (kept_of_groups (horizon_at now) evidence.records (representatives evidence.records))
        (kept_of_groups-In (horizon_at now) evidence.records (representatives evidence.records) like
          r.hash m
          (In-append_left r.hash
            (map (λ (x : BindingEvidence). x.hash)
              (frontier (horizon_at now) (group_of evidence.records like)))
            (elim (endpoint (horizon_at now) (group_of evidence.records like)) [
              | none ↦ []
              | some x ↦ x.hash ∷ []
            ])
            (In-map (λ (x : BindingEvidence). x.hash) r
              (frontier (horizon_at now) (group_of evidence.records like)) k)))

  -- Exactly the hashes of the items that stay are left.
  pub prune_iff :
      (d : Digest)
      → In d (hashes h pruned) ↔ (
          (item : Item) × (In item store.items
            × ((content_hash h item ≡ d)
                × (stays h (keep_set evidence now decisions) item ≡ true))))
  unfolding prune
  prune_iff d = (
    λ m.
        let (item, k, e) = map-In (content_hash h) d kept (((from_iter-IsValid h kept).1 d).0 m) in
        let (held, stay) = In-filter test item store.items k in (item, (held, (sym e, stay))),
    λ (item, (held, (e, stay))). ((from_iter-IsValid h kept).1 d).1 (
        subst (λ x. In x (map (content_hash h) kept)) e
          (In-map (content_hash h) item kept (filter-In test item store.items held stay))),
  )
    where
      test : Item → Bool
      test = stays h (keep_set evidence now decisions)

      kept : List Item
      kept = filter test store.items

  -- Statements and cited items.
  abbrev pub IsEssential : Item → Type 0
  IsEssential (rotation st) = Unit
  IsEssential (successor st) = Unit
  IsEssential (record_item c) =
      In (content_hash h (record_item c)) (all_cited decisions.acceptances)
  IsEssential (chain_refresh n c) =
      In (content_hash h (chain_refresh n c)) (all_cited decisions.acceptances)

  stays-essential :
      (item : Item) → IsEssential item → stays h (keep_set evidence now decisions) item ≡ true
  stays-essential (rotation st) m = stays_rotation (keep_set evidence now decisions) st
  stays-essential (successor st) m = stays_successor (keep_set evidence now decisions) st
  stays-essential (record_item c) m =
      stays-kept (keep_set evidence now decisions) (record_item c)
        (keep_set-cited (content_hash h (record_item c)) m)
  stays-essential (chain_refresh n c) m =
      stays-kept (keep_set evidence now decisions) (chain_refresh n c)
        (keep_set-cited (content_hash h (chain_refresh n c)) m)

  -- Pruning leaves a valid store, and every hash in it is of the store before.
  pub prune-IsValid :
      IsValid h pruned × ((d : Digest) → In d (hashes h pruned) → In d (hashes h store))
  unfolding prune
  prune-IsValid = (
    (from_iter-IsValid h (filter (stays h (keep_set evidence now decisions)) store.items)).0,
    λ d m.
        let (item, (held, (e, stay))) = (prune_iff d).0 m in
        subst (λ x. In x (hashes h store)) e (In-map (content_hash h) item store.items held),
  )

  -- The hash of every statement, and of every item that an acceptance cites, is left in the store.
  pub prune-keeps :
      (item : Item)
      → In item store.items
      → IsEssential item
      → In (content_hash h item) (hashes h pruned)
  prune-keeps item m e =
      (prune_iff (content_hash h item)).1 (item, (m, (refl, stays-essential item e)))

  -- What stands for a record after pruning: itself, or one of its hostname that is at least as good.
  pub record IsCovered (r kept : BindingEvidence) : Type 0 where
    pub held : In kept evidence.records
    pub hostname : kept.hostname ≡ r.hostname
    pub covers : (kept ≡ r) ⊎ (IsBetter kept r)
    pub stays_in : In kept.hash (hashes h pruned)

  stays_hash :
      (r : BindingEvidence)
      → In r evidence.records
      → In r.hash (keep_set evidence now decisions)
      → In r.hash (hashes h pruned)
  unfolding content_hash
  stays_hash r m k = by_origin (validate_and_extract-Origin h validator authority store r m)
    where
      found :
          (item : Item)
          → In item store.items
          → r.hash ≡ content_hash h item
          → In r.hash (hashes h pruned)
      found item n e = (prune_iff r.hash).1 (
        item,
        (
          n,
          (
            sym e,
            stays-kept (keep_set evidence now decisions) item
                (subst (λ x. In x (keep_set evidence now decisions)) e k),
          ),
        ),
      )

      by_origin : Origin h validator authority store.items r → In r.hash (hashes h pruned)
      by_origin (of_certificate c n v) =
          let (proof, t, w) = validate_record-ok validator authority c c.digest r v in
          found (record_item c) n w.hash_eq
      by_origin (of_refresh w) = found (chain_refresh r.hostname w.chain) w.held w.hash

  -- Where no record lies beyond the deferral horizon, and records of one item in one group are one
  -- record, every record has one whose item is left in the store, of the same hostname, that is the
  -- record itself or better: at least as good in each dimension and strictly better in one.
  pub prune-IsCovered :
      OnePerGroup evidence.records
      → ((x : BindingEvidence) → In x evidence.records → x.key.serial ≤ horizon_at now)
      → (r : BindingEvidence) → In r evidence.records
      → (kept : BindingEvidence) × IsCovered r kept
  unfolding group_of
  prune-IsCovered one near r m =
      let (like, (k, g)) = representative evidence.records r m in
      let members : (x : BindingEvidence)
          → In x (group_of evidence.records like)
          → In x evidence.records × (same_group x like ≡ true) =
        λ x n. In-filter (λ y. same_group y like) x evidence.records n in
      let single : OnePerItem (group_of evidence.records like) = λ a b i j e.
        let p = same_group-eq a like (members a i).1 in
        let q = same_group-eq b like (members b j).1 in
        one a b (members a i).0 (members b j).0 e (p.0 ∙ sym q.0) (p.1 ∙ sym q.1) in
      let (kept, w) =
        frontier-IsKeptFor (horizon_at now) (group_of evidence.records like) single
          (λ x n. near x (members x n).0) r g in
      let n = frontier-In (horizon_at now) (group_of evidence.records like) kept w.held in
      (
        kept,
        record {
          held = (members kept n).0;
          hostname =
              (same_group-eq kept like (members kept n).1).0
              ∙ sym (same_group-eq r like (members r g).1).0;
          covers = w.covers;
          stays_in = stays_hash kept (members kept n).0 (keep_set-frontier like kept k w.held);
        },
      )
