-- ===== src/Verifier/Resolution/Candidates.antt =====
-- Who can be accepted: `best_of_document` and `resolve_document` of state.rs.
use onomancy.Prelude.{
  List, [], ◌∷◌, ◌++◌, true, not, ◌&&◌, any, filter, find, find-some, filter_map-In, first,
  last_or-In, Option, none, some, some-injective, ◌==◌, ◌≡◌, refl, sym, subst, ap, ◌∙◌, In,
  In-filter, map-In, eqb→eq, inl,
}
use onomancy.Prelude.Sort.{sort_by_key, In-sort, In-dedup}
use onomancy.Core.{DocAnchor}
use onomancy.Dnssec.ZoneStateKey.{words, eqb}
use onomancy.Dnssec.Units.{DnsName, GenerationKey}
use onomancy.Verifier.Evidence.{Evidence, BindingEvidence, is_certificate}
use onomancy.Verifier.Evidence.Extract.{In-sorted_documents}
use onomancy.Verifier.Decisions.{Decisions}
use onomancy.Verifier.Acceptances.{AcceptanceResolution, winning_acceptance}
use onomancy.Verifier.Resolution.{
  LadderContext, DocumentResolution, BestOf, spellings, beats_within, pick_undominated,
  best_of_document, candidate_documents, best_records, settle, resolve_among, resolve_document,
}

In-spellings :
    (surviving : List BindingEvidence) (document : DocAnchor) (r : BindingEvidence)
    → In r (spellings surviving document)
    → In r surviving × (r.document ≡ document)
unfolding spellings
In-spellings surviving document r m =
    let names = λ (x : BindingEvidence). x.document == document in
    let key = λ (x : BindingEvidence). words x.key ++ x.generation ∷ x.hash ∷ [] in
    let (k, e) = In-filter names r surviving (
      In-sort key r (filter names surviving) (
        In-dedup (λ (a b : BindingEvidence). a.generation == b.generation && eqb a.key b.key) r
          (sort_by_key key (filter names surviving)) m)) in
    (k, eqb→eq r.document document e)

In-pick :
    (of_doc undominated : List BindingEvidence) (r : BindingEvidence)
    → ((x : BindingEvidence) → In x undominated → In x of_doc)
    → (pick_undominated of_doc undominated).winner ≡ some r
    → In r of_doc
unfolding pick_undominated
In-pick of_doc (w ∷ []) r sub h = subst (λ x. In x of_doc) (some-injective _ _ h) (sub w (inl refl))
In-pick [] [] r sub h = cc h
In-pick [] (x ∷ y ∷ l) r sub h = cc h
In-pick (x ∷ xs) [] r sub h = subst (λ y. In y (x ∷ xs)) (some-injective _ _ h) (last_or-In x xs)
In-pick (x ∷ xs) (y ∷ z ∷ l) r sub h =
    subst (λ y. In y (x ∷ xs)) (some-injective _ _ h) (last_or-In x xs)

-- A document's winning record is one of its surviving records.
pub best_of_document-In :
    (ctx : LadderContext) (surviving : List BindingEvidence) (document : DocAnchor)
    (r : BindingEvidence)
    → (best_of_document ctx surviving document).winner ≡ some r
    → In r surviving × (r.document ≡ document)
unfolding best_of_document
best_of_document-In ctx surviving document r h =
    let of_doc = spellings surviving document in
    let free =
      λ (c : BindingEvidence). not (any (λ (o : BindingEvidence). beats_within ctx c o) of_doc) in
    In-spellings surviving document r
      (In-pick of_doc (filter free of_doc) r (λ x m. (In-filter free x of_doc m).0) h)

-- Some surviving record that a certificate attests names the document.
pub record IsCertified (surviving : List BindingEvidence) (document : DocAnchor) : Type 0 where
  pub by : BindingEvidence
  pub held : In by surviving
  pub attested : is_certificate by.attestation ≡ true
  pub names : by.document ≡ document

candidate-IsCertified :
    (surviving : List BindingEvidence) (d : DocAnchor)
    → In d (candidate_documents surviving)
    → IsCertified surviving d
unfolding candidate_documents
candidate-IsCertified surviving d m =
    let certified = λ (r : BindingEvidence). is_certificate r.attestation in
    let (r, k, e) =
      map-In (λ (r : BindingEvidence). r.document) d (filter certified surviving)
        (In-sorted_documents d _ m) in
    let (held, a) = In-filter certified r surviving k in
    record { by = r; held = held; attested = a; names = sym e }

In-best_records :
    (ctx : LadderContext) (surviving : List BindingEvidence) (r : BindingEvidence)
    → In r (best_records ctx surviving)
    → In r surviving
      × IsCertified surviving r.document
      × ((best_of_document ctx surviving r.document).winner ≡ some r)
unfolding best_records
In-best_records ctx surviving r m =
    let (d, k, e) =
      filter_map-In (λ d. (best_of_document ctx surviving d).winner) r
        (candidate_documents surviving) m in
    let (held, q) = best_of_document-In ctx surviving d r e in
    (
      held,
      subst (IsCertified surviving) (sym q) (candidate-IsCertified surviving d k),
      subst (λ x. (best_of_document ctx surviving x).winner ≡ some r) (sym q) e,
    )

-- What stands behind an accepted document and generation.
pub record IsSupported (ctx : LadderContext) (surviving : List BindingEvidence) (d : DocAnchor)
    (g : GenerationKey) : Type 0 where
  pub winner : BindingEvidence
  pub held : In winner surviving
  pub names : winner.document ≡ d
  pub generation : winner.generation ≡ g
  pub best : (best_of_document ctx surviving d).winner ≡ some winner
  pub certified : IsCertified surviving d

resolve_among-IsSupported :
    (ctx : LadderContext) (surviving : List BindingEvidence) (f : BindingEvidence)
    (acceptance : AcceptanceResolution) (d : DocAnchor) (g : GenerationKey)
    → (resolve_among ctx surviving (best_records ctx surviving) f acceptance).accepted ≡ some (d, g)
    → IsSupported ctx surviving d g
unfolding resolve_among
resolve_among-IsSupported ctx surviving f acceptance d g h =
    split _ (find _ (best_records ctx surviving)) refl h
  where
    split :
        (document : DocAnchor) (o : Option BindingEvidence)
        → find (λ (r : BindingEvidence). r.document == document) (best_records ctx surviving) ≡ o
        → ◌≡◌ {A = Option (DocAnchor × GenerationKey)}
            (elim o [ none ↦ none | some r ↦ some (document, r.generation) ])
            (some (d, g))
        → IsSupported ctx surviving d g
    split document none e k = cc k
    split document (some r) e k =
        let (m, q) =
          find-some (λ (x : BindingEvidence). x.document == document) (best_records ctx surviving)
            e in
        let (held, cert, best) = In-best_records ctx surviving r m in
        let eq = eqb→eq r.document document q in
        let both = some-injective _ _ k in
        let dd : r.document ≡ d = eq ∙ ap (λ (p : DocAnchor × GenerationKey). p.0) both in
        record {
          winner = r;
          held = held;
          names = dd;
          generation = ap (λ (p : DocAnchor × GenerationKey). p.1) both;
          best = subst (λ x. (best_of_document ctx surviving x).winner ≡ some r) dd best;
          certified = subst (IsCertified surviving) dd cert;
        }

-- A document is accepted only if a surviving record that a certificate attests names it, and the
-- generation accepted with it is that of the document's ladder-winning record.
pub resolve_document-IsSupported :
    (ctx : LadderContext) (surviving : List BindingEvidence) (hostname : DnsName)
    (decisions : Decisions) (evidence : Evidence) (d : DocAnchor) (g : GenerationKey)
    → (resolve_document ctx surviving hostname decisions evidence).accepted ≡ some (d, g)
    → IsSupported ctx surviving d g
unfolding resolve_document
resolve_document-IsSupported ctx surviving hostname decisions evidence d g h =
    split (first (best_records ctx surviving)) h
  where
    split :
        (o : Option BindingEvidence)
        → (elim o as (λ _. DocumentResolution) [
          | none ↦ onomancy.Verifier.Resolution.no_resolution
          | some f ↦
              resolve_among ctx surviving
                (best_records ctx surviving)
                f
                (winning_acceptance hostname decisions evidence)
        ]).accepted
          ≡ some (d, g)
        → IsSupported ctx surviving d g
    split none k = cc k
    split (some f) k =
        resolve_among-IsSupported ctx surviving f (winning_acceptance hostname decisions evidence) d
          g k
