-- ===== src/Verifier/Evidence/Extract/Origin.antt =====
-- Where extracted evidence comes from: `validate_and_extract` of state.rs adds nothing of its own.
use onomancy.Prelude.{
  ℕ, List, [], ◌∷◌, ◌++◌, map, true, Option, none, some, ◌==◌, ◌&&◌, filter, ◌≡◌, inl, inr, refl,
  sym, ap, ◌∙◌, In, In-append, any-In, In-filter, eqb→eq, and-true, subst,
}
use onomancy.Prelude.Result.{Result, ok, err}
use onomancy.Core.{DocAnchor}
use onomancy.Dnssec.Units.{
  DnsName, DnssecChain, Certificate, ChainProof, ChainValidator, AuthorityVerifier, TxtRecord,
}
use onomancy.Verifier.Store.{
  Hasher, Store, Item, chain_refresh, record_item, rotation, successor, content_hash,
}
use onomancy.Verifier.Evidence.{BindingEvidence, chain_only, Evidence}
use onomancy.Verifier.Evidence.Validate.{RecordRejected, validate_record, zone_word}
use onomancy.Verifier.Evidence.Extract.{
  Pass, PendingRefresh, ValidatedCarriage, extract_carried, add_certificate, take_item, first_pass,
  refresh_on_path, refresh_rows, take_refresh, second_pass, start, validate_and_extract,
  sorted_documents,
}
use onomancy.Verifier.Evidence.Extract.Untouched.{
  extract_rotation-Untouched, extract_successor-Untouched, extract_carried-Untouched,
}

module _ (h : Hasher) (v : ChainValidator) (a : AuthorityVerifier) (items : List Item) where
  -- A certificate among the items validated for this hostname and document, and its carriage has
  -- the generation on its path.
  pub record IsCarried (hostname : DnsName) (document generation : ℕ) : Type 0 where
    pub source : Certificate
    pub binding : BindingEvidence
    pub held : In (record_item source) items
    pub validated : validate_record v a source source.digest ≡ ok binding
    pub same_hostname : binding.hostname ≡ hostname
    pub same_document : binding.document ≡ document
    pub on_path : a.on_path source.delegation_chain generation ≡ true

  -- A chain refresh among the items whose proof yields the row, without a certificate's word.
  pub record IsRefreshed (r : BindingEvidence) : Type 0 where
    pub chain : DnssecChain
    pub proof : ChainProof
    pub record_of : TxtRecord
    pub held : In (chain_refresh r.hostname chain) items
    pub proven : v.validate r.hostname chain ≡ some proof
    pub word : zone_word r.document proof.records ≡ some record_of
    pub attestation : r.attestation ≡ chain_only
    pub generation : r.generation ≡ record_of.generation
    pub serial : r.key.serial ≡ record_of.serial
    pub issued_at : r.key.issued_at ≡ 0
    pub window : r.window ≡ proof.window
    pub hash : r.hash ≡ content_hash h (chain_refresh r.hostname chain)
    pub carried : r.generation_on_path ≡ true → IsCarried r.hostname r.document r.generation

  -- The two sources of a binding record.
  pub data Origin (r : BindingEvidence) : Type 0 where
    of_certificate :
        (c : Certificate)
        → In (record_item c) items
        → validate_record v a c c.digest ≡ ok r
        → Origin r
    of_refresh : IsRefreshed r → Origin r

  pub record HasOrigins (p : Pass) : Type 0 where
    pub records : (r : BindingEvidence) → In r p.evidence.records → Origin r
    pub carriages :
        (w : ValidatedCarriage)
        → In w p.validated_carriages
        → (generation : ℕ) → a.on_path w.carriage generation ≡ true
        → IsCarried w.hostname w.document generation
    pub refreshes :
        (f : PendingRefresh)
        → In f p.refreshes
        → In (chain_refresh f.hostname f.chain) items
          × (f.hash ≡ content_hash h (chain_refresh f.hostname f.chain))

  add_certificate-HasOrigins :
      (p : Pass) (c : Certificate)
      → In (record_item c) items
      → HasOrigins p
      → HasOrigins (add_certificate h v a p c c.digest)
  unfolding add_certificate
  add_certificate-HasOrigins p c held o = split (validate_record v a c c.digest) refl
    where
      after : Result RecordRejected BindingEvidence → Pass
      after res = elim res [
        | err _ ↦ p
        | ok b ↦ record p {
          evidence = record p.evidence { records = p.evidence.records ++ b ∷ [] };
          validated_carriages =
              p.validated_carriages
              ++ record {
                hostname = b.hostname;
                document = b.document;
                carriage = c.delegation_chain;
              }
                ∷ [];
        }
      ]

      split :
          (res : Result RecordRejected BindingEvidence)
          → validate_record v a c c.digest ≡ res
          → HasOrigins (after res)
      split (err _) e = o
      split (ok b) e = record {
        records = λ r m. elim (In-append r p.evidence.records (b ∷ []) m) [
          | inl k ↦ o.records r k
          | inr (inl q) ↦ of_certificate c held (e ∙ ap (λ x. ok x) (sym q))
          | inr (inr k) ↦ (elim k [ ])
        ];
        carriages = λ w m g path. elim (In-append w p.validated_carriages (_ ∷ []) m) [
          | inl k ↦ o.carriages w k g path
          | inr (inl q) ↦ record {
            source = c;
            binding = b;
            held = held;
            validated = e;
            same_hostname = ap (λ (x : ValidatedCarriage). x.hostname) (sym q);
            same_document = ap (λ (x : ValidatedCarriage). x.document) (sym q);
            on_path = subst (λ (x : ValidatedCarriage). a.on_path x.carriage g ≡ true) q path;
          }
          | inr (inr k) ↦ (elim k [ ])
        ];
        refreshes = o.refreshes;
      }

  take_item-HasOrigins :
      (p : Pass) (item : Item) → In item items → HasOrigins p → HasOrigins (take_item h v a p item)
  unfolding take_item content_hash
  take_item-HasOrigins p (record_item c) m o =
      add_certificate-HasOrigins (record p { evidence = extract_carried a p.evidence c }) c m
        (record {
          records = λ r k.
              o.records r (subst (λ l. In r l) (extract_carried-Untouched a p.evidence c).0 k);
          carriages = o.carriages;
          refreshes = o.refreshes;
        })
  take_item-HasOrigins p (chain_refresh hostname chain) m o = record {
    records = o.records;
    carriages = o.carriages;
    refreshes = λ f k. elim (In-append f p.refreshes (_ ∷ []) k) [
      | inl n ↦ o.refreshes f n
      | inr (inl q) ↦
          subst
            (λ (x : PendingRefresh).
              In (chain_refresh x.hostname x.chain) items
              × (x.hash ≡ content_hash h (chain_refresh x.hostname x.chain)))
            (sym q) (m, refl)
      | inr (inr n) ↦ (elim n [ ])
    ];
  }
  take_item-HasOrigins p (rotation st) m o = record {
    records = λ r k.
        o.records r (subst (λ l. In r l) (extract_rotation-Untouched a none p.evidence st).0 k);
    carriages = o.carriages;
    refreshes = o.refreshes;
  }
  take_item-HasOrigins p (successor st) m o = record {
    records = λ r k.
        o.records r (subst (λ l. In r l) (extract_successor-Untouched a none p.evidence st).0 k);
    carriages = o.carriages;
    refreshes = o.refreshes;
  }

  first_pass-HasOrigins :
      (p : Pass) (rest : List Item)
      → ((item : Item) → In item rest → In item items)
      → HasOrigins p
      → HasOrigins (first_pass h v a p rest)
  unfolding first_pass
  first_pass-HasOrigins p [] sub o = o
  first_pass-HasOrigins p (item ∷ rest) sub o =
      let held = record p {
        evidence = record p.evidence { held = content_hash h item ∷ p.evidence.held };
      } in
      let o' : HasOrigins held = record {
        records = o.records;
        carriages = o.carriages;
        refreshes = o.refreshes;
      } in
      first_pass-HasOrigins (take_item h v a held item) rest (λ i m. sub i (inr m))
        (take_item-HasOrigins held item (sub item (inl refl)) o')

  refresh_on_path-IsCarried :
      (carriages : List ValidatedCarriage)
      → ((w : ValidatedCarriage)
          → In w carriages
          → (generation : ℕ) → a.on_path w.carriage generation ≡ true
          → IsCarried w.hostname w.document generation)
      → (hostname : DnsName) (document generation : ℕ)
      → refresh_on_path h v a carriages hostname document generation ≡ true
      → IsCarried hostname document generation
  unfolding refresh_on_path
  refresh_on_path-IsCarried carriages have hostname document generation e =
      let same = λ (c : ValidatedCarriage). c.hostname == hostname && c.document == document in
      let (w, m, path) =
        any-In (λ (c : ValidatedCarriage). a.on_path c.carriage generation) (filter same carriages)
          e in
      let (k, both) = In-filter same w carriages m in
      let (eh, ed) = and-true (w.hostname == hostname) (w.document == document) both in
      subst (λ x. IsCarried x document generation) (eqb→eq w.hostname hostname eh)
        (subst (λ x. IsCarried w.hostname x generation) (eqb→eq w.document document ed)
          (have w k generation path))

  refresh_rows-Origin :
      (carriages : List ValidatedCarriage)
      → ((w : ValidatedCarriage)
          → In w carriages
          → (generation : ℕ) → a.on_path w.carriage generation ≡ true
          → IsCarried w.hostname w.document generation)
      → (f : PendingRefresh) (proof : ChainProof) → In (chain_refresh f.hostname f.chain) items
      → f.hash ≡ content_hash h (chain_refresh f.hostname f.chain)
      → v.validate f.hostname f.chain ≡ some proof
      → (documents : List DocAnchor) (r : BindingEvidence)
      → In r (refresh_rows h v a carriages f proof documents)
      → Origin r
  unfolding refresh_rows
  refresh_rows-Origin carriages have f proof m eh e [] r k = elim k [ ]
  refresh_rows-Origin carriages have f proof m eh e (document ∷ documents) r k =
      split (refresh_rows-Origin carriages have f proof m eh e documents r)
        (zone_word document proof.records) refl k
    where
      rest : List BindingEvidence
      rest = refresh_rows h v a carriages f proof documents

      row : TxtRecord → BindingEvidence
      row t = record {
        attestation = chain_only;
        document = document;
        generation = t.generation;
        hash = f.hash;
        hostname = f.hostname;
        key = record { window_end = proof.window.expiration; serial = t.serial; issued_at = 0 };
        generation_on_path = refresh_on_path h v a carriages f.hostname document t.generation;
        window = proof.window;
      }

      row-Origin : (t : TxtRecord) → zone_word document proof.records ≡ some t → Origin (row t)
      row-Origin t w = of_refresh (record {
        chain = f.chain;
        proof = proof;
        record_of = t;
        held = m;
        proven = e;
        word = w;
        attestation = refl;
        generation = refl;
        serial = refl;
        issued_at = refl;
        window = refl;
        hash = eh;
        carried = refresh_on_path-IsCarried carriages have f.hostname document t.generation;
      })

      split :
          (In r rest → Origin r)
          → (o : Option TxtRecord) → zone_word document proof.records ≡ o
          → In r (elim o [ none ↦ rest | some t ↦ row t ∷ rest ])
          → Origin r
      split ih none w n = ih n
      split ih (some t) w (inl q) = subst Origin (sym q) (row-Origin t w)
      split ih (some t) w (inr n) = ih n

  abbrev AllOrigins : Evidence → Type 0
  AllOrigins e = (r : BindingEvidence) → In r e.records → Origin r

  take_refresh-AllOrigins :
      (carriages : List ValidatedCarriage)
      → ((w : ValidatedCarriage)
          → In w carriages
          → (generation : ℕ) → a.on_path w.carriage generation ≡ true
          → IsCarried w.hostname w.document generation)
      → (e : Evidence) (f : PendingRefresh)
      → In (chain_refresh f.hostname f.chain) items
        × (f.hash ≡ content_hash h (chain_refresh f.hostname f.chain))
      → AllOrigins e
      → AllOrigins (take_refresh h v a carriages e f)
  unfolding take_refresh
  take_refresh-AllOrigins carriages have e f m o = split (v.validate f.hostname f.chain) refl
    where
      documents : ChainProof → List DocAnchor
      documents proof = sorted_documents (map (λ (r : TxtRecord). r.document) proof.records)

      split :
          (res : Option ChainProof)
          → v.validate f.hostname f.chain ≡ res
          → AllOrigins (elim res [
            | none ↦ e
            | some proof ↦ record e {
              records = e.records ++ refresh_rows h v a carriages f proof (documents proof);
            }
          ])
      split none q r k = o r k
      split (some proof) q r k =
          elim (In-append r e.records (refresh_rows h v a carriages f proof (documents proof)) k) [
            | inl n ↦ o r n
            | inr n ↦ refresh_rows-Origin carriages have f proof m.0 m.1 q (documents proof) r n
          ]

  second_pass-AllOrigins :
      (carriages : List ValidatedCarriage)
      → ((w : ValidatedCarriage)
          → In w carriages
          → (generation : ℕ) → a.on_path w.carriage generation ≡ true
          → IsCarried w.hostname w.document generation)
      → (e : Evidence) (fs : List PendingRefresh)
      → ((f : PendingRefresh)
          → In f fs
          → In (chain_refresh f.hostname f.chain) items
            × (f.hash ≡ content_hash h (chain_refresh f.hostname f.chain)))
      → AllOrigins e
      → AllOrigins (second_pass h v a carriages e fs)
  unfolding second_pass
  second_pass-AllOrigins carriages have e [] ms o = o
  second_pass-AllOrigins carriages have e (f ∷ fs) ms o =
      second_pass-AllOrigins carriages have (take_refresh h v a carriages e f) fs
        (λ g k. ms g (inr k)) (take_refresh-AllOrigins carriages have e f (ms f (inl refl)) o)

-- Every extracted record is a held certificate that validated, or a row of a held chain refresh
-- whose chain is proven; and a refresh's row is on a delegation path only by the carriage of a held
-- certificate that validated for the same hostname and document.
pub validate_and_extract-Origin :
    (h : Hasher) (v : ChainValidator) (a : AuthorityVerifier) (store : Store) (r : BindingEvidence)
    → In r (validate_and_extract h v a store).records
    → Origin h v a store.items r
unfolding validate_and_extract
validate_and_extract-Origin h v a store r m =
    let none_yet : HasOrigins h v a store.items start = record {
      records = λ x k. elim k [ ];
      carriages = λ x k. elim k [ ];
      refreshes = λ x k. elim k [ ];
    } in
    let p = first_pass h v a start store.items in
    let o = first_pass-HasOrigins h v a store.items start store.items (λ i k. k) none_yet in
    second_pass-AllOrigins h v a store.items p.validated_carriages o.carriages p.evidence
      p.refreshes o.refreshes o.records r m
