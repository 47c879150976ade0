-- ===== src/Verifier/Evidence/Extract.antt =====
-- `validate_and_extract` of state.rs: stage 1, over every item of the store.
pub mod Untouched
pub mod Origin
use onomancy.Prelude.{
  ℕ, List, [], ◌∷◌, ◌++◌, Bool, true, false, Option, none, some, if◌then◌else◌, ◌==◌, ◌&&◌, filter,
  any, map, In, eqb→eq, sym, subst, inl, inr,
}
use onomancy.Prelude.Result.{Result, ok, err}
use onomancy.Prelude.Sort.{sort_by_key, dedup_by, In-sort, sort-In, In-dedup, dedup-In}
use onomancy.Core.{Digest, DocAnchor, DelegationChain}
use onomancy.Dnssec.Units.{
  DnsName, DnssecChain, Certificate, ChainProof, ChainValidator, AuthorityVerifier, TxtRecord,
  RotationStatement, SuccessorStatement,
}
use onomancy.Verifier.Store.{
  Hasher, Store, Item, chain_refresh, record_item, rotation, successor, content_hash,
}
use onomancy.Verifier.Evidence.{
  BindingEvidence, Attestation, Provenance, no_provenance, record_carrier, RotationEvidence,
  SuccessorEvidence, Evidence, no_evidence,
}
use onomancy.Verifier.Evidence.Validate.{validate_record, zone_word}

-- `sort_unstable` and `dedup` on a list of anchors.
unfoldable pub sorted_documents : List DocAnchor → List DocAnchor
sorted_documents ds = dedup_by (λ a b. a == b) (sort_by_key (λ d. d ∷ []) ds)

pub In-sorted_documents :
    (d : DocAnchor) (ds : List DocAnchor) → In d (sorted_documents ds) → In d ds
unfolding sorted_documents
In-sorted_documents d ds m =
    In-sort (λ x. x ∷ []) d ds (In-dedup (λ a b. a == b) d (sort_by_key (λ x. x ∷ []) ds) m)

pub sorted_documents-In :
    (d : DocAnchor) (ds : List DocAnchor) → In d ds → In d (sorted_documents ds)
unfolding sorted_documents
sorted_documents-In d ds m =
    elim (dedup-In (λ a b. a == b) d (sort_by_key (λ x. x ∷ []) ds)
      (sort-In (λ x. x ∷ []) d ds m)) [
        | inl n ↦ n
        | inr (c, n, e) ↦
            subst (λ x. In x (dedup_by (λ a b. a == b) (sort_by_key (λ y. y ∷ []) ds)))
              (sym (eqb→eq d c e)) n
      ]

-- The provenance of the first entry with the hash is updated in place.
pub touch_rotation : Digest → Option Digest → List RotationEvidence → List RotationEvidence
touch_rotation hash carrier [] = []
touch_rotation hash carrier (r ∷ rs) =
    if r.hash == hash
    then record r { provenance = record_carrier r.provenance carrier } ∷ rs
    else r ∷ touch_rotation hash carrier rs

pub touch_successor : Digest → Option Digest → List SuccessorEvidence → List SuccessorEvidence
touch_successor hash carrier [] = []
touch_successor hash carrier (s ∷ ss) =
    if s.hash == hash
    then record s { provenance = record_carrier s.provenance carrier } ∷ ss
    else s ∷ touch_successor hash carrier ss

-- A refresh held back for the second pass.
pub record PendingRefresh : Type 0 where
  pub hostname : DnsName
  pub chain : DnssecChain
  pub hash : Digest

-- The carriage of a validated certificate, with the binding that it stands for.
pub record ValidatedCarriage : Type 0 where
  pub hostname : DnsName
  pub document : DocAnchor
  pub carriage : DelegationChain

-- The loop's variables.
pub record Pass : Type 0 where
  pub evidence : Evidence
  pub validated_carriages : List ValidatedCarriage
  pub refreshes : List PendingRefresh

module _ (authority : AuthorityVerifier) where
  pub extract_rotation : Option Digest → Evidence → RotationStatement → Evidence
  extract_rotation carrier e st =
      if authority.authorizes st.root_doc st.successor st.authority
      then (if any (λ r. r.hash == st.digest) e.rotations
          then record e { rotations = touch_rotation st.digest carrier e.rotations }
          else record e {
            rotations =
                e.rotations
                ++ record {
                  hash = st.digest;
                  provenance = record_carrier no_provenance carrier;
                  replaced = st.replaced;
                  root_doc = st.root_doc;
                  successor = st.successor;
                }
                  ∷ [];
          })
      else e

  pub extract_successor : Option Digest → Evidence → SuccessorStatement → Evidence
  extract_successor carrier e st =
      if authority.authorizes st.predecessor_doc st.signer st.authority
      then (if any (λ s. s.hash == st.digest) e.successors
          then record e { successors = touch_successor st.digest carrier e.successors }
          else record e {
            successors =
                e.successors
                ++ record {
                  carriage = st.authority;
                  hash = st.digest;
                  hostname = st.hostname;
                  predecessor = st.predecessor_doc;
                  provenance = record_carrier no_provenance carrier;
                  successor = st.successor_doc;
                }
                  ∷ [];
          })
      else e

  -- The statements that a certificate carries, whatever becomes of the certificate itself.
  pub extract_lineage : Option Digest → Evidence → List RotationStatement → Evidence
  unfolding extract_rotation
  extract_lineage carrier e [] = e
  extract_lineage carrier e (st ∷ sts) = extract_lineage carrier (extract_rotation carrier e st) sts

  pub extract_predecessor : Option Digest → Evidence → Option SuccessorStatement → Evidence
  unfolding extract_successor
  extract_predecessor carrier e none = e
  extract_predecessor carrier e (some st) = extract_successor carrier e st

  pub extract_carried : Evidence → Certificate → Evidence
  unfolding extract_lineage extract_predecessor
  extract_carried e c =
      extract_predecessor (some c.digest) (extract_lineage (some c.digest) e c.lineage)
        c.predecessor

abbrev start : Pass
start = record { evidence = no_evidence; validated_carriages = []; refreshes = [] }

module _ (h : Hasher) (validator : ChainValidator) (authority : AuthorityVerifier) where
  -- A validated certificate adds its record and its carriage.
  pub add_certificate : Pass → Certificate → Digest → Pass
  add_certificate p c hash = elim (validate_record validator authority c hash) [
    | err _ ↦ p
    | ok binding ↦ record p {
      evidence = record p.evidence { records = p.evidence.records ++ binding ∷ [] };
      validated_carriages =
          p.validated_carriages
          ++ record {
            hostname = binding.hostname;
            document = binding.document;
            carriage = c.delegation_chain;
          }
            ∷ [];
    }
  ]

  -- The body of the first pass, after the item's hash is entered as held.
  pub take_item : Pass → Item → Pass
  unfolding extract_carried add_certificate extract_rotation extract_successor
  take_item p (record_item c) =
      add_certificate (record p { evidence = extract_carried authority p.evidence c }) c
        (content_hash h (record_item c))
  take_item p (chain_refresh hostname chain) = record p {
    refreshes =
        p.refreshes
        ++ record {
          hostname = hostname;
          chain = chain;
          hash = content_hash h (chain_refresh hostname chain);
        }
          ∷ [];
  }
  take_item p (rotation st) = record p { evidence = extract_rotation authority none p.evidence st }
  take_item p (successor st) = record p {
    evidence = extract_successor authority none p.evidence st;
  }

  pub first_pass : Pass → List Item → Pass
  unfolding take_item
  first_pass p [] = p
  first_pass p (item ∷ items) =
      first_pass
        (take_item
          (record p {
            evidence = record p.evidence { held = content_hash h item ∷ p.evidence.held };
          })
          item)
        items

  -- Whether some validated certificate for the same binding puts a generation on its path.
  pub refresh_on_path : List ValidatedCarriage → DnsName → DocAnchor → ℕ → Bool
  refresh_on_path carriages hostname document generation =
      any (λ c. authority.on_path c.carriage generation)
        (filter (λ c. c.hostname == hostname && c.document == document) carriages)

  -- One row for each document that the refreshed record set names.
  refresh_rows :
      List ValidatedCarriage → PendingRefresh → ChainProof → List DocAnchor → List BindingEvidence
  unfolding refresh_on_path
  refresh_rows carriages refresh proof [] = []
  refresh_rows carriages refresh proof (document ∷ documents) =
      let rest = refresh_rows carriages refresh proof documents in
      elim (zone_word document proof.records) [
        | none ↦ rest
        | some r ↦
            record {
              attestation = Attestation.chain_only;
              document = document;
              generation = r.generation;
              hash = refresh.hash;
              hostname = refresh.hostname;
              key = record {
                window_end = proof.window.expiration;
                serial = r.serial;
                issued_at = 0;
              };
              generation_on_path = refresh_on_path carriages refresh.hostname document r.generation;
              window = proof.window;
            }
            ∷ rest
      ]

  pub take_refresh : List ValidatedCarriage → Evidence → PendingRefresh → Evidence
  unfolding refresh_rows
  take_refresh carriages e refresh = elim (validator.validate refresh.hostname refresh.chain) [
    | none ↦ e
    | some proof ↦ record e {
      records =
          e.records
          ++ refresh_rows carriages refresh proof
              (sorted_documents (map (λ (r : TxtRecord). r.document) proof.records));
    }
  ]

  pub second_pass : List ValidatedCarriage → Evidence → List PendingRefresh → Evidence
  unfolding take_refresh
  second_pass carriages e [] = e
  second_pass carriages e (refresh ∷ refreshes) =
      second_pass carriages (take_refresh carriages e refresh) refreshes

  -- `validate_and_extract`
  unfoldable pub validate_and_extract : Store → Evidence
  unfolding first_pass second_pass
  validate_and_extract store =
      let p = first_pass start store.items in
      second_pass p.validated_carriages p.evidence p.refreshes
