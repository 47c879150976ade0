-- ===== src/Verifier/Evidence/Sound.antt =====
-- What one record of evidence stands on: `validate_record` and `is_deferred` of state.rs.
use onomancy.Prelude.{
  ℕ, ◌≤◌, List, true, false, Option, none, some, ◌==◌, filter, ◌≡◌, refl, In, In-filter, filter-In,
  eqb→eq, eqb_refl, arith, Bool-cases, inl, inr, subst,
}
use onomancy.Prelude.Result.{ok, err}
use onomancy.Prelude.Lex.{lexb}
use onomancy.Prelude.Extremes.{max_by_key-some, max_by_key-none}
use onomancy.Core.{Digest, UnixSeconds}
use onomancy.Dnssec.Units.{Certificate, ChainProof, ChainValidator, AuthorityVerifier, TxtRecord}
use onomancy.Verifier.Evidence.{BindingEvidence, certificate, is_deferred}
use onomancy.Verifier.Evidence.Validate.{unattested, serial_key, zone_word, validate_record}

-- `t` names the document and has the highest serial among the records that do.
pub record IsZoneWord (document : ℕ) (records : List TxtRecord) (t : TxtRecord) : Type 0 where
  pub held : In t records
  pub names : t.document ≡ document
  pub highest : (u : TxtRecord) → In u records → u.document ≡ document → u.serial ≤ t.serial

serial_le : (a b : TxtRecord) → lexb (serial_key a) (serial_key b) ≡ true → a.serial ≤ b.serial
serial_le a b h = ground arith

pub zone_word-some :
    (document : ℕ) (records : List TxtRecord) (t : TxtRecord)
    → zone_word document records ≡ some t
    → IsZoneWord document records t
unfolding zone_word
zone_word-some document records t h =
    let names = λ (r : TxtRecord). r.document == document in
    let top = max_by_key-some serial_key (filter names records) t h in
    let here = In-filter names t records top.0 in
    record {
      held = here.0;
      names = eqb→eq t.document document here.1;
      highest =
          λ u m e. serial_le u t (top.1 u (filter-In names u records m (rw e (eqb_refl document))));
    }

pub zone_word-none :
    (document : ℕ) (records : List TxtRecord)
    → zone_word document records ≡ none
    → (t : TxtRecord) → In t records
    → ¬ (t.document ≡ document)
unfolding zone_word
zone_word-none document records h t m e =
    let names = λ (r : TxtRecord). r.document == document in
    let void = max_by_key-none serial_key (filter names records) h in
    let here = filter-In names t records m (rw e (eqb_refl document)) in
    elim (subst (λ l. In t l) void here) [ ]

module _ (v : ChainValidator) (a : AuthorityVerifier) (c : Certificate) (hash : Digest) where
  -- What a binding record that came from a certificate says, and what was checked for it.
  pub record IsBinding (proof : ChainProof) (t : TxtRecord) (r : BindingEvidence) : Type 0 where
    pub proven : v.validate c.hostname c.dnssec_chain ≡ some proof
    pub authorized : a.authorizes c.root_doc c.signer c.delegation_chain ≡ true
    pub word : IsZoneWord c.root_doc proof.records t
    pub attestation : r.attestation ≡ certificate
    pub document : r.document ≡ c.root_doc
    pub generation : r.generation ≡ t.generation
    pub hash_eq : r.hash ≡ hash
    pub hostname : r.hostname ≡ c.hostname
    pub window_end : r.key.window_end ≡ proof.window.expiration
    pub serial : r.key.serial ≡ t.serial
    pub issued_at : r.key.issued_at ≡ c.issued_at
    pub on_path : r.generation_on_path ≡ a.on_path c.delegation_chain t.generation
    pub window : r.window ≡ proof.window

  -- A certificate becomes a binding record only with a proven chain, an authorized signer and a
  -- proven TXT record for its own document, and the record is the one with the highest serial.
  pub validate_record-ok :
      (r : BindingEvidence)
      → validate_record v a c hash ≡ ok r
      → (proof : ChainProof) × (t : TxtRecord) × IsBinding proof t r
  unfolding validate_record
  validate_record-ok r h = by_chain (v.validate c.hostname c.dnssec_chain) refl h
    where
      finish :
          (proof : ChainProof)
          → v.validate c.hostname c.dnssec_chain ≡ some proof
          → a.authorizes c.root_doc c.signer c.delegation_chain ≡ true
          → (o : Option TxtRecord) → zone_word c.root_doc proof.records ≡ o
          → (elim o [
            | none ↦ err unattested
            | some t ↦ ok (record {
              attestation = certificate;
              document = c.root_doc;
              generation = t.generation;
              hash = hash;
              hostname = c.hostname;
              key = record {
                window_end = proof.window.expiration;
                serial = t.serial;
                issued_at = c.issued_at;
              };
              generation_on_path = a.on_path c.delegation_chain t.generation;
              window = proof.window;
            })
          ])
            ≡ ok r
          → (p : ChainProof) × (t : TxtRecord) × IsBinding p t r
      finish proof e g none w k = cc k
      finish proof e g (some t) w k = (
        proof,
        t,
        record {
          proven = e;
          authorized = g;
          word = zone_word-some c.root_doc proof.records t w;
          attestation = ground arith;
          document = ground arith;
          generation = ground arith;
          hash_eq = ground arith;
          hostname = ground arith;
          window_end = ground arith;
          serial = ground arith;
          issued_at = ground arith;
          on_path = ground arith;
          window = ground arith;
        },
      )

      by_chain :
          (o : Option ChainProof)
          → v.validate c.hostname c.dnssec_chain ≡ o
          → validate_record v a c hash ≡ ok r
          → (p : ChainProof) × (t : TxtRecord) × IsBinding p t r
      by_chain none e k = ground arith
      by_chain (some proof) e k =
          elim (Bool-cases (a.authorizes c.root_doc c.signer c.delegation_chain)) [
            | inl g ↦
                finish proof e g (zone_word c.root_doc proof.records) refl
                  (rw g at (rw (e, validate_record) at k))
            | inr g ↦ ground arith
          ]

-- A record that is considered at some clock reading is considered at every later one.
pub is_deferred_mono :
    (r : BindingEvidence) (now later : UnixSeconds)
    → now ≤ later
    → is_deferred r now ≡ false
    → is_deferred r later ≡ false
unfolding is_deferred
is_deferred_mono r now later le h = ground arith
