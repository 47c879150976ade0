-- ===== src/Certificate/RoundTrip.antt =====
-- Certificates read back as they were written, and every one that is signed, assembled or refreshed is
-- read: certificate.rs.
use onomancy.Prelude.{◌≤◌, ◌≡◌, ◌↔◌, refl, sym, ap, ◌∙◌, subst, Bool, List, ◌++◌, length}
use onomancy.Prelude.Result.{ok, map_err, after-ok, map_err-ok, ok-injective}
use onomancy.Core.{Bytes, Digest, DelegationChain}
use onomancy.Dnssec.Units.{DnssecChain}
use onomancy.Wire.{Varint, max_unit_bytes, new_reader, finish, put_varint}
use onomancy.Wire.Laws.{
  IsVarint, length_right, new_reader-ok, new_reader-fits, finish-ok, whole-append,
}
use onomancy.Wire.Split.{append_nil}
use onomancy.Carriage.RoundTrip.{decode-IsCodec, read-IsCodec}
use onomancy.Keys.{Ed25519}
use onomancy.Signed.{Signed, Malformed, signable_region}
use onomancy.Signed.RoundTrip.{IsSigned, decode_from-IsCodec}
use onomancy.Statement.Rotation.{RotationStatement}
use onomancy.Certificate.{wire, read_lineage, write_lineage, encode_attached}
use onomancy.Certificate.Binding.{Binding, binding_payload}
use onomancy.Certificate.Lineage.{IsLineage, read_lineage-IsCodec}
use onomancy.Certificate.Fields.{IsBinding, binding_payload-IsPayload}
use onomancy.Certificate.Issue.{Certificate, decode, unit_bytes, encode, assemble}

module _ (v : Varint) (e : Ed25519) (hash : Bytes → Digest) where
  -- A certificate as its decoder holds it: canonical fields under a signature that verifies, a
  -- lineage of statements as their decoder holds them, and the digest of its bytes.
  unfoldable pub IsCertificate : Certificate → Type 0
  IsCertificate c =
      IsSigned e (binding_payload v e hash) (IsBinding v e hash) c.signed
      × (IsLineage v e hash c.lineage × (c.digest ≡ hash (encode v e hash c)))

module _ (v : Varint) (varint : IsVarint v) (e : Ed25519) (hash : Bytes → Digest) where
  -- What the reads of a unit establish.
  unit_bytes-ok :
      (bs reader : Bytes) (s : Signed Binding) (r1 : Bytes) (d : DelegationChain) (r2 : Bytes)
      (l : List RotationStatement) (r3 : Bytes) (c : DnssecChain) (r4 : Bytes) (done : Bool)
      → new_reader bs ≡ ok reader
      → onomancy.Signed.decode_from e (binding_payload v e hash) bs reader ≡ ok (s, r1)
      → onomancy.Carriage.Delegations.decode v r1 ≡ ok (d, r2)
      → read_lineage v e hash r2 ≡ ok (l, r3)
      → onomancy.Carriage.Links.read v r3 ≡ ok (c, r4)
      → finish r4 ≡ ok done
      → (length bs ≤ max_unit_bytes)
        × ((bs ≡ unit_bytes v e hash s d l c)
            × (IsSigned e (binding_payload v e hash) (IsBinding v e hash) s × IsLineage v e hash l))
  unfolding unit_bytes encode_attached
  unit_bytes-ok bs reader s r1 d r2 l r3 c r4 done pn ps pd pl pc pf =
      let (same, small) = new_reader-ok bs reader pn in
      let (signed, at) =
        (decode_from-IsCodec e (binding_payload v e hash) _
            (binding_payload-IsPayload v varint e hash)).sound
          bs s r1
          (subst (λ z. onomancy.Signed.decode_from e (binding_payload v e hash) bs z ≡ ok (s, r1))
            same ps) in
      let (_, atd) = (decode-IsCodec v varint).sound r1 d r2 pd in
      let (lineage, atl) = (read_lineage-IsCodec v varint e hash).sound r2 l r3 pl in
      let (_, atc) = (read-IsCodec v varint).sound r3 c r4 pc in
      let links = onomancy.Carriage.Links.write_framed_chain v c in
      let end : r3 ≡ links = atc ∙ ap (λ z. links ++ z) (finish-ok r4 done pf) ∙ append_nil links in
      let tail : r1
          ≡ onomancy.Carriage.Delegations.encode_into v d
            ++ ((put_varint v (length l) ++ write_lineage v e hash l) ++ links) =
        atd
        ∙ ap (λ z. onomancy.Carriage.Delegations.encode_into v d ++ z)
            (atl ∙ ap (λ z. (put_varint v (length l) ++ write_lineage v e hash l) ++ z) end) in
      (
        small,
        (
          at ∙ ap (λ z. onomancy.Signed.encode_into (binding_payload v e hash) s ++ z) tail,
          (signed, lineage),
        ),
      )

  -- The reads of a unit that was written.
  unit_bytes-append :
      (s : Signed Binding) (d : DelegationChain) (l : List RotationStatement) (c : DnssecChain)
      → IsSigned e (binding_payload v e hash) (IsBinding v e hash) s
      → IsLineage v e hash l
      → length (unit_bytes v e hash s d l c) ≤ max_unit_bytes
      → decode v e hash (unit_bytes v e hash s d l c) ≡ ok (assemble v e hash s d l c)
  unfolding decode unit_bytes encode_attached assemble finish
  unit_bytes-append s d l c signed lineage small =
      rw
        (
          new_reader-fits _ small,
          (decode_from-IsCodec e (binding_payload v e hash) _
                (binding_payload-IsPayload v varint e hash)).complete
              s _ signed small,
          (decode-IsCodec v varint).complete d _ tt attached_fits,
          (read_lineage-IsCodec v varint e hash).complete l _ lineage lineage_fits,
          whole-append (onomancy.Carriage.Links.read v)
              (onomancy.Carriage.Links.write_framed_chain v) _ (read-IsCodec v varint) c tt
              (length_right (put_varint v (length l) ++ write_lineage v e hash l) _ max_unit_bytes
                lineage_fits),
        )
        refl
    where
      links : Bytes
      links = onomancy.Carriage.Links.write_framed_chain v c

      attached_fits :
          length (
            onomancy.Carriage.Delegations.encode_into v d
            ++ ((put_varint v (length l) ++ write_lineage v e hash l) ++ links))
          ≤ max_unit_bytes
      attached_fits =
          length_right (onomancy.Signed.encode_into (binding_payload v e hash) s) _ max_unit_bytes
            small

      lineage_fits :
          length ((put_varint v (length l) ++ write_lineage v e hash l) ++ links) ≤ max_unit_bytes
      lineage_fits =
          length_right (onomancy.Carriage.Delegations.encode_into v d) _ max_unit_bytes
            attached_fits

  -- Bytes of at most 1 MiB decode to a certificate exactly when they are its encoding, its fields are
  -- canonical with strictly ascending heads, its signature verifies under its signer over its tag and
  -- fields, its nested statements are as their own decoders hold them, and its digest is that of the
  -- bytes.
  pub certificate-decode_iff :
      (bs : Bytes) (c : Certificate)
      → (decode v e hash bs ≡ ok c)
        ↔ ((length bs ≤ max_unit_bytes) × ((bs ≡ encode v e hash c) × IsCertificate v e hash c))
  unfolding encode IsCertificate assemble decode
  certificate-decode_iff bs c = (forth, back)
    where
      Held : Certificate → Type 0
      Held c = (length bs ≤ max_unit_bytes) × ((bs ≡ encode v e hash c) × IsCertificate v e hash c)

      forth : decode v e hash bs ≡ ok c → Held c
      forth h = after-ok (map_err wire (new_reader bs)) _ c h (λ reader pn k.
          after-ok (onomancy.Signed.decode_from e (binding_payload v e hash) bs reader) _ c k
            (λ s ps k.
              after-ok (map_err wire (onomancy.Carriage.Delegations.decode v s.1)) _ c k (λ d pd k.
                after-ok (read_lineage v e hash d.1) _ c k (λ l pl k.
                  after-ok (map_err wire (onomancy.Carriage.Links.read v l.1)) _ c k (λ t pt k.
                    after-ok (map_err wire (finish t.1)) _ c k (λ done pf q.
                      let (small, (at, (signed, lineage))) =
                        unit_bytes-ok bs reader s.0 s.1 d.0 d.1 l.0 l.1 t.0 t.1 done
                          (map_err-ok _ _ _ pn) ps (map_err-ok _ _ _ pd) pl (map_err-ok _ _ _ pt)
                          (map_err-ok _ _ _ pf) in
                      subst Held (ok-injective _ _ q)
                        (small, (at, (signed, (lineage, ap hash at))))))))))

      back : Held c → decode v e hash bs ≡ ok c
      back (small, (at, (signed, (lineage, digest)))) =
          subst (λ z. decode v e hash z ≡ ok c) (sym at)
            (unit_bytes-append c.signed c.delegation_chain c.lineage c.chain signed lineage
                (subst (λ z. length z ≤ max_unit_bytes) at small)
              ∙ ap
                  (λ z. ok (record {
                    digest = z;
                    signed = c.signed;
                    delegation_chain = c.delegation_chain;
                    lineage = c.lineage;
                    chain = c.chain;
                  }))
                  (sym digest))
