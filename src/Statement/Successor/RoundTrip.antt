-- ===== src/Statement/Successor/RoundTrip.antt =====
-- Successor statements read back as they were written, and every one that is signed is read:
-- onomancy_dnssec/src/statement/successor.rs.
use onomancy.Prelude.{
  ◌≤◌, ◌<◌, ◌≡◌, ◌↔◌, ◌⊎◌, inl, inr, refl, sym, ap, ◌∙◌, subst, false, ltb, ltb→lt, Bool-cases,
  arith, ◌++◌, length,
}
use onomancy.Prelude.Result.{ok, err, map_err, bind-ok, after-ok, map_err-ok, ok-injective}
use onomancy.Core.{Bytes, Digest, DelegationChain}
use onomancy.Wire.{
  Varint, max_unit_bytes, new_reader, finish, check_unit_len, put_varint, bounded_len, read_bytes,
}
use onomancy.Wire.Laws.{
  IsVarint, IsCodec, length_right, read_bytes-append, counted_bytes-ok, counted_bytes-append,
}
use onomancy.Wire.Split.{append_assoc}
use onomancy.Keys.{Ed25519, IsKey, IsSigner}
use onomancy.Signed.{Malformed, Payload, Signed}
use onomancy.Signed.RoundTrip.{
  IsPayload, IsSigned, read_key-IsCodec, read_key-append, signed_of, sign-signed_of,
  signed_of-IsSigned,
}
use onomancy.Signed.Unit.{unit_bytes, unit-ok, unit-append}
use onomancy.Names.{from_canonical}
use onomancy.Names.Canonical.{IsName, from_canonical_iff}
use onomancy.Statement.{SignFailure}
use onomancy.Statement.Successor.{
  FieldName, Succession, SuccessorStatement, predecessor_doc_field, successor_doc_field,
  signer_field, hostname_error, wire, not_a_curve_point, read_key, encode_fields, decode_fields,
  succession_payload, decode, encode, sign,
}

-- The three keys are canonical, and so is the hostname.
unfoldable pub IsSuccession : Ed25519 → Succession → Type 0
IsSuccession e s =
    IsKey e s.predecessor_doc × (IsKey e s.successor_doc × (IsKey e s.signer × IsName s.hostname))

module _ (v : Varint) (varint : IsVarint v) (e : Ed25519) where
  key_codec : (field : FieldName) → IsCodec (read_key e field) (λ key. key) (IsKey e)
  unfolding read_key
  key_codec field = read_key-IsCodec e wire (not_a_curve_point field)

  encode_fields-parts :
      (s : Succession) (rest : Bytes)
      → encode_fields v e s ++ rest
        ≡ s.predecessor_doc
          ++ (s.successor_doc
              ++ (s.signer ++ (put_varint v (length s.hostname) ++ (s.hostname ++ rest))))
  unfolding encode_fields
  encode_fields-parts s rest = simp (append_assoc)

  fields-ok :
      (bs : Bytes) (s : Succession) (rest : Bytes)
      → decode_fields v e bs ≡ ok (s, rest)
      → IsSuccession e s × (bs ≡ encode_fields v e s ++ rest)
  unfolding decode_fields IsSuccession
  fields-ok bs s rest h =
      after-ok (read_key e predecessor_doc_field bs) _ (s, rest) h
        (λ a pa k.
          after-ok (read_key e successor_doc_field a.1) _ (s, rest) k
            (λ b pb k.
              after-ok (read_key e signer_field b.1) _ (s, rest) k
                (λ c pc k.
                  after-ok (map_err wire (bounded_len v 1 c.1)) _ (s, rest) k
                    (λ l pl k.
                      after-ok (map_err wire (read_bytes l.0 l.1)) _ (s, rest) k
                        (λ r pr k.
                          after-ok (map_err hostname_error (from_canonical r.0)) _ (s, rest) k
                            (λ n pn q.
                              let (va, ea) =
                                (key_codec predecessor_doc_field).sound bs a.0 a.1 pa in
                              let (vb, eb) = (key_codec successor_doc_field).sound a.1 b.0 b.1 pb in
                              let (vc, ec) = (key_codec signer_field).sound b.1 c.0 c.1 pc in
                              let (_, el) =
                                counted_bytes-ok v varint c.1 l.0 l.1 r.0 r.1 (map_err-ok _ _ _ pl)
                                  (map_err-ok _ _ _ pr) in
                              let (same, name) =
                                (from_canonical_iff r.0 n).0 (map_err-ok _ _ _ pn) in
                              let named : c.1 ≡ put_varint v (length n) ++ (n ++ r.1) =
                                subst (λ z. c.1 ≡ put_varint v (length z) ++ (z ++ r.1)) (sym same)
                                  el in
                              let all : bs
                                  ≡ a.0
                                    ++ (b.0 ++ (c.0 ++ (put_varint v (length n) ++ (n ++ r.1)))) =
                                ea
                                ∙ ap (λ z. a.0 ++ z)
                                    (eb ∙ ap (λ z. b.0 ++ z) (ec ∙ ap (λ z. c.0 ++ z) named)) in
                              subst
                                (λ (z : Succession × Bytes).
                                  IsSuccession e z.0 × (bs ≡ encode_fields v e z.0 ++ z.1))
                                (ok-injective _ _ q)
                                (
                                  (va, (vb, (vc, subst IsName (sym same) name))),
                                  all
                                      ∙ sym (
                                          encode_fields-parts
                                            (record {
                                              predecessor_doc = a.0;
                                              successor_doc = b.0;
                                              signer = c.0;
                                              hostname = n;
                                            })
                                            r.1),
                                )))))))

  fields-append :
      (s : Succession) (rest : Bytes)
      → IsSuccession e s
      → length (encode_fields v e s ++ rest) ≤ max_unit_bytes
      → decode_fields v e (encode_fields v e s ++ rest) ≡ ok (s, rest)
  unfolding decode_fields IsSuccession read_key
  fields-append s rest (a, (b, (c, n))) small =
      rw
        (
          encode_fields-parts s rest,
          read_key-append e wire (not_a_curve_point predecessor_doc_field) s.predecessor_doc _ a,
          read_key-append e wire (not_a_curve_point successor_doc_field) s.successor_doc _ b,
          read_key-append e wire (not_a_curve_point signer_field) s.signer _ c,
          counted_bytes-append v varint s.hostname rest fits,
          read_bytes-append s.hostname rest,
          (from_canonical_iff s.hostname s.hostname).1 (refl, n),
        )
        refl
    where
      fits : length (s.hostname ++ rest) ≤ max_unit_bytes
      fits = length_right (put_varint v (length s.hostname)) _ max_unit_bytes (
          length_right s.signer _ max_unit_bytes (
            length_right s.successor_doc _ max_unit_bytes (
              length_right s.predecessor_doc _ max_unit_bytes
                (subst (λ z. length z ≤ max_unit_bytes) (encode_fields-parts s rest) small))))

  pub succession_payload-IsPayload : IsPayload (succession_payload v e) (IsSuccession e)
  unfolding succession_payload
  succession_payload-IsPayload = record {
    tag_length = refl;
    fields = record {
      sound = fields-ok;
      complete = λ s rest valid small. fields-append s rest valid small;
    };
  }

module _ (v : Varint) (e : Ed25519) (hash : Bytes → Digest) where
  -- The statement that the signing key makes.
  unfoldable pub signed_statement :
      (predecessor_doc successor_doc hostname signer : Bytes) → DelegationChain → SuccessorStatement
  unfolding signed_of succession_payload encode
  signed_statement predecessor_doc successor_doc hostname signer authority =
      let signed =
        signed_of e (succession_payload v e)
          (record {
            predecessor_doc = predecessor_doc;
            successor_doc = successor_doc;
            signer = e.verifying_key signer;
            hostname = hostname;
          })
          signer in
      record {
        digest = hash (unit_bytes v (succession_payload v e) signed authority);
        signed = signed;
        authority = authority;
      }

  -- A statement as its decoder holds it: canonical keys, a signature that verifies, and the digest
  -- of its bytes.
  unfoldable pub IsSuccessorStatement : SuccessorStatement → Type 0
  IsSuccessorStatement s =
      IsSigned e (succession_payload v e) (IsSuccession e) s.signed
      × (s.digest ≡ hash (encode v e hash s))

module _ (v : Varint) (varint : IsVarint v) (e : Ed25519) (hash : Bytes → Digest) where
  -- Bytes of at most 1 MiB decode to a successor statement exactly when they are its encoding, its
  -- keys and its hostname are canonical, its signature verifies under its signer's key over its tag
  -- and fields, and its digest is that of the bytes.
  pub successor-decode_iff :
      (bs : Bytes) (s : SuccessorStatement)
      → (decode v e hash bs ≡ ok s) ↔ (
          (length bs ≤ max_unit_bytes)
          × ((bs ≡ encode v e hash s) × IsSuccessorStatement v e hash s))
  unfolding decode encode IsSuccessorStatement unit_bytes finish
  successor-decode_iff bs s = (forth, back)
    where
      forth :
          decode v e hash bs ≡ ok s
          → (length bs ≤ max_unit_bytes)
            × ((bs ≡ encode v e hash s) × IsSuccessorStatement v e hash s)
      forth h =
          let (reader, n, k) = bind-ok (map_err wire (new_reader bs)) _ s h in
          let (d, pd, k1) =
            bind-ok (onomancy.Signed.decode_from e (succession_payload v e) bs reader) _ s k in
          let (a, pa, k2) =
            bind-ok (map_err wire (onomancy.Carriage.Delegations.decode v d.1)) _ s k1 in
          let (done, f, q) = bind-ok (map_err wire (finish a.1)) _ s k2 in
          let (small, (signed, at)) =
            unit-ok v varint e (succession_payload v e) _ (succession_payload-IsPayload v varint e)
              bs reader d.0 d.1 a.0 a.1 done (map_err-ok _ _ _ n) pd (map_err-ok _ _ _ pa)
              (map_err-ok _ _ _ f) in
          subst
            (λ (z : SuccessorStatement).
              (length bs ≤ max_unit_bytes)
              × ((bs ≡ encode v e hash z) × IsSuccessorStatement v e hash z))
            (ok-injective _ _ q) (small, (at, (signed, ap hash at)))

      back :
          (length bs ≤ max_unit_bytes)
            × ((bs ≡ encode v e hash s) × IsSuccessorStatement v e hash s)
          → decode v e hash bs ≡ ok s
      back (small, (at, (signed, digest))) =
          let (n, (d, a)) =
            unit-append v varint e (succession_payload v e) _
              (succession_payload-IsPayload v varint e) s.signed s.authority signed
              (subst (λ z. length z ≤ max_unit_bytes) at small) in
          subst (λ z. decode v e hash z ≡ ok s) (sym at)
            (rw (n, d, a)
              (ap (λ z. ok (record { digest = z; signed = s.signed; authority = s.authority }))
                (sym digest)))

  -- Signing for canonical keys and a canonical hostname returns a statement over them and the given
  -- carriage that decodes back from its encoding, or else reports that the encoding is over 1 MiB; it never panics.
  pub successor-sign_decode :
      (predecessor_doc successor_doc hostname signer : Bytes) (authority : DelegationChain)
      → IsKey e predecessor_doc
      → IsKey e successor_doc
      → IsSigner e signer
      → IsName hostname
      → ((sign v e hash predecessor_doc successor_doc hostname signer authority
            ≡ ok
                (signed_statement v e hash predecessor_doc successor_doc hostname signer authority))
          × (decode v e hash (
                encode v e hash (
                  signed_statement v e hash predecessor_doc successor_doc hostname signer
                    authority))
              ≡ ok (
                  signed_statement v e hash predecessor_doc successor_doc hostname signer
                    authority)))
        ⊎ ((max_unit_bytes
              < length (
                  encode v e hash (
                    signed_statement v e hash predecessor_doc successor_doc hostname signer
                      authority)))
            × (sign v e hash predecessor_doc successor_doc hostname signer authority
                ≡ err (
                    SignFailure.oversize (record {
                      len = length (
                          encode v e hash (
                            signed_statement v e hash predecessor_doc successor_doc hostname signer
                              authority));
                    }))))
  unfolding sign encode signed_statement unit_bytes check_unit_len IsSuccession IsSuccessorStatement
      succession_payload
  successor-sign_decode predecessor_doc successor_doc hostname signer authority a b c n =
      elim (Bool-cases (ltb max_unit_bytes (length (encode v e hash made)))) [
        | inl over ↦ inr (ltb→lt _ _ over, rw (signed, over) refl)
        | inr fits ↦ inl (
          rw (signed, fits) refl,
          (successor-decode_iff (encode v e hash made) made).1 (small fits, (refl, (valid, refl))),
        )
      ]
    where
      made : SuccessorStatement
      made = signed_statement v e hash predecessor_doc successor_doc hostname signer authority

      payload : Succession
      payload = record {
        predecessor_doc = predecessor_doc;
        successor_doc = successor_doc;
        signer = e.verifying_key signer;
        hostname = hostname;
      }

      signed :
          onomancy.Signed.sign e (succession_payload v e) payload signer
          ≡ ok (signed_of e (succession_payload v e) payload signer)
      signed = sign-signed_of e (succession_payload v e) payload signer c refl

      valid : IsSigned e (succession_payload v e) (IsSuccession e) made.signed
      valid =
          signed_of-IsSigned e (succession_payload v e) (IsSuccession e) payload signer
            (a, (b, (c.names_key, n))) c refl

      small :
          ltb max_unit_bytes (length (encode v e hash made)) ≡ false
          → length (encode v e hash made) ≤ max_unit_bytes
      small h = ground arith

  -- An encoding is not empty: its tag leads it.
  pub length-encode :
      (s : SuccessorStatement) → IsSuccessorStatement v e hash s → 1 ≤ length (encode v e hash s)
  unfolding encode succession_payload onomancy.Signed.encode_into
  length-encode s h = omega arith
