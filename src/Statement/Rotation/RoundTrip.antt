-- ===== src/Statement/Rotation/RoundTrip.antt =====
-- Rotation statements read back as they were written, and every one that is signed is read:
-- onomancy_dnssec/src/statement/rotation.rs.
use onomancy.Prelude.{
  length-append, ◌≤◌, ◌<◌, ◌≡◌, ◌↔◌, ◌⊎◌, inl, inr, refl, sym, ap, ◌∙◌, subst, false, ltb, ltb→lt,
  Bool-cases, arith, ◌++◌, length,
}
use onomancy.Prelude.Result.{ok, err, map_err, bind-ok, map_err-ok, ok-injective}
use onomancy.Core.{Bytes, Digest, DelegationChain}
use onomancy.Wire.{Varint, max_unit_bytes, new_reader, finish, check_unit_len}
use onomancy.Wire.Laws.{IsVarint, IsCodec}
use onomancy.Wire.Split.{append_assoc}
use onomancy.Keys.{Ed25519, IsKey, IsSigner}
use onomancy.Signed.{Malformed, Payload, Signed}
use onomancy.Signed.RoundTrip.{
  IsPayload, IsSigned, read_key-IsCodec, read_key-append, signed_of, sign-signed_of,
  signed_of-IsSigned,
}
use onomancy.Signed.Unit.{unit_bytes, unit-ok, unit-append}
use onomancy.Statement.{SignFailure}
use onomancy.Carriage.RoundTrip.{length-encode_into}
use onomancy.Statement.Rotation.{
  tag, FieldName, Rotation, RotationStatement, root_doc_field, replaced_field, successor_field,
  wire, not_a_curve_point, read_key, encode_fields, decode_fields, rotation_payload, decode, encode,
  sign,
}

-- The three keys are canonical.
unfoldable pub IsRotation : Ed25519 → Rotation → Type 0
IsRotation e r = IsKey e r.root_doc × (IsKey e r.replaced × IsKey e r.successor)

module _ (e : Ed25519) where
  key_codec : (field : FieldName) → IsCodec (read_key e field) (λ key. key) (IsKey e)
  unfolding read_key
  key_codec field = read_key-IsCodec e wire (not_a_curve_point field)

  fields-ok :
      (bs : Bytes) (r : Rotation) (rest : Bytes)
      → decode_fields e bs ≡ ok (r, rest)
      → IsRotation e r × (bs ≡ encode_fields r ++ rest)
  unfolding decode_fields encode_fields IsRotation
  fields-ok bs r rest h =
      let (a, pa, k) = bind-ok (read_key e root_doc_field bs) _ (r, rest) h in
      let (b, pb, k1) = bind-ok (read_key e replaced_field a.1) _ (r, rest) k in
      let (c, pc, q) = bind-ok (read_key e successor_field b.1) _ (r, rest) k1 in
      let (va, ea) = (key_codec root_doc_field).sound bs a.0 a.1 pa in
      let (vb, eb) = (key_codec replaced_field).sound a.1 b.0 b.1 pb in
      let (vc, ec) = (key_codec successor_field).sound b.1 c.0 c.1 pc in
      let at =
        ea
        ∙ ap (λ z. a.0 ++ z) (eb ∙ ap (λ z. b.0 ++ z) ec ∙ sym (append_assoc b.0 c.0 c.1))
        ∙ sym (append_assoc a.0 (b.0 ++ c.0) c.1) in
      subst (λ (z : Rotation × Bytes). IsRotation e z.0 × (bs ≡ encode_fields z.0 ++ z.1))
        (ok-injective _ _ q) ((va, (vb, vc)), at)

  fields-append :
      (r : Rotation) (rest : Bytes)
      → IsRotation e r
      → decode_fields e (encode_fields r ++ rest) ≡ ok (r, rest)
  unfolding decode_fields encode_fields IsRotation read_key
  fields-append r rest (a, (b, c)) =
      rw
        (
          append_assoc r.root_doc (r.replaced ++ r.successor) rest,
          append_assoc r.replaced r.successor rest,
          read_key-append e wire (not_a_curve_point root_doc_field) r.root_doc
              (r.replaced ++ (r.successor ++ rest)) a,
          read_key-append e wire (not_a_curve_point replaced_field) r.replaced (r.successor ++ rest)
              b,
          read_key-append e wire (not_a_curve_point successor_field) r.successor rest c,
        )
        refl

  pub rotation_payload-IsPayload : IsPayload (rotation_payload e) (IsRotation e)
  unfolding rotation_payload
  rotation_payload-IsPayload = record {
    tag_length = refl;
    fields = record { sound = fields-ok; complete = λ r rest valid _. fields-append r rest valid };
  }

module _ (v : Varint) (e : Ed25519) (hash : Bytes → Digest) where
  -- The statement that the successor's signing key makes.
  unfoldable pub signed_statement :
      (root_doc replaced successor : Bytes) → DelegationChain → RotationStatement
  unfolding signed_of rotation_payload encode
  signed_statement root_doc replaced successor authority =
      let signed =
        signed_of e (rotation_payload e)
          (record {
            root_doc = root_doc;
            replaced = replaced;
            successor = e.verifying_key successor;
          })
          successor in
      record {
        digest = hash (unit_bytes v (rotation_payload e) signed authority);
        signed = signed;
        authority = authority;
      }

  -- A statement as its decoder holds it: canonical keys, a signature that verifies, and the digest
  -- of its bytes.
  unfoldable pub IsRotationStatement : RotationStatement → Type 0
  IsRotationStatement s =
      IsSigned e (rotation_payload e) (IsRotation e) s.signed
      × (s.digest ≡ hash (encode v e hash s))

module _ (v : Varint) (varint : IsVarint v) (e : Ed25519) (hash : Bytes → Digest) where
  -- Bytes of at most 1 MiB decode to a rotation statement exactly when they are its encoding, its
  -- keys are canonical, its signature verifies under its successor key over its tag and keys, and
  -- its digest is that of the bytes.
  pub rotation-decode_iff :
      (bs : Bytes) (s : RotationStatement)
      → (decode v e hash bs ≡ ok s) ↔ (
          (length bs ≤ max_unit_bytes)
          × ((bs ≡ encode v e hash s) × IsRotationStatement v e hash s))
  unfolding decode encode IsRotationStatement unit_bytes finish
  rotation-decode_iff bs s = (forth, back)
    where
      forth :
          decode v e hash bs ≡ ok s
          → (length bs ≤ max_unit_bytes)
            × ((bs ≡ encode v e hash s) × IsRotationStatement v e hash s)
      forth h =
          let (reader, n, k) = bind-ok (map_err wire (new_reader bs)) _ s h in
          let (d, pd, k1) =
            bind-ok (onomancy.Signed.decode_from e (rotation_payload e) bs reader) _ s k in
          let (a, pa, k2) =
            bind-ok (map_err wire (onomancy.Carriage.Delegations.decode v d.1)) _ s k1 in
          let (done, f, q) = bind-ok (map_err wire (finish a.1)) _ s k2 in
          let (small, (signed, at)) =
            unit-ok v varint e (rotation_payload e) _ (rotation_payload-IsPayload e) bs reader d.0
              d.1 a.0 a.1 done (map_err-ok _ _ _ n) pd (map_err-ok _ _ _ pa) (map_err-ok _ _ _ f) in
          subst
            (λ (z : RotationStatement).
              (length bs ≤ max_unit_bytes)
              × ((bs ≡ encode v e hash z) × IsRotationStatement v e hash z))
            (ok-injective _ _ q) (small, (at, (signed, ap hash at)))

      back :
          (length bs ≤ max_unit_bytes) × ((bs ≡ encode v e hash s) × IsRotationStatement v e hash s)
          → decode v e hash bs ≡ ok s
      back (small, (at, (signed, digest))) =
          let (n, (d, a)) =
            unit-append v varint e (rotation_payload e) _ (rotation_payload-IsPayload e) s.signed
              s.authority signed (subst (λ z. length z ≤ max_unit_bytes) at small) in
          subst (λ z. decode v e hash z ≡ ok s) (sym at)
            (rw (n, d, a)
              (ap (λ z. ok (record { digest = z; signed = s.signed; authority = s.authority }))
                (sym digest)))

  -- Signing for canonical keys returns a statement over the given keys and carriage that decodes back
  -- from its encoding, or else reports that the encoding is over 1 MiB; it never panics.
  pub rotation-sign_decode :
      (root_doc replaced successor : Bytes) (authority : DelegationChain)
      → IsKey e root_doc
      → IsKey e replaced
      → IsSigner e successor
      → ((sign v e hash root_doc replaced successor authority
            ≡ ok (signed_statement v e hash root_doc replaced successor authority))
          × (decode v e hash
                (encode v e hash (signed_statement v e hash root_doc replaced successor authority))
              ≡ ok (signed_statement v e hash root_doc replaced successor authority)))
        ⊎ ((max_unit_bytes
              < length (
                  encode v e hash
                    (signed_statement v e hash root_doc replaced successor authority)))
            × (sign v e hash root_doc replaced successor authority
                ≡ err (
                    SignFailure.oversize (record {
                      len = length (
                          encode v e hash
                            (signed_statement v e hash root_doc replaced successor authority));
                    }))))
  unfolding sign encode signed_statement unit_bytes check_unit_len IsRotation IsRotationStatement
      rotation_payload
  rotation-sign_decode root_doc replaced successor authority a b c =
      elim (Bool-cases (ltb max_unit_bytes (length (encode v e hash made)))) [
        | inl over ↦ inr (ltb→lt _ _ over, rw (signed, over) refl)
        | inr fits ↦ inl (
          rw (signed, fits) refl,
          (rotation-decode_iff (encode v e hash made) made).1 (small fits, (refl, (valid, refl))),
        )
      ]
    where
      made : RotationStatement
      made = signed_statement v e hash root_doc replaced successor authority

      payload : Rotation
      payload = record {
        root_doc = root_doc;
        replaced = replaced;
        successor = e.verifying_key successor;
      }

      signed :
          onomancy.Signed.sign e (rotation_payload e) payload successor
          ≡ ok (signed_of e (rotation_payload e) payload successor)
      signed = sign-signed_of e (rotation_payload e) payload successor c refl

      valid : IsSigned e (rotation_payload e) (IsRotation e) made.signed
      valid =
          signed_of-IsSigned e (rotation_payload e) (IsRotation e) payload successor
            (a, (b, c.names_key)) c refl

      small :
          ltb max_unit_bytes (length (encode v e hash made)) ≡ false
          → length (encode v e hash made) ≤ max_unit_bytes
      small h = ground arith

  -- The least encoding: a tag, three keys, a signature and the count of an empty carriage.
  pub length-encode :
      (s : RotationStatement) → IsRotationStatement v e hash s → 165 ≤ length (encode v e hash s)
  unfolding encode IsRotationStatement IsRotation IsSigned IsKey rotation_payload encode_fields
      onomancy.Signed.encode_into onomancy.Carriage.Delegations.encode_into
  length-encode s h =
      let r = s.signed.payload in
      let keys = r.root_doc ++ (r.replaced ++ r.successor) in
      let carriage = onomancy.Carriage.Delegations.encode_into v s.authority in
      let front = tag ++ (keys ++ s.signed.signature) in
      omega (
        arith,
        h.0.0.0.0,
        h.0.0.1.0.0,
        h.0.0.1.1.0,
        h.0.1.0,
        length-append r.root_doc (r.replaced ++ r.successor),
        length-append r.replaced r.successor,
        length-append keys s.signed.signature,
        length-append tag (keys ++ s.signed.signature),
        length-append front carriage,
        length-encode_into v varint s.authority,
      )
