-- ===== src/Certificate/Fields.antt =====
-- The signed fields of a certificate read back: the payload of onomancy_dnssec/src/certificate/binding.rs.
use onomancy.Prelude.{
  ℕ, ◌≤◌, ◌≡◌, refl, sym, ap, ◌∙◌, subst, Bool, true, false, ◌==◌, eqb→eq, if◌then◌else◌, Option,
  none, some, ◌++◌, length, length-append, arith,
}
use onomancy.Prelude.Result.{Result, ok, ◌>>=◌, map_err, after-ok, map_err-ok, ok-injective}
use onomancy.Core.{Bytes, Digest, u64_max}
use onomancy.Wire.{Varint, max_unit_bytes, read_bytes, read_varint, bounded_len, put_varint}
use onomancy.Wire.Laws.{
  IsVarint, IsCodec, length_right, read_bytes-append, read_varint-ok, read_varint-append,
  bounded_len-ok, bounded_len-append, counted_bytes-ok, counted_bytes-append,
}
use onomancy.Wire.Split.{append_assoc}
use onomancy.Keys.{Ed25519, IsKey}
use onomancy.Signed.RoundTrip.{IsPayload, read_key-IsCodec, read_key-append}
use onomancy.Names.{from_canonical}
use onomancy.Names.Canonical.{IsName, from_canonical_iff}
use onomancy.Statement.Successor.{SuccessorStatement, decode, encode}
use onomancy.Statement.Successor.RoundTrip.{
  IsSuccessorStatement, successor-decode_iff, length-encode,
}
use onomancy.Certificate.{
  FieldName, DecodeCertificateError, root_doc_field, signer_field, hostname_error,
  not_a_curve_point, predecessor_error, wire, read_key, read_heads, write_heads,
}
use onomancy.Certificate.Binding.{
  Binding, write_predecessor, encode_fields, read_predecessor, decode_fields, binding_payload,
}
use onomancy.Certificate.Heads.{HeadsFrom, read_heads-ok, read_heads-append}

module _ (v : Varint) (e : Ed25519) (hash : Bytes → Digest) where
  -- The predecessor's statement, when there is one, is as its decoder holds it.
  unfoldable pub IsPredecessor : Option SuccessorStatement → Type 0
  IsPredecessor none = Unit
  IsPredecessor (some s) = IsSuccessorStatement v e hash s

  -- Canonical keys, a time of 64 bits, a canonical hostname, strictly ascending heads of 32 bytes,
  -- and a predecessor as its decoder holds it.
  unfoldable pub IsBinding : Binding → Type 0
  IsBinding b =
      IsKey e b.root_doc
      × (IsKey e b.signer
          × ((b.issued_at ≤ u64_max)
              × (IsName b.hostname × (HeadsFrom none b.heads × IsPredecessor b.predecessor))))

module _ (v : Varint) (varint : IsVarint v) (e : Ed25519) (hash : Bytes → Digest) where
  key_codec : (field : FieldName) → IsCodec (read_key e field) (λ key. key) (IsKey e)
  unfolding read_key
  key_codec field = read_key-IsCodec e wire (not_a_curve_point field)

  read_predecessor-ok :
      (bs : Bytes) (len : ℕ) (r : Bytes) (p : Option SuccessorStatement) (rest : Bytes)
      → bounded_len v 1 bs ≡ ok (len, r)
      → read_predecessor v e hash len r ≡ ok (p, rest)
      → IsPredecessor v e hash p × (bs ≡ write_predecessor v e hash p ++ rest)
  unfolding read_predecessor write_predecessor IsPredecessor
  read_predecessor-ok bs len r p rest h k = split (len == 0) refl k
    where
      split :
          (t : Bool)
          → (len == 0) ≡ t
          → ◌≡◌ {A = Result DecodeCertificateError (Option SuccessorStatement × Bytes)}
              (if t
                then ok (none, r)
                else (map_err wire (read_bytes len r) >>= λ (unit, reader).
                    (map_err predecessor_error (decode v e hash unit) >>= λ statement.
                    ok (some statement, reader))))
              (ok (p, rest))
          → IsPredecessor v e hash p × (bs ≡ write_predecessor v e hash p ++ rest)
      split true t q =
          let (_, (_, at)) = bounded_len-ok v varint 1 bs len r h in
          let at' : bs ≡ put_varint v 0 ++ r =
            subst (λ n. bs ≡ put_varint v n ++ r) (eqb→eq len 0 t) at in
          subst
            (λ (z : Option SuccessorStatement × Bytes).
              IsPredecessor v e hash z.0 × (bs ≡ write_predecessor v e hash z.0 ++ z.1))
            (ok-injective _ _ q) (tt, at')
      split false t q =
          after-ok (map_err wire (read_bytes len r)) _ (p, rest) q
            (λ u pu q.
              after-ok (map_err predecessor_error (decode v e hash u.0)) _ (p, rest) q
                (λ s ps q.
                  let (_, at) =
                    counted_bytes-ok v varint bs len r u.0 u.1 h (map_err-ok _ _ _ pu) in
                  let (_, (same, valid)) =
                    (successor-decode_iff v varint e hash u.0 s).0 (map_err-ok _ _ _ ps) in
                  let unit = encode v e hash s in
                  let front : bs ≡ put_varint v (length unit) ++ (unit ++ u.1) =
                    subst (λ z. bs ≡ put_varint v (length z) ++ (z ++ u.1)) same at in
                  subst
                    (λ (z : Option SuccessorStatement × Bytes).
                      IsPredecessor v e hash z.0 × (bs ≡ write_predecessor v e hash z.0 ++ z.1))
                    (ok-injective _ _ q)
                    (valid, front ∙ sym (append_assoc (put_varint v (length unit)) unit u.1))))

  -- The two reads of a predecessor, its length and its unit.
  read_predecessor-append :
      (p : Option SuccessorStatement) (rest : Bytes)
      → IsPredecessor v e hash p
      → length (write_predecessor v e hash p ++ rest) ≤ max_unit_bytes
      → (len : ℕ) × (r : Bytes) × (bounded_len v 1 (write_predecessor v e hash p ++ rest)
          ≡ ok (len, r))
        × (read_predecessor v e hash len r ≡ ok (p, rest))
  unfolding read_predecessor write_predecessor IsPredecessor
  read_predecessor-append none rest h small = (
    0,
    rest,
    bounded_len-append v varint 1 0 rest (omega arith) (omega arith)
        (length_right (put_varint v 0) rest max_unit_bytes small),
    refl,
  )
  read_predecessor-append (some s) rest valid small =
      let unit = encode v e hash s in
      let at : (put_varint v (length unit) ++ unit) ++ rest
          ≡ put_varint v (length unit) ++ (unit ++ rest) =
        append_assoc (put_varint v (length unit)) unit rest in
      let fits =
        length_right (put_varint v (length unit)) (unit ++ rest) max_unit_bytes
          (subst (λ z. length z ≤ max_unit_bytes) at small) in
      let unit_fits : length unit ≤ max_unit_bytes = omega (arith, fits, length-append unit rest) in
      let long = length-encode v varint e hash s valid in
      let some_bytes : (length unit == 0) ≡ false = ground arith in
      (
        length unit,
        unit ++ rest,
        rw (at) (counted_bytes-append v varint unit rest fits),
        rw
            (
              some_bytes,
              read_bytes-append unit rest,
              (successor-decode_iff v varint e hash unit s).1 (unit_fits, (refl, valid)),
            )
            refl,
      )

  encode_fields-parts :
      (b : Binding) (rest : Bytes)
      → encode_fields v e hash b ++ rest
        ≡ b.root_doc
          ++ (b.signer
              ++ (put_varint v b.issued_at
                  ++ (put_varint v (length b.hostname)
                      ++ (b.hostname
                          ++ (put_varint v (length b.heads)
                              ++ (write_heads b.heads
                                  ++ (write_predecessor v e hash b.predecessor ++ rest)))))))
  unfolding encode_fields
  encode_fields-parts b rest = simp (append_assoc)

  fields-ok :
      (bs : Bytes) (b : Binding) (rest : Bytes)
      → decode_fields v e hash bs ≡ ok (b, rest)
      → IsBinding v e hash b × (bs ≡ encode_fields v e hash b ++ rest)
  unfolding decode_fields IsBinding
  fields-ok bs b rest h =
      after-ok (read_key e root_doc_field bs) _ (b, rest) h
        (λ a pa k.
          after-ok (read_key e signer_field a.1) _ (b, rest) k
            (λ g pg k.
              after-ok (map_err wire (read_varint v g.1)) _ (b, rest) k
                (λ i pi k.
                  after-ok (map_err wire (bounded_len v 1 i.1)) _ (b, rest) k
                    (λ l pl k.
                      after-ok (map_err wire (read_bytes l.0 l.1)) _ (b, rest) k
                        (λ r pr k.
                          after-ok (map_err hostname_error (from_canonical r.0)) _ (b, rest) k
                            (λ n pn k.
                              after-ok (read_heads v r.1) _ (b, rest) k
                                (λ d pd k.
                                  after-ok (map_err wire (bounded_len v 1 d.1)) _ (b, rest) k
                                    (λ m pm k.
                                      after-ok (read_predecessor v e hash m.0 m.1) _ (b, rest) k
                                        (λ p pp q.
                                          let (va, ea) =
                                            (key_codec root_doc_field).sound bs a.0 a.1 pa in
                                          let (vg, eg) =
                                            (key_codec signer_field).sound a.1 g.0 g.1 pg in
                                          let (vi, ei) =
                                            read_varint-ok v varint g.1 i.0 i.1
                                              (map_err-ok _ _ _ pi) in
                                          let (_, er) =
                                            counted_bytes-ok v varint i.1 l.0 l.1 r.0 r.1
                                              (map_err-ok _ _ _ pl) (map_err-ok _ _ _ pr) in
                                          let (same, name) =
                                            (from_canonical_iff r.0 n).0 (map_err-ok _ _ _ pn) in
                                          let en : i.1 ≡ put_varint v (length n) ++ (n ++ r.1) =
                                            subst (λ z. i.1 ≡ put_varint v (length z) ++ (z ++ r.1))
                                              (sym same) er in
                                          let (vd, ed) = read_heads-ok v varint r.1 d.0 d.1 pd in
                                          let (vp, ep) =
                                            read_predecessor-ok d.1 m.0 m.1 p.0 p.1
                                              (map_err-ok _ _ _ pm) pp in
                                          let tail : r.1
                                              ≡ put_varint v (length d.0)
                                                ++ (write_heads d.0
                                                    ++ (write_predecessor v e hash p.0 ++ p.1)) =
                                            ed
                                            ∙ ap
                                                (λ z.
                                                  put_varint v (length d.0)
                                                  ++ (write_heads d.0 ++ z))
                                                ep in
                                          let mid : i.1
                                              ≡ put_varint v (length n)
                                                ++ (n
                                                    ++ (put_varint v (length d.0)
                                                        ++ (write_heads d.0
                                                            ++ (write_predecessor v e hash p.0
                                                            ++ p.1)))) =
                                            en
                                            ∙ ap (λ z. put_varint v (length n) ++ (n ++ z)) tail in
                                          let all : bs
                                              ≡ a.0
                                                ++ (g.0
                                                    ++ (put_varint v i.0
                                                        ++ (put_varint v (length n)
                                                            ++ (n
                                                            ++ (put_varint v (length d.0)
                                                            ++ (write_heads d.0
                                                            ++ (write_predecessor v e hash p.0
                                                            ++ p.1))))))) =
                                            ea
                                            ∙ ap (λ z. a.0 ++ z)
                                                (eg
                                                  ∙ ap (λ z. g.0 ++ z)
                                                      (ei ∙ ap (λ z. put_varint v i.0 ++ z) mid)) in
                                          subst
                                            (λ (z : Binding × Bytes).
                                              IsBinding v e hash z.0
                                              × (bs ≡ encode_fields v e hash z.0 ++ z.1))
                                            (ok-injective _ _ q)
                                            (
                                              (
                                                va,
                                                (
                                                  vg,
                                                  (vi, (subst IsName (sym same) name, (vd, vp))),
                                                ),
                                              ),
                                              all
                                                  ∙ sym (
                                                      encode_fields-parts
                                                        (record {
                                                          root_doc = a.0;
                                                          signer = g.0;
                                                          issued_at = i.0;
                                                          hostname = n;
                                                          heads = d.0;
                                                          predecessor = p.0;
                                                        })
                                                        p.1),
                                            ))))))))))

  fields-append :
      (b : Binding) (rest : Bytes)
      → IsBinding v e hash b
      → length (encode_fields v e hash b ++ rest) ≤ max_unit_bytes
      → decode_fields v e hash (encode_fields v e hash b ++ rest) ≡ ok (b, rest)
  unfolding decode_fields IsBinding read_key
  fields-append b rest (a, (g, (i, (n, (d, p))))) small =
      let tail = write_predecessor v e hash b.predecessor ++ rest in
      let (len, r, q, q') = read_predecessor-append b.predecessor rest p tail_fits in
      rw
        (
          encode_fields-parts b rest,
          read_key-append e wire (not_a_curve_point root_doc_field) b.root_doc _ a,
          read_key-append e wire (not_a_curve_point signer_field) b.signer _ g,
          read_varint-append v varint b.issued_at _ i,
          counted_bytes-append v varint b.hostname _ host_fits,
          read_bytes-append b.hostname _,
          (from_canonical_iff b.hostname b.hostname).1 (refl, n),
          read_heads-append v varint b.heads tail d heads_fit,
          q,
          q',
        )
        refl
    where
      host_fits :
          length (
            b.hostname
            ++ (put_varint v (length b.heads)
                ++ (write_heads b.heads ++ (write_predecessor v e hash b.predecessor ++ rest))))
          ≤ max_unit_bytes
      host_fits = length_right (put_varint v (length b.hostname)) _ max_unit_bytes (
          length_right (put_varint v b.issued_at) _ max_unit_bytes (
            length_right b.signer _ max_unit_bytes (
              length_right b.root_doc _ max_unit_bytes
                (subst (λ z. length z ≤ max_unit_bytes) (encode_fields-parts b rest) small))))

      heads_fit :
          length (write_heads b.heads ++ (write_predecessor v e hash b.predecessor ++ rest))
          ≤ max_unit_bytes
      heads_fit =
          length_right (put_varint v (length b.heads)) _ max_unit_bytes
            (length_right b.hostname _ max_unit_bytes host_fits)

      tail_fits : length (write_predecessor v e hash b.predecessor ++ rest) ≤ max_unit_bytes
      tail_fits = length_right (write_heads b.heads) _ max_unit_bytes heads_fit

  pub binding_payload-IsPayload : IsPayload (binding_payload v e hash) (IsBinding v e hash)
  unfolding binding_payload
  binding_payload-IsPayload = record {
    tag_length = refl;
    fields = record { sound = fields-ok; complete = fields-append };
  }
