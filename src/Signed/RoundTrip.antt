-- ===== src/Signed/RoundTrip.antt =====
-- Signed units read back as they were written, and are held only under a signature that verifies:
-- signed.rs.
use onomancy.Prelude.{
  ℕ, ◌-◌, ◌≤◌, ◌≡◌, refl, sym, ap, ◌∙◌, subst, Bool, true, ◌++◌, length, take, length-append, arith,
}
use onomancy.Prelude.Lex.{eq_bytes→eq, eq_bytes_refl}
use onomancy.Prelude.Result.{ok, map_err, bind-ok, map_err-ok, ok-injective}
use onomancy.Core.{Bytes}
use onomancy.Wire.{WireError, max_unit_bytes, read_bytes}
use onomancy.Wire.Laws.{IsCodec, length_right, read_bytes-ok, read_bytes-append}
use onomancy.Wire.Split.{append_assoc, take-append}
use onomancy.Keys.{
  Ed25519, IsKey, NotCanonicalKey, decode_key, decode_key-ok, decode_key-IsKey, IsSigner,
}
use onomancy.Signed.{
  Payload, Signed, signable_region, try_from_parts, sign, check_tag, check_signature, decode_from,
  encode_into, read_key,
}

pub take_before : (xs ys : Bytes) → take (length (xs ++ ys) - length ys) (xs ++ ys) ≡ xs
take_before xs ys =
    let n : length (xs ++ ys) - length ys ≡ length xs = omega (arith, length-append xs ys) in
    rw (n) (take-append xs ys)

-- A read behind a conversion of its error.
pub read_at_width :
    {E : Type 0} (f : WireError → E) (a rest : Bytes) (n : ℕ)
    → length a ≡ n
    → map_err f (read_bytes n (a ++ rest)) ≡ ok (a, rest)
read_at_width f a rest n l =
    subst (λ k. map_err f (read_bytes k (a ++ rest)) ≡ ok (a, rest)) l
      (rw (read_bytes-append a rest) refl)

-- A key field is a codec of canonical keys.
module _ {E : Type 0} (e : Ed25519) (f : WireError → E) (bad : E) where
  read_key-ok :
      (bs key rest : Bytes)
      → read_key e f bad bs ≡ ok (key, rest)
      → IsKey e key × (bs ≡ key ++ rest)
  unfolding read_key IsKey
  read_key-ok bs key rest h =
      let (d, p, k) = bind-ok (map_err f (read_bytes 32 bs)) _ (key, rest) h in
      let (found, q, k') =
        bind-ok (map_err (λ (_ : NotCanonicalKey). bad) (decode_key e d.0)) _ (key, rest) k in
      let (l, at) = read_bytes-ok 32 bs d.0 d.1 (map_err-ok f _ _ p) in
      let (same, canonical) = decode_key-ok e d.0 found (map_err-ok _ _ _ q) in
      let r : ◌≡◌ {A = Bytes × Bytes} (d.0, d.1) (key, rest) =
        ap (λ z. (z, d.1)) (sym same) ∙ ok-injective _ _ k' in
      (
        subst
            (λ (z : Bytes × Bytes).
              (length z.0 ≡ 32) × ((e.from_bytes z.0 ≡ true) × (e.compress z.0 ≡ z.0)))
            r (l, canonical),
        subst (λ (z : Bytes × Bytes). bs ≡ z.0 ++ z.1) r at,
      )

  pub read_key-append :
      (key rest : Bytes) → IsKey e key → read_key e f bad (key ++ rest) ≡ ok (key, rest)
  unfolding read_key IsKey
  read_key-append key rest valid =
      rw (read_at_width f key rest 32 valid.0, decode_key-IsKey e key valid) refl

  pub read_key-IsCodec : IsCodec (read_key e f bad) (λ key. key) (IsKey e)
  read_key-IsCodec = record {
    sound = read_key-ok;
    complete = λ key rest valid _. read_key-append key rest valid;
  }

-- What a payload's own codec promises.
pub record IsPayload {E P : Type 0} (p : Payload E P) (Valid : P → Type 0) : Type 0 where
  pub tag_length : length p.tag ≡ 4
  pub fields : IsCodec p.decode_fields p.encode_fields Valid

module _ {E P : Type 0} (e : Ed25519) (p : Payload E P) (Valid : P → Type 0) where
  -- A unit with a valid payload and a signature that verifies over its own bytes.
  unfoldable pub IsSigned : Signed P → Type 0
  IsSigned s =
      Valid s.payload
      × ((length s.signature ≡ 64)
          × (e.verify_strict (p.signer s.payload) (signable_region p s.payload) s.signature ≡ true))

  pub try_from_parts-ok :
      (payload : P) (signature : Bytes) (s : Signed P)
      → try_from_parts e p payload signature ≡ ok s
      → (s ≡ record { payload = payload; signature = signature })
        × (e.verify_strict (p.signer payload) (signable_region p payload) signature ≡ true)
  unfolding try_from_parts
  try_from_parts-ok payload signature s h = ground arith

  check_tag-ok : (tag : Bytes) (b : Bool) → check_tag p tag ≡ ok b → tag ≡ p.tag
  unfolding check_tag
  check_tag-ok tag b h = ground (arith, eq_bytes→eq tag p.tag)

  check_signature-ok :
      (payload : P) (region signature : Bytes) (s : Signed P)
      → check_signature e p payload region signature ≡ ok s
      → (s ≡ record { payload = payload; signature = signature })
        × (e.verify_strict (p.signer payload) region signature ≡ true)
  unfolding check_signature
  check_signature-ok payload region signature s h = ground arith

  -- The region that is checked is the tag and the fields that were read.
  received_region :
      (bs tag r1 : Bytes) (payload : P) (r2 : Bytes)
      → bs ≡ tag ++ r1
      → tag ≡ p.tag
      → r1 ≡ p.encode_fields payload ++ r2
      → (bs ≡ signable_region p payload ++ r2)
        × (take (length bs - length r2) bs ≡ signable_region p payload)
  unfolding signable_region
  received_region bs tag r1 payload r2 at t at1 =
      let whole : bs ≡ (p.tag ++ p.encode_fields payload) ++ r2 =
        at
        ∙ ap (λ z. z ++ r1) t
        ∙ ap (λ z. p.tag ++ z) at1
        ∙ sym (append_assoc p.tag (p.encode_fields payload) r2) in
      (
        whole,
        subst (λ z. take (length z - length r2) z ≡ p.tag ++ p.encode_fields payload) (sym whole)
            (take_before (p.tag ++ p.encode_fields payload) r2),
      )

  encode_into-parts :
      (s : Signed P) (rest : Bytes)
      → encode_into p s ++ rest ≡ p.tag ++ (p.encode_fields s.payload ++ (s.signature ++ rest))
  unfolding encode_into
  encode_into-parts s rest =
      append_assoc p.tag _ rest ∙ ap (λ z. p.tag ++ z) (append_assoc _ s.signature rest)

  encode_into-region :
      (s : Signed P) (rest : Bytes)
      → encode_into p s ++ rest ≡ signable_region p s.payload ++ (s.signature ++ rest)
  unfolding signable_region
  encode_into-region s rest =
      encode_into-parts s rest ∙ sym (append_assoc p.tag _ (s.signature ++ rest))

  decode_from-pieces :
      (bs tag r1 : Bytes) (payload : P) (r2 signature rest : Bytes) (s : Signed P) (b : Bool)
      → bs ≡ tag ++ r1
      → check_tag p tag ≡ ok b
      → Valid payload × (r1 ≡ p.encode_fields payload ++ r2)
      → (length signature ≡ 64) × (r2 ≡ signature ++ rest)
      → check_signature e p payload (take (length bs - length r2) bs) signature ≡ ok s
      → IsSigned s × (bs ≡ encode_into p s ++ rest)
  unfolding IsSigned
  decode_from-pieces bs tag r1 payload r2 signature rest s b at t (valid, at1) (l, at2) c =
      let (whole, region) = received_region bs tag r1 payload r2 at (check_tag-ok tag b t) at1 in
      let (same, verified) = check_signature-ok payload _ signature s c in
      let verified' : e.verify_strict (p.signer payload) (signable_region p payload) signature
          ≡ true =
        subst (λ z. e.verify_strict (p.signer payload) z signature ≡ true) region verified in
      subst (λ (u : Signed P). IsSigned u × (bs ≡ encode_into p u ++ rest)) (sym same)
        (
          (valid, (l, verified')),
          whole ∙ ap (λ z. signable_region p payload ++ z) at2 ∙ sym (encode_into-region _ rest),
        )

  module _ (laws : IsPayload p Valid) where
    decode_from-ok :
        (bs : Bytes) (s : Signed P) (rest : Bytes)
        → decode_from e p bs bs ≡ ok (s, rest)
        → IsSigned s × (bs ≡ encode_into p s ++ rest)
    unfolding decode_from
    decode_from-ok bs s rest h =
        let (t, pt, k) = bind-ok (map_err p.from_wire (read_bytes 4 bs)) _ (s, rest) h in
        let (b, pb, k1) = bind-ok (check_tag p t.0) _ (s, rest) k in
        let (f, pf, k2) = bind-ok (p.decode_fields t.1) _ (s, rest) k1 in
        let (g, pg, k3) = bind-ok (map_err p.from_wire (read_bytes 64 f.1)) _ (s, rest) k2 in
        let (c, pc, q) =
          bind-ok (check_signature e p f.0 (take (length bs - length f.1) bs) g.0) _ (s, rest) k3 in
        let pieces =
          decode_from-pieces bs t.0 t.1 f.0 f.1 g.0 g.1 c b
            (read_bytes-ok 4 bs t.0 t.1 (map_err-ok _ _ _ pt)).1 pb
            (laws.fields.sound t.1 f.0 f.1 pf) (read_bytes-ok 64 f.1 g.0 g.1 (map_err-ok _ _ _ pg))
            pc in
        subst (λ (z : Signed P × Bytes). IsSigned z.0 × (bs ≡ encode_into p z.0 ++ z.1))
          (ok-injective _ _ q) pieces

    check_signature-verified :
        (s : Signed P)
        → IsSigned s
        → check_signature e p s.payload (signable_region p s.payload) s.signature ≡ ok s
    unfolding check_signature IsSigned
    check_signature-verified s (_, (_, verified)) = rw (verified) refl

    -- The reads go through any bytes whose front is the signed region.
    decode_from-parts :
        (bs : Bytes) (s : Signed P) (rest : Bytes)
        → IsSigned s
        → take (length bs - length (s.signature ++ rest)) bs ≡ signable_region p s.payload
        → length (p.encode_fields s.payload ++ (s.signature ++ rest)) ≤ max_unit_bytes
        → decode_from e p bs (p.tag ++ (p.encode_fields s.payload ++ (s.signature ++ rest)))
          ≡ ok (s, rest)
    unfolding decode_from check_tag IsSigned
    decode_from-parts bs s rest signed region small =
        rw
          (
            read_at_width p.from_wire p.tag _ 4 laws.tag_length,
            eq_bytes_refl p.tag,
            laws.fields.complete s.payload (s.signature ++ rest) signed.0 small,
            read_at_width p.from_wire s.signature rest 64 signed.1.0,
            region,
            check_signature-verified s signed,
          )
          refl

    decode_from-append :
        (s : Signed P) (rest : Bytes)
        → IsSigned s
        → length (encode_into p s ++ rest) ≤ max_unit_bytes
        → decode_from e p (encode_into p s ++ rest) (encode_into p s ++ rest) ≡ ok (s, rest)
    decode_from-append s rest signed small =
        let body = p.encode_fields s.payload ++ (s.signature ++ rest) in
        let at = encode_into-parts s rest in
        let (_, region) =
          received_region (encode_into p s ++ rest) p.tag body s.payload (s.signature ++ rest) at
            refl refl in
        let fits =
          length_right p.tag body max_unit_bytes
            (subst (λ z. length z ≤ max_unit_bytes) at small) in
        subst (λ z. decode_from e p (encode_into p s ++ rest) z ≡ ok (s, rest)) (sym at)
          (decode_from-parts (encode_into p s ++ rest) s rest signed region fits)

    pub decode_from-IsCodec : IsCodec (λ bs. decode_from e p bs bs) (encode_into p) IsSigned
    decode_from-IsCodec = record { sound = decode_from-ok; complete = decode_from-append }

-- A valid payload that names its signing key is signed: `Signed::sign` can fail only under another
-- key.
module _ {E P : Type 0} (e : Ed25519) (p : Payload E P) where
  unfoldable pub signed_of : P → (key : Bytes) → Signed P
  signed_of payload key = record {
    payload = payload;
    signature = e.sign key (signable_region p payload);
  }

  pub sign-signed_of :
      (payload : P) (key : Bytes)
      → IsSigner e key
      → p.signer payload ≡ e.verifying_key key
      → sign e p payload key ≡ ok (signed_of payload key)
  unfolding sign signed_of try_from_parts
  sign-signed_of payload key signer named =
      rw (named, signer.signs (signable_region p payload)) refl

  pub signed_of-IsSigned :
      (Valid : P → Type 0) (payload : P) (key : Bytes)
      → Valid payload
      → IsSigner e key
      → p.signer payload ≡ e.verifying_key key
      → IsSigned e p Valid (signed_of payload key)
  unfolding signed_of IsSigned
  signed_of-IsSigned Valid payload key valid signer named = (
    valid,
    (
      signer.signature_length (signable_region p payload),
      rw (named) (signer.signs (signable_region p payload)),
    ),
  )
