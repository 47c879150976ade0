-- ===== src/Txt/Bound.antt =====
-- The bound on the length of a record: `MAX_RECORD_LEN` of onomancy_dnssec/src/txt/record.rs.
use onomancy.Prelude.{
  ℕ, ◌<◌, ◌≡◌, ◌↔◌, refl, ap, ◌∙◌, Bool, true, false, ltb, List, [], ◌∷◌, length, arith,
  if◌then◌else◌,
}
use onomancy.Prelude.Result.{Result, ok, err, ◌>>=◌}
use onomancy.Core.{Bytes}
use onomancy.Keys.{Ed25519}
use onomancy.Text.{split_on}
use onomancy.Txt.{
  Base64, semicolon, max_record_len, format_tag, ParseTxtRecordError, record_too_long, FieldName,
  TxtRecord, Classified, decode_key_bytes, decode_key_text, decode_key_field, check_algorithm,
  parse_serial_field, parse_fields, parse_five, parse_ono0, classify, expect_binding, parse,
}
use onomancy.Txt.Dispositions.{classify-err_iff}

-- The results whose error is another than the bound's.
abbrev Short : {A : Type 0} → Result ParseTxtRecordError A → Type 0
Short r = (n m : ℕ) → ¬ (r ≡ err (record_too_long n m))

Short-bind :
    {A B : Type 0} (m : Result ParseTxtRecordError A) (f : A → Result ParseTxtRecordError B)
    → Short m
    → ((a : A) → Short (f a))
    → Short (m >>= f)
Short-bind (ok a) f s t n m h = t a n m h
Short-bind (err x) f s t n m h = s n m (cc h)

module _ (b : Base64) (e : Ed25519) where
  bytes-Short : (name : FieldName) (bytes : Bytes) → Short (decode_key_bytes b e name bytes)
  unfolding decode_key_bytes
  bytes-Short name bytes n m h = ground arith

  text-Short : (name : FieldName) (text : Bytes) → Short (decode_key_text b e name text)
  unfolding decode_key_text
  text-Short name text n m h = ground (arith, bytes-Short name)

  field-Short :
      (field prefix : Bytes) (name : FieldName) → Short (decode_key_field b e field prefix name)
  unfolding decode_key_field
  field-Short field prefix name n m h = ground (arith, text-Short name)

  algorithm-Short : (field : Bytes) → Short (check_algorithm b e field)
  unfolding check_algorithm
  algorithm-Short field n m h = ground arith

  serial-Short : (field : Bytes) → Short (parse_serial_field b e field)
  unfolding parse_serial_field
  serial-Short field n m h = ground arith

  five-Short : (fields : List Bytes) → Short (parse_five b e fields)
  unfolding parse_five parse_fields
  five-Short [] n m h = cc h
  five-Short (w ∷ []) n m h = cc h
  five-Short (w ∷ x ∷ []) n m h = cc h
  five-Short (w ∷ x ∷ y ∷ []) n m h = cc h
  five-Short (w ∷ x ∷ y ∷ z ∷ u ∷ us) n m h = cc h
  five-Short (w ∷ x ∷ y ∷ z ∷ []) n m h =
      Short-bind (check_algorithm b e w) _ (algorithm-Short w)
        (λ _. Short-bind (parse_serial_field b e x) _ (serial-Short x) (λ _.
          Short-bind (decode_key_field b e y _ _) _ (field-Short y _ _)
            (λ _. Short-bind (decode_key_field b e z _ _) _ (field-Short z _ _) (λ _ n m k. cc k))))
        n m h

  ono0_too_long :
      (raw : Bytes) (n m : ℕ)
      → (parse_ono0 b e raw ≡ err (record_too_long n m))
        ↔ ((133 < length raw) × ((n ≡ length raw) × (m ≡ 133)))
  unfolding parse_ono0
  ono0_too_long raw n m = (λ h. split (ltb max_record_len (length raw)) refl h, λ h. ground arith)
    where
      split :
          (t : Bool)
          → ltb max_record_len (length raw) ≡ t
          → ◌≡◌ {A = Result ParseTxtRecordError TxtRecord}
              (if t
                then err (record_too_long (length raw) max_record_len)
                else parse_five b e (split_on semicolon raw).1)
              (err (record_too_long n m))
          → (133 < length raw) × ((n ≡ length raw) × (m ≡ 133))
      split true q k = (ground arith, (cc k, cc k))
      split false q k = absurd (five-Short (split_on semicolon raw).1 n m k)

  expected-err : (c : Classified) → Short (expect_binding b e c)
  unfolding expect_binding
  expected-err c n m h = ground arith

  -- A text is refused as too long exactly when its first field is the tag `v=ONO0` and it has more than
  -- 133 bytes, with its length and that bound in the error.
  pub parse-too_long_iff :
      (raw : Bytes) (n m : ℕ)
      → (parse b e raw ≡ err (record_too_long n m)) ↔ (
          ((split_on semicolon raw).0 ≡ format_tag)
          × ((133 < length raw) × ((n ≡ length raw) × (m ≡ 133))))
  unfolding parse
  parse-too_long_iff raw n m = (λ h. split (classify b e raw) refl h, back)
    where
      split :
          (r : Result ParseTxtRecordError Classified)
          → classify b e raw ≡ r
          → (r >>= expect_binding b e) ≡ err (record_too_long n m)
          → ((split_on semicolon raw).0 ≡ format_tag)
            × ((133 < length raw) × ((n ≡ length raw) × (m ≡ 133)))
      split (ok c) q k = absurd (expected-err c n m k)
      split (err x) q k =
          let same : x ≡ record_too_long n m = cc k in
          let (tag, failed) =
            (classify-err_iff b e raw (record_too_long n m)).0 (q ∙ ap err same) in
          (tag, (ono0_too_long raw n m).0 failed)

      back :
          ((split_on semicolon raw).0 ≡ format_tag)
            × ((133 < length raw) × ((n ≡ length raw) × (m ≡ 133)))
          → parse b e raw ≡ err (record_too_long n m)
      back (tag, long) =
          rw
            ((classify-err_iff b e raw (record_too_long n m)).1
              (tag, (ono0_too_long raw n m).1 long))
            refl
