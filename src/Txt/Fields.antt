-- ===== src/Txt/Fields.antt =====
-- The fields of a binding record read back as they were written: `parse_ono0` and `decode_key_field` of
-- record.rs, and `GenerationKey::parse`.
use onomancy.Prelude.{
  ℕ, ◌≤◌, ◌≡◌, ◌↔◌, refl, sym, ap, ◌∙◌, subst, Bool, true, false, ◌==◌, eqb→eq, if◌then◌else◌,
  Option, none, some, List, [], ◌∷◌, ◌++◌, length, arith,
}
use onomancy.Prelude.Lex.{eq_bytes, eq_bytes→eq}
use onomancy.Prelude.Result.{Result, ok, err, after-ok, map_err-ok, ok-injective}
use onomancy.Core.{Bytes, u64_max}
use onomancy.Keys.{Ed25519, IsKey, decode_key-ok, decode_key-IsKey}
use onomancy.Text.{codes, strip_prefix, strip_prefix-some, strip_prefix-append}
use onomancy.Txt.Decimal.{print}
use onomancy.Txt.Decimal.RoundTrip.{serial-parse_iff}
use onomancy.Txt.{
  Base64, IsBase64, key_base64_len, key_len, key_algorithm, FieldName, ParseTxtRecordError,
  TxtRecord, key_algorithm_field, generation_key_field, document_id_field, wrong_field_prefix,
  decode_key_bytes, decode_key_text, decode_key_field, check_algorithm, parse_serial_field,
  parse_fields, parse_five, parse_generation_key,
}

-- The result of a computed option.
pub option-ok {ℓ κ μ} :
    {A : Type ℓ} {E : Type κ} {B : Type μ} (o : Option A) (e : E) (f : A → Result E B) (r : B)
    → ◌≡◌ {A = Result E B} (elim o [ none ↦ err e | some a ↦ f a ]) (ok r)
    → (a : A) × (o ≡ some a) × (f a ≡ ok r)
option-ok none e f r h = cc h
option-ok (some a) e f r h = (a, refl, h)

pub test-ok {κ μ} :
    {E : Type κ} {B : Type μ} (t : Bool) (e : E) (m : Result E B) (r : B)
    → (if t then m else err e) ≡ ok r
    → (t ≡ true) × (m ≡ ok r)
test-ok true e m r h = (refl, h)
test-ok false e m r h = cc h

-- Canonical keys and a serial of 64 bits.
unfoldable pub IsTxtRecord : Ed25519 → TxtRecord → Type 0
IsTxtRecord e r = (r.serial ≤ u64_max) × (IsKey e r.generation × IsKey e r.document)

-- The four fields after the tag, as `display` writes them.
unfoldable pub written : Base64 → TxtRecord → List Bytes
written b r =
    key_algorithm
    ∷ ((codes "n=" ++ print r.serial)
        ∷ ((codes "g=" ++ b.encode r.generation) ∷ ((codes "p=" ++ b.encode r.document) ∷ [])))

module _ (b : Base64) (base64 : IsBase64 b) (e : Ed25519) where
  -- A key field holds a key exactly when it is its prefix and the text of that canonical key.
  decode_key_bytes-ok :
      (name : FieldName) (bytes key : Bytes)
      → decode_key_bytes b e name bytes ≡ ok key
      → (key ≡ bytes) × IsKey e key
  unfolding decode_key_bytes IsKey
  decode_key_bytes-ok name bytes key h =
      let (l, k) = test-ok (length bytes == key_len) _ _ key h in
      let (same, valid) = decode_key-ok e bytes key (map_err-ok _ _ _ k) in
      (
        same,
        subst (λ z. (length z ≡ 32) × ((e.from_bytes z ≡ true) × (e.compress z ≡ z))) (sym same)
            (eqb→eq _ _ l, valid),
      )

  decode_key_field-ok :
      (field prefix : Bytes) (name : FieldName) (key : Bytes)
      → decode_key_field b e field prefix name ≡ ok key
      → (field ≡ prefix ++ b.encode key) × IsKey e key
  unfolding decode_key_field decode_key_text
  decode_key_field-ok field prefix name key h =
      let (encoded, p, k) = option-ok (strip_prefix prefix field) _ _ key h in
      let (_, k1) = test-ok (length encoded == key_base64_len) _ _ key k in
      let (bytes, d, k2) = option-ok (b.decode encoded) _ _ key k1 in
      let (same, valid) = decode_key_bytes-ok name bytes key k2 in
      (
        strip_prefix-some prefix field encoded p
            ∙ ap (λ z. prefix ++ z) (base64.canonical encoded bytes d ∙ ap b.encode (sym same)),
        valid,
      )

  decode_key_field-append :
      (prefix : Bytes) (name : FieldName) (key : Bytes)
      → IsKey e key
      → decode_key_field b e (prefix ++ b.encode key) prefix name ≡ ok key
  unfolding decode_key_field decode_key_text decode_key_bytes IsKey
  decode_key_field-append prefix name key valid =
      let l : (length (b.encode key) == key_base64_len) ≡ true =
        (let q = base64.key_length key valid.0 in ground arith) in
      let w : (length key == key_len) ≡ true = (let q = valid.0 in ground arith) in
      rw
        (
          decode_key_field,
          strip_prefix-append prefix (b.encode key),
          decode_key_text,
          l,
          base64.reads_back key,
          w,
          decode_key-IsKey e key valid,
        )
        refl

  -- A generation key reads back from its text, which is its only text.
  pub parse_generation_key_iff :
      (text key : Bytes)
      → (parse_generation_key b e text ≡ ok key) ↔ ((text ≡ b.encode key) × IsKey e key)
  unfolding parse_generation_key IsKey
  parse_generation_key_iff text key = (forth, back)
    where
      forth : parse_generation_key b e text ≡ ok key → (text ≡ b.encode key) × IsKey e key
      forth h =
          let (bytes, d, k) = option-ok (b.decode text) _ _ key h in
          let (l, k1) = test-ok (length bytes == 32) _ _ key k in
          let (same, valid) = decode_key-ok e bytes key (map_err-ok _ _ _ k1) in
          (
            base64.canonical text bytes d ∙ ap b.encode (sym same),
            subst (λ z. (length z ≡ 32) × ((e.from_bytes z ≡ true) × (e.compress z ≡ z))) (sym same)
                (eqb→eq _ _ l, valid),
          )

      back : (text ≡ b.encode key) × IsKey e key → parse_generation_key b e text ≡ ok key
      back (at, valid) =
          let w : (length key == 32) ≡ true = (let q = valid.0 in ground arith) in
          subst (λ z. parse_generation_key b e z ≡ ok key) (sym at)
            (rw (parse_generation_key, base64.reads_back key, w, decode_key-IsKey e key valid) refl)

  check_algorithm-ok :
      (field : Bytes) (t : Bool) → check_algorithm b e field ≡ ok t → field ≡ key_algorithm
  unfolding check_algorithm
  check_algorithm-ok field t h =
      split (eq_bytes field key_algorithm) refl (strip_prefix (codes "k=") field) h
    where
      split :
          (same : Bool)
          → eq_bytes field key_algorithm ≡ same
          → (o : Option Bytes)
          → ◌≡◌ {A = Result ParseTxtRecordError Bool}
              (if same then ok true else elim o [
                | some algorithm ↦ err (ParseTxtRecordError.unknown_key_algorithm algorithm)
                | none ↦ err (wrong_field_prefix key_algorithm_field)
              ])
              (ok t)
          → field ≡ key_algorithm
      split true q o k = eq_bytes→eq field key_algorithm q
      split false q none k = cc k
      split false q (some a) k = cc k

  serial_field-ok :
      (field : Bytes) (n : ℕ)
      → parse_serial_field b e field ≡ ok n
      → (n ≤ u64_max) × (field ≡ codes "n=" ++ print n)
  unfolding parse_serial_field
  serial_field-ok field n h =
      let (digits, p, k) = option-ok (strip_prefix (codes "n=") field) _ _ n h in
      let (fits, at) = (serial-parse_iff digits n).0 (map_err-ok _ _ _ k) in
      (fits, strip_prefix-some (codes "n=") field digits p ∙ ap (λ z. codes "n=" ++ z) at)

  serial_field-append :
      (n : ℕ) → n ≤ u64_max → parse_serial_field b e (codes "n=" ++ print n) ≡ ok n
  unfolding parse_serial_field
  serial_field-append n fits =
      rw
        (
          parse_serial_field,
          strip_prefix-append (codes "n=") (print n),
          (serial-parse_iff (print n) n).1 (fits, refl),
        )
        refl

  pub five-ok :
      (fields : List Bytes) (r : TxtRecord)
      → parse_five b e fields ≡ ok r
      → IsTxtRecord e r × (fields ≡ written b r)
  unfolding parse_five parse_fields IsTxtRecord written
  five-ok [] r h = cc h
  five-ok (a ∷ []) r h = cc h
  five-ok (a ∷ (s ∷ [])) r h = cc h
  five-ok (a ∷ (s ∷ (g ∷ []))) r h = cc h
  five-ok (a ∷ (s ∷ (g ∷ (d ∷ (x ∷ xs))))) r h = cc h
  five-ok (a ∷ (s ∷ (g ∷ (d ∷ [])))) r h = after-ok (check_algorithm b e a) _ r h (λ t pt k.
      after-ok (parse_serial_field b e s) _ r k (λ n pn k.
        after-ok (decode_key_field b e g (codes "g=") generation_key_field) _ r k (λ x px k.
          after-ok (decode_key_field b e d (codes "p=") document_id_field) _ r k (λ y py q.
            let (fits, es) = serial_field-ok s n pn in
            let (eg, vg) = decode_key_field-ok g (codes "g=") generation_key_field x px in
            let (ed, vd) = decode_key_field-ok d (codes "p=") document_id_field y py in
            subst (λ (z : TxtRecord). IsTxtRecord e z × ((a ∷ (s ∷ (g ∷ (d ∷ [])))) ≡ written b z))
              (ok-injective _ _ q)
              ((fits, (vg, vd)), cc (check_algorithm-ok a t pt, es, eg, ed))))))

  pub five-written : (r : TxtRecord) → IsTxtRecord e r → parse_five b e (written b r) ≡ ok r
  unfolding parse_five parse_fields IsTxtRecord written check_algorithm
  five-written r (fits, (g, d)) =
      rw
        (
          serial_field-append r.serial fits,
          decode_key_field-append (codes "g=") generation_key_field r.generation g,
          decode_key_field-append (codes "p=") document_id_field r.document d,
        )
        refl
