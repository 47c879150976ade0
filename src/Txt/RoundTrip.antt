-- ===== src/Txt/RoundTrip.antt =====
-- A binding record has one spelling: `TxtRecord::parse` of record.rs reads back what `Display` prints,
-- and nothing else.
use onomancy.Prelude.{
  ℕ, ◌≤◌, ◌<◌, ◌≡◌, ◌↔◌, refl, sym, ap, ◌∙◌, subst, inl, inr, Bool, true, false, not, ◌||◌, ltb,
  ◌==◌, if◌then◌else◌, Option, none, some, List, [], ◌∷◌, ◌++◌, length, length-append, all, all-In,
  In, arith,
}
use onomancy.Prelude.Lex.{eq_bytes, eq_bytes→eq}
use onomancy.Prelude.Result.{Result, ok, err, ◌>>=◌, after-ok}
use onomancy.Core.{Bytes}
use onomancy.Keys.{Ed25519, IsKey}
use onomancy.Names.{is_ascii_digit}
use onomancy.Text.{
  codes, split_on, strip_prefix, strip_prefix-some, strip_prefix-append, join, join-split, Lacks,
  split_on-last, split_on-part,
}
use onomancy.Txt.Decimal.{print}
use onomancy.Txt.Decimal.RoundTrip.{print-digits, length-print}
use onomancy.Txt.{
  Base64, IsBase64, semicolon, max_record_len, format_tag, key_algorithm, ParseTxtRecordError,
  TxtRecord, Classified, binding, unknown_record, unknown_version, record_too_long, parse_five,
  parse_ono0, classify_version, classify, expect_binding, parse, display,
}
use onomancy.Txt.Bound.{parse-too_long_iff}
use onomancy.Txt.Fields.{IsTxtRecord, written, five-ok, five-written}

module _ (b : Base64) (base64 : IsBase64 b) (e : Ed25519) where
  -- `display` writes the tag and the four fields.
  display-join : (r : TxtRecord) → display b e r ≡ join semicolon format_tag (written b r)
  unfolding display written join
  display-join r = refl

  digit_lacks : (x : ℕ) → is_ascii_digit x ≡ true → (x == semicolon) ≡ false
  unfolding is_ascii_digit
  digit_lacks x h = ground arith

  print-Lacks : (n : ℕ) → Lacks semicolon (print n)
  print-Lacks n x m = digit_lacks x (all-In is_ascii_digit x (print n) (print-digits n) m)

  prefix-Lacks :
      (letter : ℕ) (text : Bytes)
      → (letter == semicolon) ≡ false
      → Lacks semicolon text
      → Lacks semicolon (letter ∷ (61 ∷ text))
  prefix-Lacks letter text h k x (inl q) = rw (q) h
  prefix-Lacks letter text h k x (inr (inl q)) = rw (q) refl
  prefix-Lacks letter text h k x (inr (inr m)) = k x m

  not-true : (t : Bool) → not t ≡ true → t ≡ false
  not-true t h = ground arith

  literal-Lacks :
      (text : Bytes) → all (λ y. not (y == semicolon)) text ≡ true → Lacks semicolon text
  literal-Lacks text h x m =
      not-true (x == semicolon) (all-In (λ y. not (y == semicolon)) x text h m)

  split-join :
      (part : Bytes) (parts : List Bytes)
      → Lacks semicolon part
      → ((p : Bytes) → In p parts → Lacks semicolon p)
      → split_on semicolon (join semicolon part parts) ≡ (part, parts)
  unfolding join
  split-join part [] h each = split_on-last semicolon part h
  split-join part (next ∷ parts) h each =
      let ih = split-join next parts (each next (inl refl)) (λ p m. each p (inr m)) in
      split_on-part semicolon part (join semicolon next parts) h
      ∙ ap (λ (z : Bytes × List Bytes). (part, z.0 ∷ z.1)) ih

  written-Lacks : (r : TxtRecord) (p : Bytes) → In p (written b r) → Lacks semicolon p
  unfolding written
  written-Lacks r p (inl q) = subst (Lacks semicolon) (sym q) (literal-Lacks key_algorithm refl)
  written-Lacks r p (inr (inl q)) =
      subst (Lacks semicolon) (sym q)
        (prefix-Lacks 110 (print r.serial) refl (print-Lacks r.serial))
  written-Lacks r p (inr (inr (inl q))) =
      subst (Lacks semicolon) (sym q)
        (prefix-Lacks 103 (b.encode r.generation) refl (base64.no_semicolon r.generation))
  written-Lacks r p (inr (inr (inr (inl q)))) =
      subst (Lacks semicolon) (sym q)
        (prefix-Lacks 112 (b.encode r.document) refl (base64.no_semicolon r.document))
  written-Lacks r p (inr (inr (inr (inr m)))) = elim m [ ]

  split-display : (r : TxtRecord) → split_on semicolon (display b e r) ≡ (format_tag, written b r)
  split-display r =
      ap (split_on semicolon) (display-join r)
      ∙ split-join format_tag (written b r) (literal-Lacks format_tag refl) (written-Lacks r)

  length-display : (r : TxtRecord) → IsTxtRecord e r → length (display b e r) ≤ max_record_len
  unfolding display IsTxtRecord IsKey
  length-display r (fits, (g, d)) =
      let tail = codes "p=" ++ b.encode r.document in
      let mid = (codes "g=" ++ b.encode r.generation) ++ (semicolon ∷ tail) in
      omega (
        arith,
        length-print r.serial,
        base64.key_length r.generation g.0,
        base64.key_length r.document d.0,
        length-append (b.encode r.generation) (semicolon ∷ tail),
        length-append (print r.serial) (semicolon ∷ mid),
      )

  -- The version of a text that starts with `v=ONO`.
  split-version :
      (rest : Bytes)
      → split_on semicolon (codes "v=ONO" ++ rest)
        ≡ (codes "v=ONO" ++ (split_on semicolon rest).0, (split_on semicolon rest).1)
  unfolding split_on
  split-version rest = refl

  parse_ono0-ok :
      (raw : Bytes) (r : TxtRecord)
      → parse_ono0 b e raw ≡ ok r
      → (length raw ≤ 133) × (IsTxtRecord e r × ((split_on semicolon raw).1 ≡ written b r))
  unfolding parse_ono0
  parse_ono0-ok raw r h = split (ltb max_record_len (length raw)) refl h
    where
      split :
          (long : Bool)
          → ltb max_record_len (length raw) ≡ long
          → ◌≡◌ {A = Result ParseTxtRecordError TxtRecord}
              (if long
                then err (record_too_long (length raw) max_record_len)
                else parse_five b e (split_on semicolon raw).1)
              (ok r)
          → (length raw ≤ 133) × (IsTxtRecord e r × ((split_on semicolon raw).1 ≡ written b r))
      split true q k = cc k
      split false q k = (ground arith, five-ok b base64 e (split_on semicolon raw).1 r k)

  version-ok :
      (digits raw : Bytes) (r : TxtRecord)
      → classify_version b e digits raw ≡ ok (binding r)
      → (digits ≡ codes "0") × (parse_ono0 b e raw ≡ ok r)
  unfolding classify_version
  version-ok digits raw r h =
      split ((length digits == 0) || not (all is_ascii_digit digits)) (eq_bytes digits (codes "0"))
        refl h
    where
      split :
          (odd zero : Bool)
          → eq_bytes digits (codes "0") ≡ zero
          → ◌≡◌ {A = Result ParseTxtRecordError Classified}
              (if odd
                then ok unknown_record
                else (if not zero
                    then ok unknown_version
                    else (parse_ono0 b e raw >>= λ r. ok (binding r))))
              (ok (binding r))
          → (digits ≡ codes "0") × (parse_ono0 b e raw ≡ ok r)
      split true zero q k = cc k
      split false false q k = cc k
      split false true q k = after-ok (parse_ono0 b e raw) _ (binding r) k (λ x px k.
          let same : x ≡ r = cc k in
          (eq_bytes→eq digits (codes "0") q, subst (λ z. parse_ono0 b e raw ≡ ok z) same px))

  binding_only : (c : Classified) (r : TxtRecord) → expect_binding b e c ≡ ok r → c ≡ binding r
  unfolding expect_binding
  binding_only (binding x) r h = cc h
  binding_only unknown_record r h = cc h
  binding_only unknown_version r h = cc h

  classify-binding :
      (raw : Bytes) (r : TxtRecord)
      → classify b e raw ≡ ok (binding r)
      → (rest : Bytes) × (strip_prefix (codes "v=ONO") raw ≡ some rest)
        × (classify_version b e (split_on semicolon rest).0 raw ≡ ok (binding r))
  unfolding classify
  classify-binding raw r h = split (strip_prefix (codes "v=ONO") raw) refl h
    where
      split :
          (o : Option Bytes)
          → strip_prefix (codes "v=ONO") raw ≡ o
          → ◌≡◌ {A = Result ParseTxtRecordError Classified}
              (elim o [
                | none ↦ ok unknown_record
                | some rest ↦ classify_version b e (split_on semicolon rest).0 raw
              ])
              (ok (binding r))
          → (rest : Bytes) × (strip_prefix (codes "v=ONO") raw ≡ some rest)
            × (classify_version b e (split_on semicolon rest).0 raw ≡ ok (binding r))
      split none q k = cc k
      split (some rest) q k = (rest, q, k)

  zero_version :
      (raw : Bytes)
      → classify_version b e (codes "0") raw ≡ (parse_ono0 b e raw >>= λ r. ok (binding r))
  unfolding classify_version is_ascii_digit
  zero_version raw = refl

  parse_ono0-display : (r : TxtRecord) → IsTxtRecord e r → parse_ono0 b e (display b e r) ≡ ok r
  unfolding parse_ono0
  parse_ono0-display r valid =
      let fits : ltb max_record_len (length (display b e r)) ≡ false =
        (let l = length-display r valid in ground arith) in
      rw (parse_ono0, fits, split-display r) (five-written b base64 e r valid)

  classify-display :
      (r : TxtRecord) → IsTxtRecord e r → classify b e (display b e r) ≡ ok (binding r)
  unfolding classify display
  classify-display r valid =
      rw
        (
          classify,
          strip_prefix-append (codes "v=ONO") (codes "0" ++ (semicolon ∷ after_tag)),
          split_on-part semicolon (codes "0") after_tag (literal-Lacks (codes "0") refl),
          zero_version (display b e r),
          parse_ono0-display r valid,
        )
        refl
    where
      after_tag : Bytes
      after_tag =
          key_algorithm
          ++ (semicolon
              ∷ ((codes "n=" ++ print r.serial)
                  ++ (semicolon
                      ∷ ((codes "g=" ++ b.encode r.generation)
                          ++ (semicolon ∷ (codes "p=" ++ b.encode r.document))))))

  -- A text parses to a binding record exactly when it is the print of that record, whose keys are
  -- canonical and whose serial fits 64 bits: every such record reads back, and no other text reads as
  -- one. A text that is such a print has at most 133 bytes. And a text is refused for more than 133
  -- bytes exactly when it has more and its first field is the tag `v=ONO0`.
  pub record-parse_iff :
      (raw : Bytes) (r : TxtRecord)
      → ((parse b e raw ≡ ok r) ↔ ((raw ≡ display b e r) × IsTxtRecord e r))
        × ((((raw ≡ display b e r) × IsTxtRecord e r)
              ↔ ((length raw ≤ 133) × ((raw ≡ display b e r) × IsTxtRecord e r)))
            × ((parse b e raw ≡ err (record_too_long (length raw) 133))
                ↔ (((split_on semicolon raw).0 ≡ format_tag) × (133 < length raw))))
  unfolding parse
  record-parse_iff raw r = ((forth, back), ((λ h. (fits (back h), h), λ h. h.1), (over, under)))
    where
      over :
          parse b e raw ≡ err (record_too_long (length raw) 133)
          → ((split_on semicolon raw).0 ≡ format_tag) × (133 < length raw)
      over h =
          let (tag, (long, _)) = (parse-too_long_iff b e raw (length raw) 133).0 h in (tag, long)

      under :
          ((split_on semicolon raw).0 ≡ format_tag) × (133 < length raw)
          → parse b e raw ≡ err (record_too_long (length raw) 133)
      under (tag, long) =
          (parse-too_long_iff b e raw (length raw) 133).1 (tag, (long, (refl, refl)))

      spelled :
          (rest : Bytes)
          → raw ≡ codes "v=ONO" ++ rest
          → (split_on semicolon rest).0 ≡ codes "0"
          → (split_on semicolon raw).1 ≡ written b r
          → raw ≡ display b e r
      spelled rest at zero fields =
          let tag : (split_on semicolon raw).0 ≡ format_tag =
            ap (λ z. (split_on semicolon z).0) at
            ∙ ap (λ z. z.0) (split-version rest)
            ∙ ap (λ z. codes "v=ONO" ++ z) zero in
          sym (join-split semicolon raw)
          ∙ ap (λ z. join semicolon z (split_on semicolon raw).1) tag
          ∙ ap (join semicolon format_tag) fields
          ∙ sym (display-join r)

      fits : parse b e raw ≡ ok r → length raw ≤ 133
      fits h = after-ok (classify b e raw) _ r h (λ c pc k.
          let same = binding_only c r k in
          let (rest, p, q) =
            classify-binding raw r (subst (λ z. classify b e raw ≡ ok z) same pc) in
          (parse_ono0-ok raw r (version-ok (split_on semicolon rest).0 raw r q).1).0)

      named :
          (c : Classified)
          → classify b e raw ≡ ok c
          → c ≡ binding r
          → (raw ≡ display b e r) × IsTxtRecord e r
      named c pc same =
          let (rest, p, k) =
            classify-binding raw r (subst (λ z. classify b e raw ≡ ok z) same pc) in
          let (zero, q) = version-ok (split_on semicolon rest).0 raw r k in
          let (_, (valid, fields)) = parse_ono0-ok raw r q in
          (spelled rest (strip_prefix-some (codes "v=ONO") raw rest p) zero fields, valid)

      forth : parse b e raw ≡ ok r → (raw ≡ display b e r) × IsTxtRecord e r
      forth h = after-ok (classify b e raw) _ r h (λ c pc k. named c pc (binding_only c r k))

      back : (raw ≡ display b e r) × IsTxtRecord e r → parse b e raw ≡ ok r
      back (at, valid) =
          subst (λ z. parse b e z ≡ ok r) (sym at)
            (rw (parse, classify-display r valid, expect_binding) refl)
