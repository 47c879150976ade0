-- ===== src/Txt/Dispositions.antt =====
-- When a TXT string is an error: `TxtRecord::classify` of onomancy_dnssec/src/txt/record.rs.
use onomancy.Prelude.{
  ℕ, ◌≡◌, ◌↔◌, refl, sym, ap, ◌∙◌, Bool, true, false, not, ◌||◌, ◌==◌, if◌then◌else◌, Option, none,
  some, List, [], ◌∷◌, ◌++◌, length, all,
}
use onomancy.Prelude.Lex.{eq_bytes, eq_bytes→eq}
use onomancy.Prelude.Result.{Result, ok, err, ◌>>=◌}
use onomancy.Core.{Bytes}
use onomancy.Keys.{Ed25519}
use onomancy.Names.{is_ascii_digit}
use onomancy.Wire.Split.{append_nil}
use onomancy.Text.{
  codes, split_on, strip_prefix, strip_prefix-some, strip_prefix-append, join, join-split,
}
use onomancy.Txt.{
  Base64, semicolon, format_tag, ParseTxtRecordError, TxtRecord, Classified, binding,
  unknown_record, unknown_version, parse_ono0, classify_version, classify,
}

-- A join starts with its first part.
join-first :
    (c : ℕ) (part : Bytes) (parts : List Bytes)
    → (tail : Bytes) × (join c part parts ≡ part ++ tail)
unfolding join
join-first c part [] = ([], sym (append_nil part))
join-first c part (next ∷ parts) = (c ∷ join c next parts, refl)

module _ (b : Base64) (e : Ed25519) where
  bound-err :
      (m : Result ParseTxtRecordError TxtRecord) (x : ParseTxtRecordError)
      → (m >>= λ r. ok (binding r)) ≡ err x
      → m ≡ err x
  bound-err (ok r) x h = cc h
  bound-err (err y) x h = cc h

  version-err :
      (digits raw : Bytes) (x : ParseTxtRecordError)
      → classify_version b e digits raw ≡ err x
      → (digits ≡ codes "0") × (parse_ono0 b e raw ≡ err x)
  unfolding classify_version
  version-err digits raw x h =
      split ((length digits == 0) || not (all is_ascii_digit digits)) (eq_bytes digits (codes "0"))
        refl h
    where
      split :
          (odd zero : Bool)
          → eq_bytes digits (codes "0") ≡ zero
          → ◌≡◌ {A = Result ParseTxtRecordError Classified}
              (if odd
                then ok unknown_record
                else (if not zero
                    then ok unknown_version
                    else (parse_ono0 b e raw >>= λ r. ok (binding r))))
              (err x)
          → (digits ≡ codes "0") × (parse_ono0 b e raw ≡ err x)
      split true zero q k = cc k
      split false false q k = cc k
      split false true q k = (eq_bytes→eq digits (codes "0") q, bound-err (parse_ono0 b e raw) x k)

  zero_version-err :
      (raw : Bytes) (x : ParseTxtRecordError)
      → parse_ono0 b e raw ≡ err x
      → classify_version b e (codes "0") raw ≡ err x
  unfolding classify_version is_ascii_digit
  zero_version-err raw x h = ap (λ m. m >>= λ r. ok (binding r)) h

  -- The version of a text that starts with `v=ONO`.
  split_tag :
      (rest : Bytes)
      → (split_on semicolon (codes "v=ONO" ++ rest)).0
        ≡ codes "v=ONO" ++ (split_on semicolon rest).0
  unfolding split_on
  split_tag rest = refl

  classify-rest :
      (rest : Bytes)
      → classify b e (codes "v=ONO" ++ rest)
        ≡ classify_version b e (split_on semicolon rest).0 (codes "v=ONO" ++ rest)
  unfolding classify
  classify-rest rest = rw (classify, strip_prefix-append (codes "v=ONO") rest) refl

  untagged : (a c : Bytes) → codes "v=ONO" ++ a ≡ codes "v=ONO" ++ c → a ≡ c
  untagged a c h = cc h

  -- A TXT string is an error exactly when its first field is the tag `v=ONO0` and its strict parse fails,
  -- and then with the error of that parse: foreign records and records of other versions never are.
  pub classify-err_iff :
      (raw : Bytes) (x : ParseTxtRecordError)
      → (classify b e raw ≡ err x)
        ↔ (((split_on semicolon raw).0 ≡ format_tag) × (parse_ono0 b e raw ≡ err x))
  unfolding classify
  classify-err_iff raw x = (λ h. split (strip_prefix (codes "v=ONO") raw) refl h, back)
    where
      split :
          (o : Option Bytes)
          → strip_prefix (codes "v=ONO") raw ≡ o
          → ◌≡◌ {A = Result ParseTxtRecordError Classified}
              (elim o [
                | none ↦ ok unknown_record
                | some rest ↦ classify_version b e (split_on semicolon rest).0 raw
              ])
              (err x)
          → ((split_on semicolon raw).0 ≡ format_tag) × (parse_ono0 b e raw ≡ err x)
      split none q k = cc k
      split (some rest) q k =
          let (zero, failed) = version-err (split_on semicolon rest).0 raw x k in
          let at = strip_prefix-some (codes "v=ONO") raw rest q in
          (
            ap (λ z. (split_on semicolon z).0) at
                ∙ split_tag rest
                ∙ ap (λ z. codes "v=ONO" ++ z) zero,
            failed,
          )

      back :
          ((split_on semicolon raw).0 ≡ format_tag) × (parse_ono0 b e raw ≡ err x)
          → classify b e raw ≡ err x
      back (tag, failed) =
          let (tail, first) =
            join-first semicolon (split_on semicolon raw).0 (split_on semicolon raw).1 in
          let at : raw ≡ codes "v=ONO" ++ (48 ∷ tail) =
            sym (join-split semicolon raw) ∙ first ∙ ap (λ z. z ++ tail) tag in
          let zero : (split_on semicolon (48 ∷ tail)).0 ≡ codes "0" =
            untagged _ _
              (sym (split_tag (48 ∷ tail)) ∙ ap (λ z. (split_on semicolon z).0) (sym at) ∙ tag) in
          let step : classify b e raw ≡ classify_version b e (codes "0") raw =
            ap (classify b e) at
            ∙ classify-rest (48 ∷ tail)
            ∙ ap (λ z. classify_version b e z (codes "v=ONO" ++ (48 ∷ tail))) zero
            ∙ ap (classify_version b e (codes "0")) (sym at) in
          step ∙ zero_version-err raw x failed
