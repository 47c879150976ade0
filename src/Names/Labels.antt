-- ===== src/Names/Labels.antt =====
-- Labels and the text they are split from: dns_name.rs.
use onomancy.Prelude.{
  ℕ, suc, ◌+◌, ◌≤◌, ◌≡◌, refl, sym, ap, ◌∙◌, subst, ◌⊎◌, inl, inr, Bool, true, false, Bool-cases,
  ◌==◌, eqb→eq, List, [], ◌∷◌, length, all, last_or, In, all-In, arith,
}
use onomancy.Prelude.Result.{ok, bind-ok, ok-injective}
use onomancy.Core.{Bytes}
use onomancy.Names.{
  dot, hyphen, is_ldh, strip_dot, split, before_last, starts_with, ends_with, validate_label,
  validate_labels, max_label_len,
}

-- The rule for a label: 1 to 63 letters, digits and hyphens, with no hyphen at either end.
pub record IsLabel (label : Bytes) : Type 0 where
  pub nonempty : 1 ≤ length label
  pub short : length label ≤ max_label_len
  pub no_first_hyphen : starts_with hyphen label ≡ false
  pub no_last_hyphen : ends_with hyphen label ≡ false
  pub ldh : (b : ℕ) → In b label → is_ldh b ≡ true

pub all-of {ℓ} :
    {A : Type ℓ} (p : A → Bool) (xs : List A) → ((x : A) → In x xs → p x ≡ true) → all p xs ≡ true
all-of p [] h = refl
all-of p (x ∷ xs) h = rw (h x (inl refl)) (all-of p xs (λ y m. h y (inr m)))

pub validate_label-IsLabel :
    (label : Bytes) (b : Bool) → validate_label label ≡ ok b → IsLabel label
unfolding validate_label
validate_label-IsLabel label b h = record {
  nonempty = ground arith;
  short = ground arith;
  no_first_hyphen = ground arith;
  no_last_hyphen = ground arith;
  ldh = λ c m. all-In is_ldh c label (ground arith) m;
}

pub IsLabel-validate_label : (label : Bytes) → IsLabel label → validate_label label ≡ ok true
unfolding validate_label
IsLabel-validate_label label h =
    let a : all is_ldh label ≡ true = all-of is_ldh label h.ldh in
    let n = h.nonempty in
    let s = h.short in let f = h.no_first_hyphen in let l = h.no_last_hyphen in ground arith

-- The last label and those before it are the labels.
pub last-In-labels : (l : Bytes) (ls : List Bytes) → In (last_or l ls) (l ∷ ls)
last-In-labels l [] = inl refl
last-In-labels l (m ∷ ms) = inr (last-In-labels m ms)

pub before_last-In : (x l : Bytes) (ls : List Bytes) → In x (before_last l ls) → In x (l ∷ ls)
unfolding before_last
before_last-In x l [] h = elim h [ ]
before_last-In x l (m ∷ ms) (inl e) = inl e
before_last-In x l (m ∷ ms) (inr h) = inr (before_last-In x m ms h)

pub In-labels-cases :
    (x l : Bytes) (ls : List Bytes) → In x (l ∷ ls) → (x ≡ last_or l ls) ⊎ In x (before_last l ls)
unfolding before_last
In-labels-cases x l [] (inl e) = inl e
In-labels-cases x l [] (inr h) = elim h [ ]
In-labels-cases x l (m ∷ ms) (inl e) = inr (inl e)
In-labels-cases x l (m ∷ ms) (inr h) = elim (In-labels-cases x m ms h) [
  | inl e ↦ inl e
  | inr k ↦ inr (inr k)
]

pub length-before_last : (l : Bytes) (ls : List Bytes) → length (before_last l ls) ≡ length ls
unfolding before_last
length-before_last l [] = refl
length-before_last l (m ∷ ms) = ap suc (length-before_last m ms)

-- The loop counts its labels, all of which are valid.
pub validate_labels-ok :
    (n count : ℕ) (labels : List Bytes)
    → validate_labels n labels ≡ ok count
    → (count ≡ n + length labels) × ((l : Bytes) → In l labels → IsLabel l)
unfolding validate_labels
validate_labels-ok n count [] h = (omega (arith, sym (ok-injective _ _ h)), λ l m. elim m [ ])
validate_labels-ok n count (label ∷ labels) h =
    let (b, v, k) = bind-ok (validate_label label) _ count h in
    let (c, each) = validate_labels-ok (n + 1) count labels k in
    (omega (arith, c), λ l m. pick each (validate_label-IsLabel label b v) l m)
  where
    pick :
        ((l : Bytes) → In l labels → IsLabel l)
        → IsLabel label
        → (l : Bytes) → (l ≡ label) ⊎ In l labels
        → IsLabel l
    pick each valid l (inl e) = subst IsLabel (sym e) valid
    pick each valid l (inr m) = each l m

pub validate_labels-valid :
    (n : ℕ) (labels : List Bytes)
    → ((l : Bytes) → In l labels → IsLabel l)
    → validate_labels n labels ≡ ok (n + length labels)
unfolding validate_labels
validate_labels-valid n [] h = ap ok (omega arith)
validate_labels-valid n (label ∷ labels) h =
    rw (IsLabel-validate_label label (h label (inl refl)))
      (validate_labels-valid (n + 1) labels (λ l m. h l (inr m)) ∙ ap ok (omega arith))

-- A text that ends in a dot ends in an empty label.
pub no_last_label : (n : Bytes) → ends_with dot n ≡ true → (d : Bytes) → last_or d (split n).1 ≡ []
unfolding split ends_with
no_last_label [] h d = cc h
no_last_label (b ∷ []) h d = rw (h) refl
no_last_label (b ∷ (c ∷ cs)) h d = elim (Bool-cases (b == dot)) [
  | inl e ↦ rw (e) (no_last_label (c ∷ cs) h (split (c ∷ cs)).0)
  | inr e ↦ rw (e) (no_last_label (c ∷ cs) h d)
]

pub strip_dot-same : (n : Bytes) → ends_with dot n ≡ false → strip_dot n ≡ n
unfolding strip_dot ends_with
strip_dot-same [] h = refl
strip_dot-same (b ∷ []) h = rw (h) refl
strip_dot-same (b ∷ (c ∷ cs)) h = ap (λ r. b ∷ r) (strip_dot-same (c ∷ cs) h)

-- A byte of a text is a dot or stands in a label.
unfoldable pub InLabel : ℕ → Bytes × List Bytes → Type 0
InLabel b labels = (b ≡ dot) ⊎ ((l : Bytes) × In l (labels.0 ∷ labels.1) × In b l)

pub In-split : (b : ℕ) (n : Bytes) → In b n → InLabel b (split n)
unfolding split InLabel
In-split b [] h = elim h [ ]
In-split b (c ∷ cs) h = elim (Bool-cases (c == dot)) [
  | inl e ↦ subst (InLabel b) (sym (cut e)) (at_dot e (λ k. In-split b cs k) h)
  | inr e ↦ subst (InLabel b) (sym (grown e)) (in_label (λ k. In-split b cs k) h)
]
  where
    cut : (c == dot) ≡ true → split (c ∷ cs) ≡ ([], (split cs).0 ∷ (split cs).1)
    cut e = rw (e) refl

    grown : (c == dot) ≡ false → split (c ∷ cs) ≡ (c ∷ (split cs).0, (split cs).1)
    grown e = rw (e) refl

    at_dot :
        (c == dot) ≡ true
        → (In b cs → InLabel b (split cs))
        → (b ≡ c) ⊎ In b cs
        → InLabel b ([], (split cs).0 ∷ (split cs).1)
    at_dot e ih (inl q) = inl (q ∙ eqb→eq c dot e)
    at_dot e ih (inr k) = elim (ih k) [ inl q ↦ inl q | inr (l, m, k) ↦ inr (l, inr m, k) ]

    in_first :
        (l : Bytes)
        → In l ((split cs).0 ∷ (split cs).1)
        → In b l
        → InLabel b (c ∷ (split cs).0, (split cs).1)
    in_first l (inl q) k = inr (c ∷ (split cs).0, inl refl, inr (subst (In b) q k))
    in_first l (inr m) k = inr (l, inr m, k)

    in_label :
        (In b cs → InLabel b (split cs))
        → (b ≡ c) ⊎ In b cs
        → InLabel b (c ∷ (split cs).0, (split cs).1)
    in_label ih (inl q) = inr (c ∷ (split cs).0, inl refl, inl q)
    in_label ih (inr k) = elim (ih k) [ inl q ↦ inl q | inr (l, m, k) ↦ in_first l m k ]
