-- ===== src/Text.antt =====
-- Operations of Rust's `str` on texts as their bytes: cutting at a separator and removing a prefix.
use Prim.Native.Char.{code}
use Prim.Native.String.{String}
use onomancy.Prelude.{
  ℕ, ◌≡◌, refl, sym, ap, ◌∙◌, inl, inr, false, Bool-cases, ◌==◌, eqb→eq, eqb_refl, if◌then◌else◌,
  Option, none, some, List, [], ◌∷◌, ◌++◌, In,
}
use onomancy.Core.{Bytes}

-- The bytes of an ASCII literal.
abbrev pub codes : String → Bytes
codes String.[] = []
codes (String.◌∷◌ c s) = code c ∷ codes s

-- `split(c)`: the first part, and the others.
unfoldable pub split_on : ℕ → Bytes → Bytes × List Bytes
split_on c [] = ([], [])
split_on c (b ∷ bs) =
    let rest = split_on c bs in if b == c then ([], rest.0 ∷ rest.1) else (b ∷ rest.0, rest.1)

-- `strip_prefix`
unfoldable pub strip_prefix : Bytes → Bytes → Option Bytes
strip_prefix [] text = some text
strip_prefix (p ∷ ps) [] = none
strip_prefix (p ∷ ps) (b ∷ bs) = let rest = strip_prefix ps bs in if b == p then rest else none

pub strip_prefix-some :
    (prefix text rest : Bytes) → strip_prefix prefix text ≡ some rest → text ≡ prefix ++ rest
unfolding strip_prefix
strip_prefix-some [] text rest h = cc h
strip_prefix-some (p ∷ ps) [] rest h = cc h
strip_prefix-some (p ∷ ps) (b ∷ bs) rest h = elim (Bool-cases (b == p)) [
  | inl e ↦
      let k : strip_prefix ps bs ≡ some rest = rw (e) at h in
      let q = eqb→eq b p e in cc (q, strip_prefix-some ps bs rest k)
  | inr e ↦ (let k : ◌≡◌ {A = Option Bytes} none (some rest) = rw (e) at h in cc k)
]

pub strip_prefix-append : (prefix rest : Bytes) → strip_prefix prefix (prefix ++ rest) ≡ some rest
unfolding strip_prefix
strip_prefix-append [] rest = refl
strip_prefix-append (p ∷ ps) rest = rw (eqb_refl p) (strip_prefix-append ps rest)

-- The parts put back together.
unfoldable pub join : ℕ → Bytes → List Bytes → Bytes
join c part [] = part
join c part (next ∷ parts) = part ++ (c ∷ join c next parts)

pub join-split : (c : ℕ) (text : Bytes) → join c (split_on c text).0 (split_on c text).1 ≡ text
unfolding split_on join
join-split c [] = refl
join-split c (b ∷ bs) = elim (Bool-cases (b == c)) [
  | inl e ↦ rw (e) (ap (λ z. c ∷ z) (join-split c bs) ∙ ap (λ z. z ∷ bs) (sym (eqb→eq b c e)))
  | inr e ↦ rw (e) (grown (split_on c bs).0 (split_on c bs).1 ∙ ap (λ z. b ∷ z) (join-split c bs))
]
  where
    grown : (part : Bytes) (parts : List Bytes) → join c (b ∷ part) parts ≡ b ∷ join c part parts
    grown part [] = refl
    grown part (next ∷ parts) = refl

-- A text with no separator in it.
abbrev pub Lacks : ℕ → Bytes → Type 0
Lacks c bs = (b : ℕ) → In b bs → (b == c) ≡ false

pub split_on-last : (c : ℕ) (part : Bytes) → Lacks c part → split_on c part ≡ (part, [])
unfolding split_on
split_on-last c [] h = refl
split_on-last c (b ∷ bs) h = rw (h b (inl refl), split_on-last c bs (λ x m. h x (inr m))) refl

pub split_on-part :
    (c : ℕ) (part text : Bytes)
    → Lacks c part
    → split_on c (part ++ (c ∷ text)) ≡ (part, (split_on c text).0 ∷ (split_on c text).1)
unfolding split_on
split_on-part c [] text h = rw (eqb_refl c) refl
split_on-part c (b ∷ bs) text h =
    rw (h b (inl refl), split_on-part c bs text (λ x m. h x (inr m))) refl
