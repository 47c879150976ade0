-- ===== src/Samples/Texts.antt =====
-- A text encoding of bytes that keeps the laws of base64 that the records rely on: twelve characters 50
-- and then each byte moved up by 100.
use onomancy.Prelude.{
  ℕ, zero, suc, ◌+◌, ◌-◌, ◌≡◌, refl, ap, ◌∙◌, subst, inl, inr, Bool, true, false, leb, ◌==◌,
  if◌then◌else◌, Option, none, some, [], ◌∷◌, ◌++◌, length, arith,
}
use onomancy.Core.{Bytes}
use onomancy.Text.{strip_prefix, strip_prefix-some, strip_prefix-append, Lacks}
use onomancy.Samples.{repeat}
use onomancy.Txt.{Base64, IsBase64, semicolon}

unfoldable pub raised : Bytes → Bytes
raised [] = []
raised (b ∷ bs) = (100 + b) ∷ raised bs

unfoldable pub lowered : Bytes → Option Bytes
lowered [] = some []
lowered (c ∷ cs) = elim (lowered cs) [
  | none ↦ none
  | some bs ↦ if leb 100 c then some ((c - 100) ∷ bs) else none
]

abbrev pub moved_up : Base64
moved_up = record {
  encode = λ bytes. repeat 12 50 ++ raised bytes;
  decode =
      λ text. elim (strip_prefix (repeat 12 50) text) [ none ↦ none | some rest ↦ lowered rest ];
}

lowered-raised : (bs : Bytes) → lowered (raised bs) ≡ some bs
unfolding lowered raised
lowered-raised [] = refl
lowered-raised (b ∷ bs) =
    let high : leb 100 (100 + b) ≡ true = ground arith in
    let back : (100 + b) - 100 ≡ b = omega arith in rw (lowered-raised bs, high, back) refl

raised-lowered : (text bs : Bytes) → lowered text ≡ some bs → text ≡ raised bs
unfolding lowered raised
raised-lowered [] bs h = cc h
raised-lowered (c ∷ cs) bs h = split (lowered cs) refl (leb 100 c) refl h (raised-lowered cs)
  where
    split :
        (o : Option Bytes)
        → lowered cs ≡ o
        → (t : Bool) → leb 100 c ≡ t
        → ◌≡◌ {A = Option Bytes}
            (elim o [ none ↦ none | some bs ↦ if t then some ((c - 100) ∷ bs) else none ])
            (some bs)
        → ((bs : Bytes) → lowered cs ≡ some bs → cs ≡ raised bs)
        → c ∷ cs ≡ raised bs
    split none e t f k ih = cc k
    split (some rest) e false f k ih = cc k
    split (some rest) e true f k ih =
        let q : ◌≡◌ {A = Bytes} ((c - 100) ∷ rest) bs = cc k in
        let up : 100 + (c - 100) ≡ c = ground arith in
        subst (λ z. c ∷ cs ≡ raised z) q (cc (up, ih rest e))

length-raised : (bs : Bytes) → length (raised bs) ≡ length bs
unfolding raised
length-raised [] = refl
length-raised (b ∷ bs) = ap suc (length-raised bs)

raised-Lacks : (bs : Bytes) → Lacks semicolon (raised bs)
unfolding raised
raised-Lacks [] x m = elim m [ ]
raised-Lacks (b ∷ bs) x (inl q) = rw (q) (high b)
  where
    high : (b : ℕ) → ((100 + b) == semicolon) ≡ false
    high b = ground arith
raised-Lacks (b ∷ bs) x (inr m) = raised-Lacks bs x m

filled-Lacks : (n : ℕ) (bs : Bytes) → Lacks semicolon bs → Lacks semicolon (repeat n 50 ++ bs)
filled-Lacks zero bs h x m = h x m
filled-Lacks (suc n) bs h x (inl q) = rw (q) refl
filled-Lacks (suc n) bs h x (inr m) = filled-Lacks n bs h x m

pub moved_up-IsBase64 : IsBase64 moved_up
moved_up-IsBase64 = record {
  reads_back = reads_back;
  canonical = canonical;
  key_length = λ bytes h. omega (arith, h, length-raised bytes);
  no_semicolon = λ bytes. filled-Lacks 12 (raised bytes) (raised-Lacks bytes);
}
  where
    peeled : Option Bytes → Option Bytes
    peeled o = elim o [ none ↦ none | some rest ↦ lowered rest ]

    reads_back : (bytes : Bytes) → moved_up.decode (moved_up.encode bytes) ≡ some bytes
    reads_back bytes =
        ap peeled (strip_prefix-append (repeat 12 50) (raised bytes)) ∙ lowered-raised bytes

    canonical :
        (text bytes : Bytes)
        → moved_up.decode text ≡ some bytes
        → text ≡ repeat 12 50 ++ raised bytes
    canonical text bytes h = split (strip_prefix (repeat 12 50) text) refl h
      where
        split :
            (o : Option Bytes)
            → strip_prefix (repeat 12 50) text ≡ o
            → ◌≡◌ {A = Option Bytes}
                (elim o [ none ↦ none | some rest ↦ lowered rest ])
                (some bytes)
            → text ≡ repeat 12 50 ++ raised bytes
        split none e k = cc k
        split (some rest) e k =
            strip_prefix-some (repeat 12 50) text rest e
            ∙ ap (λ z. repeat 12 50 ++ z) (raised-lowered rest bytes k)
