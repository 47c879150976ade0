-- ===== src/Wire/Laws.antt =====
-- The reads of wire.rs against the bytes they read: what a codec promises, and that the reads of the
-- reader keep it.
use onomancy.Prelude.{
  ◌&&◌, ℕ, ◌*◌, ◌≤◌, ◌≡◌, refl, sym, ap, ◌∙◌, subst, inl, inr, Bool, true, false, Bool-cases,
  Option, none, some, if◌then◌else◌, ltb, leb, ltb→lt, leb→le, and-true, [], ◌∷◌, ◌++◌, length,
  take, drop, length-append, arith,
}
use onomancy.Prelude.Result.{Result, ok, err, bind-ok, ok-injective}
use onomancy.Core.{Bytes, u64_max}
use onomancy.Wire.{
  Varint, Read, WireError, max_unit_bytes, new_reader, read_bytes, finish, check_unit_len,
  read_varint, put_varint, bounded_len, total_fits,
}
use onomancy.Wire.Split.{take-drop, length-take, take-append, drop-append, append_nil}

-- What the code relies on of `bijoux`: integers of 64 bits read back as they were written, whatever
-- follows them, and nothing else reads as an integer.
pub record IsVarint (v : Varint) : Type 0 where
  pub reads_back :
      (n : ℕ) (rest : Bytes)
      → n ≤ u64_max
      → v.decode (v.encode n ++ rest) ≡ some (n, length (v.encode n))
  pub canonical :
      (bs : Bytes) (n used : ℕ)
      → v.decode bs ≡ some (n, used)
      → (n ≤ u64_max)
        × ((used ≡ length (v.encode n)) × ((rest : Bytes) × (bs ≡ v.encode n ++ rest)))
  pub occupies : (n : ℕ) → 1 ≤ length (v.encode n)

-- A read and the bytes it reads: it accepts the encoding of a valid value, whatever follows, and
-- nothing else.
pub record IsCodec {E : Type 0} {A : Type 0} (read : Read E A) (write : A → Bytes)
    (Valid : A → Type 0) : Type 0 where
  pub sound :
      (bs : Bytes) (a : A) (rest : Bytes)
      → read bs ≡ ok (a, rest)
      → Valid a × (bs ≡ write a ++ rest)
  pub complete :
      (a : A) (rest : Bytes)
      → Valid a
      → length (write a ++ rest) ≤ max_unit_bytes
      → read (write a ++ rest) ≡ ok (a, rest)

pub length_right : (xs ys : Bytes) (n : ℕ) → length (xs ++ ys) ≤ n → length ys ≤ n
length_right xs ys n h = omega (arith, length-append xs ys)

-- `Reader::take` splits the bytes at its width.
pub read_bytes-ok :
    (need : ℕ) (bs a rest : Bytes)
    → read_bytes need bs ≡ ok (a, rest)
    → (length a ≡ need) × (bs ≡ a ++ rest)
unfolding read_bytes
read_bytes-ok need bs a rest h = split (ltb (length bs) need) refl h
  where
    split :
        (b : Bool)
        → ltb (length bs) need ≡ b
        → ◌≡◌ {A = Result WireError (Bytes × Bytes)}
            (if b
              then err (WireError.truncated need (length bs))
              else ok (take need bs, drop need bs))
            (ok (a, rest))
        → (length a ≡ need) × (bs ≡ a ++ rest)
    split true e k = cc k
    split false e k =
        let q = ok-injective _ _ k in
        let l : length (take need bs) ≡ need = length-take need bs (ground arith) in
        let s : bs ≡ take need bs ++ drop need bs = sym (take-drop need bs) in
        (
          subst (λ (z : Bytes × Bytes). length z.0 ≡ need) q l,
          subst (λ (z : Bytes × Bytes). bs ≡ z.0 ++ z.1) q s,
        )

pub read_bytes-append : (a rest : Bytes) → read_bytes (length a) (a ++ rest) ≡ ok (a, rest)
unfolding read_bytes
read_bytes-append a rest = elim (Bool-cases (ltb (length (a ++ rest)) (length a))) [
  | inl e ↦ absurd (omega (arith, ltb→lt _ _ e, length-append a rest))
  | inr e ↦ rw (e, take-append a rest, drop-append a rest) refl
]

pub read_bytes-IsCodec : (need : ℕ) → IsCodec (read_bytes need) (λ a. a) (λ a. length a ≡ need)
read_bytes-IsCodec need = record {
  sound = read_bytes-ok need;
  complete = λ a rest l h.
      subst (λ n. read_bytes n (a ++ rest) ≡ ok (a, rest)) l (read_bytes-append a rest);
}

pub finish-ok : (bs : Bytes) (b : Bool) → finish bs ≡ ok b → bs ≡ []
unfolding finish
finish-ok [] b h = refl
finish-ok (x ∷ bs) b h = ground arith

pub new_reader-ok :
    (bs rest : Bytes) → new_reader bs ≡ ok rest → (rest ≡ bs) × (length bs ≤ max_unit_bytes)
unfolding new_reader
new_reader-ok bs rest h = ground arith

pub new_reader-fits : (bs : Bytes) → length bs ≤ max_unit_bytes → new_reader bs ≡ ok bs
unfolding new_reader
new_reader-fits bs h = ground arith

pub check_unit_len-ok : (len : ℕ) (b : Bool) → check_unit_len len ≡ ok b → len ≤ max_unit_bytes
unfolding check_unit_len
check_unit_len-ok len b h = ground arith

pub check_unit_len-fits : (len : ℕ) → len ≤ max_unit_bytes → check_unit_len len ≡ ok true
unfolding check_unit_len
check_unit_len-fits len h = ground arith

module _ (v : Varint) (laws : IsVarint v) where
  pub read_varint-ok :
      (bs : Bytes) (n : ℕ) (rest : Bytes)
      → read_varint v bs ≡ ok (n, rest)
      → (n ≤ u64_max) × (bs ≡ put_varint v n ++ rest)
  unfolding read_varint put_varint
  read_varint-ok bs n rest h = split (v.decode bs) refl h
    where
      split :
          (o : Option (ℕ × ℕ))
          → v.decode bs ≡ o
          → ◌≡◌ {A = Result WireError (ℕ × Bytes)}
              (elim o [ none ↦ err WireError.varint_error | some d ↦ ok (d.0, drop d.1 bs) ])
              (ok (n, rest))
          → (n ≤ u64_max) × (bs ≡ v.encode n ++ rest)
      split none e k = cc k
      split (some d) e k =
          let q = ok-injective _ _ k in
          let (le, (used, (tail, at))) = laws.canonical bs d.0 d.1 e in
          let left : drop d.1 bs ≡ tail = rw (used, at, drop-append (v.encode d.0) tail) refl in
          let back : bs ≡ v.encode d.0 ++ drop d.1 bs = rw left at in
          (
            subst (λ (z : ℕ × Bytes). z.0 ≤ u64_max) q le,
            subst (λ (z : ℕ × Bytes). bs ≡ v.encode z.0 ++ z.1) q back,
          )

  pub read_varint-append :
      (n : ℕ) (rest : Bytes) → n ≤ u64_max → read_varint v (put_varint v n ++ rest) ≡ ok (n, rest)
  unfolding read_varint put_varint
  read_varint-append n rest h =
      rw (read_varint, laws.reads_back n rest h, drop-append (v.encode n) rest) refl

  pub read_varint-IsCodec : IsCodec (read_varint v) (put_varint v) (λ n. n ≤ u64_max)
  read_varint-IsCodec = record {
    sound = read_varint-ok;
    complete = λ n rest le h. read_varint-append n rest le;
  }

  pub length-put_varint : (n : ℕ) → 1 ≤ length (put_varint v n)
  unfolding put_varint
  length-put_varint n = laws.occupies n

  -- A bounded count fits the bytes that follow it, at its width.
  pub bounded_len-ok :
      (width : ℕ) (bs : Bytes) (n : ℕ) (rest : Bytes)
      → bounded_len v width bs ≡ ok (n, rest)
      → (n * width ≤ length rest) × ((n ≤ u64_max) × (bs ≡ put_varint v n ++ rest))
  unfolding bounded_len total_fits
  bounded_len-ok width bs n rest h =
      let (d, e, k) = bind-ok (read_varint v bs) _ (n, rest) h in
      let (fits, q) = test d (leb (d.0 * width) u64_max && leb (d.0 * width) (length d.1)) k in
      let at : read_varint v bs ≡ ok (n, rest) = subst (λ z. read_varint v bs ≡ ok z) q e in
      (
        subst (λ (z : ℕ × Bytes). z.0 * width ≤ length z.1) q (leb→le _ _ (and-true _ _ fits).1),
        read_varint-ok bs n rest at,
      )
    where
      test :
          (d : ℕ × Bytes) (b : Bool)
          → ◌≡◌ {A = Result WireError (ℕ × Bytes)}
              (if b then ok (d.0, d.1) else err (WireError.length_overrun d.0 (length d.1)))
              (ok (n, rest))
          → (b ≡ true) × (◌≡◌ {A = ℕ × Bytes} d (n, rest))
      test d true k = (refl, ok-injective _ _ k)
      test d false k = cc k

  total_fits-small :
      (n width have : ℕ) → n * width ≤ have → have ≤ max_unit_bytes → total_fits n width have ≡ true
  unfolding total_fits
  total_fits-small n width have fits cap = ground arith

  pub bounded_len-append :
      (width n : ℕ) (rest : Bytes)
      → n ≤ u64_max
      → n * width ≤ length rest
      → length rest ≤ max_unit_bytes
      → bounded_len v width (put_varint v n ++ rest) ≡ ok (n, rest)
  unfolding bounded_len
  bounded_len-append width n rest h fits cap =
      rw (read_varint-append n rest h, total_fits-small n width (length rest) fits cap) refl

-- A byte string behind its length.
module _ (v : Varint) (laws : IsVarint v) where
  pub counted_bytes-ok :
      (bs : Bytes) (len : ℕ) (r a rest : Bytes)
      → bounded_len v 1 bs ≡ ok (len, r)
      → read_bytes len r ≡ ok (a, rest)
      → (len ≡ length a) × (bs ≡ put_varint v (length a) ++ (a ++ rest))
  counted_bytes-ok bs len r a rest h k =
      let (_, (_, at)) = bounded_len-ok v laws 1 bs len r h in
      let (l, q) = read_bytes-ok len r a rest k in
      (
        sym l,
        at ∙ ap (λ z. put_varint v len ++ z) q ∙ ap (λ n. put_varint v n ++ (a ++ rest)) (sym l),
      )

  pub counted_bytes-append :
      (a rest : Bytes)
      → length (a ++ rest) ≤ max_unit_bytes
      → bounded_len v 1 (put_varint v (length a) ++ (a ++ rest)) ≡ ok (length a, a ++ rest)
  counted_bytes-append a rest small =
      bounded_len-append v laws 1 (length a) (a ++ rest) (omega (arith, length-append a rest))
        (omega (arith, length-append a rest)) small

-- The reads of a whole unit: all its bytes are read, and nothing is left.
module _ {E : Type 0} {A : Type 0} (read : Read E A) (write : A → Bytes) (Valid : A → Type 0)
    (codec : IsCodec read write Valid) where
  pub whole-ok :
      (bs reader : Bytes) (a : A) (rest : Bytes) (done : Bool)
      → new_reader bs ≡ ok reader
      → read reader ≡ ok (a, rest)
      → finish rest ≡ ok done
      → (length bs ≤ max_unit_bytes) × (Valid a × (bs ≡ write a))
  whole-ok bs reader a rest done h k f =
      let (same, cap) = new_reader-ok bs reader h in
      let (valid, at) = codec.sound bs a rest (subst (λ z. read z ≡ ok (a, rest)) same k) in
      let full : write a ++ rest ≡ write a =
        ap (λ z. write a ++ z) (finish-ok rest done f) ∙ append_nil (write a) in
      (cap, (valid, at ∙ full))

  pub whole-append :
      (a : A) → Valid a → length (write a) ≤ max_unit_bytes → read (write a) ≡ ok (a, [])
  whole-append a valid cap =
      let nil = append_nil (write a) in
      subst (λ z. read z ≡ ok (a, [])) nil
        (codec.complete a [] valid (subst (λ z. length z ≤ max_unit_bytes) (sym nil) cap))
