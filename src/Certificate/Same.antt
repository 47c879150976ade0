-- ===== src/Certificate/Same.antt =====
-- `Certificate::same_certificate` of certificate.rs is equality of the signed parts.
use onomancy.Prelude.{
  ◌≡◌, ◌↔◌, refl, ap, subst, true, eqb→eq, eqb_refl, and-true, Option, none, some, List, [], ◌∷◌,
}
use onomancy.Prelude.Lex.{eq_bytes, eq_bytes→eq, eq_bytes_refl}
use onomancy.Core.{Bytes}
use onomancy.Signed.{Signed}
use onomancy.Statement.Successor.{SuccessorStatement}
use onomancy.Certificate.Binding.{Binding}
use onomancy.Certificate.Issue.{
  Certificate, same_certificate, eq_lists, eq_statement, eq_predecessor,
}

eq_lists_refl : (xs : List Bytes) → eq_lists xs xs ≡ true
unfolding eq_lists
eq_lists_refl [] = refl
eq_lists_refl (x ∷ xs) = rw (eq_bytes_refl x) (eq_lists_refl xs)

eq_lists→eq : (xs ys : List Bytes) → eq_lists xs ys ≡ true → xs ≡ ys
unfolding eq_lists
eq_lists→eq [] [] h = refl
eq_lists→eq [] (y ∷ ys) h = cc h
eq_lists→eq (x ∷ xs) [] h = cc h
eq_lists→eq (x ∷ xs) (y ∷ ys) h =
    let (p, q) = and-true (eq_bytes x y) (eq_lists xs ys) h in
    cc (eq_bytes→eq x y p, eq_lists→eq xs ys q)

eq_statement_refl : (s : SuccessorStatement) → eq_statement s s ≡ true
unfolding eq_statement
eq_statement_refl s =
    rw
      (
        eqb_refl s.digest,
        eq_bytes_refl s.signed.payload.predecessor_doc,
        eq_bytes_refl s.signed.payload.successor_doc,
        eq_bytes_refl s.signed.payload.signer,
        eq_bytes_refl s.signed.payload.hostname,
        eq_bytes_refl s.signed.signature,
      )
      (eq_lists_refl s.authority)

eq_statement→eq : (s t : SuccessorStatement) → eq_statement s t ≡ true → s ≡ t
unfolding eq_statement
eq_statement→eq s t h =
    let (a, h) = and-true _ _ h in
    let (b, h) = and-true _ _ h in
    let (c, h) = and-true _ _ h in
    let (d, h) = and-true _ _ h in
    let (f, h) = and-true _ _ h in
    let (g, h) = and-true _ _ h in
    let x = s.signed.payload in
    let y = t.signed.payload in
    cc (
      eqb→eq s.digest t.digest a,
      eq_bytes→eq x.predecessor_doc y.predecessor_doc b,
      eq_bytes→eq x.successor_doc y.successor_doc c,
      eq_bytes→eq x.signer y.signer d,
      eq_bytes→eq x.hostname y.hostname f,
      eq_bytes→eq s.signed.signature t.signed.signature g,
      eq_lists→eq s.authority t.authority h,
    )

eq_predecessor_refl : (p : Option SuccessorStatement) → eq_predecessor p p ≡ true
unfolding eq_predecessor
eq_predecessor_refl none = refl
eq_predecessor_refl (some s) = eq_statement_refl s

eq_predecessor→eq : (p q : Option SuccessorStatement) → eq_predecessor p q ≡ true → p ≡ q
unfolding eq_predecessor
eq_predecessor→eq none none h = refl
eq_predecessor→eq none (some t) h = cc h
eq_predecessor→eq (some s) none h = cc h
eq_predecessor→eq (some s) (some t) h = ap some (eq_statement→eq s t h)

same_refl : (c d : Certificate) → c.signed ≡ d.signed → same_certificate c d ≡ true
unfolding same_certificate
same_refl c d e =
    let b = c.signed.payload in
    subst
      (λ (s : Signed Binding).
        same_certificate c (record {
          digest = d.digest;
          signed = s;
          delegation_chain = d.delegation_chain;
          lineage = d.lineage;
          chain = d.chain;
        })
        ≡ true)
      e
      (rw
        (
          eq_bytes_refl b.root_doc,
          eq_bytes_refl b.signer,
          eqb_refl b.issued_at,
          eq_bytes_refl b.hostname,
          eq_lists_refl b.heads,
          eq_predecessor_refl b.predecessor,
        )
        (eq_bytes_refl c.signed.signature))

-- Two certificates are the same exactly when their signed fields and signatures are equal, whatever
-- they attach.
pub same_certificate_iff :
    (c d : Certificate) → (same_certificate c d ≡ true) ↔ (c.signed ≡ d.signed)
unfolding same_certificate
same_certificate_iff c d = (equal, same_refl c d)
  where
    equal : same_certificate c d ≡ true → c.signed ≡ d.signed
    equal h =
        let (a, h) = and-true _ _ h in
        let (b, h) = and-true _ _ h in
        let (i, h) = and-true _ _ h in
        let (n, h) = and-true _ _ h in
        let (l, h) = and-true _ _ h in
        let (p, h) = and-true _ _ h in
        let x = c.signed.payload in
        let y = d.signed.payload in
        cc (
          eq_bytes→eq x.root_doc y.root_doc a,
          eq_bytes→eq x.signer y.signer b,
          eqb→eq x.issued_at y.issued_at i,
          eq_bytes→eq x.hostname y.hostname n,
          eq_lists→eq x.heads y.heads l,
          eq_predecessor→eq x.predecessor y.predecessor p,
          eq_bytes→eq c.signed.signature d.signed.signature h,
        )
