-- ===== src/Verifier/Evidence/Extract/Untouched.antt =====
-- Extracting statements leaves the certificates' evidence alone: `validate_and_extract` of state.rs.
use onomancy.Prelude.{List, [], ◌∷◌, Option, none, some, ◌≡◌, refl, ◌∙◌, arith}
use onomancy.Core.{Digest}
use onomancy.Dnssec.Units.{Certificate, AuthorityVerifier, RotationStatement, SuccessorStatement}
use onomancy.Verifier.Evidence.{Evidence}
use onomancy.Verifier.Evidence.Extract.{
  extract_rotation, extract_successor, extract_lineage, extract_predecessor, extract_carried,
}

module _ (a : AuthorityVerifier) where
  -- Extracting statements leaves the hashes and the records alone.
  abbrev Untouched : Evidence → Evidence → Type 0
  Untouched e e' = (e'.records ≡ e.records) × (e'.held ≡ e.held)

  pub extract_rotation-Untouched :
      (o : Option Digest) (e : Evidence) (st : RotationStatement)
      → Untouched e (extract_rotation a o e st)
  unfolding extract_rotation
  extract_rotation-Untouched o e st = ground arith

  pub extract_successor-Untouched :
      (o : Option Digest) (e : Evidence) (st : SuccessorStatement)
      → Untouched e (extract_successor a o e st)
  unfolding extract_successor
  extract_successor-Untouched o e st = ground arith

  extract_lineage-Untouched :
      (o : Option Digest) (e : Evidence) (sts : List RotationStatement)
      → Untouched e (extract_lineage a o e sts)
  unfolding extract_lineage
  extract_lineage-Untouched o e [] = (refl, refl)
  extract_lineage-Untouched o e (st ∷ sts) =
      let one = extract_rotation-Untouched o e st in
      let rest = extract_lineage-Untouched o (extract_rotation a o e st) sts in
      (rest.0 ∙ one.0, rest.1 ∙ one.1)

  pub extract_carried-Untouched :
      (e : Evidence) (c : Certificate) → Untouched e (extract_carried a e c)
  unfolding extract_carried
  extract_carried-Untouched e c =
      by_predecessor c.predecessor (extract_lineage-Untouched (some c.digest) e c.lineage)
    where
      mid : Evidence
      mid = extract_lineage a (some c.digest) e c.lineage

      by_predecessor :
          (o : Option SuccessorStatement)
          → Untouched e mid
          → Untouched e (extract_predecessor a (some c.digest) mid o)
      by_predecessor none u = u
      by_predecessor (some st) u =
          let one = extract_successor-Untouched (some c.digest) mid st in (one.0 ∙ u.0, one.1 ∙ u.1)
