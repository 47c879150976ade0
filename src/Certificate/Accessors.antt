-- ===== src/Certificate/Accessors.antt =====
-- The accessors of certificates and statements, as the verifier reads them: certificate.rs,
-- statement/rotation.rs and statement/successor.rs. 32 bytes are read as the number they spell, and a
-- hostname as its rank.
use onomancy.Prelude.{ℕ, ◌+◌, ◌*◌, [], ◌∷◌, map}
use mathlib.Core.Option
use onomancy.Core.{Bytes}
use onomancy.Dnssec.Units
use onomancy.Statement.Rotation.{RotationStatement}
use onomancy.Statement.Successor.{SuccessorStatement}
use onomancy.Certificate.Issue.{Certificate}

-- The number that bytes spell after those read before.
unfoldable pub spelled_from : ℕ → Bytes → ℕ
spelled_from n [] = n
spelled_from n (b ∷ bs) = spelled_from (n * 256 + b) bs

-- The number that bytes spell, most significant byte first.
unfoldable pub spelled : Bytes → ℕ
unfolding spelled_from
spelled = spelled_from 0

unfoldable pub rotation_view : RotationStatement → onomancy.Dnssec.Units.RotationStatement
unfolding spelled
rotation_view s = record {
  digest = s.digest;
  root_doc = spelled s.signed.payload.root_doc;
  replaced = spelled s.signed.payload.replaced;
  successor = spelled s.signed.payload.successor;
  authority = s.authority;
}

module _ (rank : Bytes → ℕ) where
  unfoldable pub successor_view : SuccessorStatement → onomancy.Dnssec.Units.SuccessorStatement
  unfolding spelled
  successor_view s = record {
    digest = s.digest;
    predecessor_doc = spelled s.signed.payload.predecessor_doc;
    successor_doc = spelled s.signed.payload.successor_doc;
    signer = spelled s.signed.payload.signer;
    hostname = rank s.signed.payload.hostname;
    authority = s.authority;
  }

  unfoldable pub certificate_view : Certificate → onomancy.Dnssec.Units.Certificate
  unfolding successor_view rotation_view
  certificate_view c = record {
    digest = c.digest;
    root_doc = spelled c.signed.payload.root_doc;
    signer = spelled c.signed.payload.signer;
    issued_at = c.signed.payload.issued_at;
    hostname = rank c.signed.payload.hostname;
    heads = map spelled c.signed.payload.heads;
    predecessor = Option.map successor_view c.signed.payload.predecessor;
    delegation_chain = c.delegation_chain;
    lineage = map rotation_view c.lineage;
    dnssec_chain = c.chain;
  }
