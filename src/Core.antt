-- ===== src/Core.antt =====
-- onomancy_core: identifiers, clocks and machine words.
--
-- A document anchor, a generation key and a signer are 32 bytes compared as bytes, and so is a
-- digest: each stands here for the number that its bytes spell, most significant byte first, which
-- has the same order. A hostname is at most 253 bytes of text and stands for its rank in the byte
-- order of such texts. The code below uses nothing of any of them but equality and that order.
use onomancy.Prelude.{ℕ, ◌*◌, ◌+◌, ◌-◌, ◌^◌, List, min}

abbrev pub DocAnchor : Type 0
DocAnchor = ℕ

abbrev pub VerifyingKey : Type 0
VerifyingKey = ℕ

abbrev pub Digest : Type 0
Digest = ℕ

-- onomancy_core/src/time.rs
abbrev pub UnixSeconds : Type 0
UnixSeconds = ℕ

abbrev pub Bytes : Type 0
Bytes = List ℕ

-- onomancy_core/src/delegation_chain.rs: the carried delegations, as opaque byte strings.
abbrev pub DelegationChain : Type 0
DelegationChain = List Bytes

-- `u64::MAX` and the saturating operations.
abbrev pub u64_max : ℕ
u64_max = 2 ^ 64 - 1

unfoldable pub saturating_mul : ℕ → ℕ → ℕ
saturating_mul a b = min (a * b) u64_max

unfoldable pub saturating_add : ℕ → ℕ → ℕ
saturating_add a b = min (a + b) u64_max
