-- ===== src/Carriage.antt =====
-- onomancy_core/src/delegation_chain.rs and onomancy_dnssec/src/chain.rs: the framing of delegation
-- chains and of DNSSEC chains, lists of opaque byte strings behind a count.
pub mod Delegations
pub mod Links
pub mod RoundTrip
use onomancy.Prelude.{ℕ, zero, suc, ◌≡◌, Bool, List, [], ◌∷◌, ◌++◌, length}
use onomancy.Prelude.Result.{Result, ok, err, ◌>>=◌}
use onomancy.Core.{Bytes}
use onomancy.Wire.{Varint, Read, WireError, read_bytes, put_varint, bounded_len}

-- One pass of either loop: a length, then that many bytes.
unfoldable pub read_entry : Varint → Read WireError Bytes
read_entry v reader = do (len, reader) ← bounded_len v 1 reader; read_bytes len reader

-- Either loop, for `count` entries.
unfoldable pub read_entries : Varint → ℕ → Read WireError (List Bytes)
unfolding read_entry
read_entries v zero reader = ok ([], reader)
read_entries v (suc count) reader = do
  (entry, reader) ← read_entry v reader
  (entries, reader) ← read_entries v count reader
  ok (entry ∷ entries, reader)

unfoldable pub write_entry : Varint → Bytes → Bytes
write_entry v entry = put_varint v (length entry) ++ entry

unfoldable pub write_entries : Varint → List Bytes → Bytes
unfolding write_entry
write_entries v [] = []
write_entries v (entry ∷ entries) = write_entry v entry ++ write_entries v entries
