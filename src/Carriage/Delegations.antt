-- ===== src/Carriage/Delegations.antt =====
-- onomancy_core/src/delegation_chain.rs: the count and the entries of a carriage.
use onomancy.Prelude.{◌++◌, length}
use onomancy.Prelude.Result.{Result, ok, ◌>>=◌}
use onomancy.Core.{Bytes, DelegationChain}
use onomancy.Wire.{Varint, Read, WireError, new_reader, finish, put_varint, bounded_len}
use onomancy.Carriage.{read_entries, write_entries}

-- `DelegationChain::decode`
unfoldable pub decode : Varint → Read WireError DelegationChain
unfolding read_entries
decode v reader = do (count, reader) ← bounded_len v 1 reader; read_entries v count reader

-- `DelegationChain::encode_into` appends these bytes.
unfoldable pub encode_into : Varint → DelegationChain → Bytes
unfolding write_entries
encode_into v chain = put_varint v (length chain) ++ write_entries v chain

unfoldable pub read_framed : Varint → Bytes → Result WireError DelegationChain
unfolding decode
read_framed v bytes = do
  reader ← new_reader bytes
  (chain, reader) ← decode v reader
  _ ← finish reader
  ok chain

unfoldable pub write_framed : Varint → DelegationChain → Bytes
unfolding encode_into
write_framed v chain = encode_into v chain
