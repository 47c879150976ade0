-- ===== src/Carriage/Links.antt =====
-- onomancy_dnssec/src/chain.rs: the count and the links of a DNSSEC chain.
use onomancy.Prelude.{◌++◌, length}
use onomancy.Prelude.Result.{Result, ok, ◌>>=◌}
use onomancy.Core.{Bytes}
use onomancy.Dnssec.Units.{DnssecChain}
use onomancy.Wire.{Varint, Read, WireError, new_reader, finish, put_varint, bounded_len}
use onomancy.Carriage.{read_entries, write_entries}

-- `DnssecChain::read`
unfoldable pub read : Varint → Read WireError DnssecChain
unfolding read_entries
read v reader = do (count, reader) ← bounded_len v 1 reader; read_entries v count reader

-- `DnssecChain::read_framed`
unfoldable pub read_framed_chain : Varint → Bytes → Result WireError DnssecChain
unfolding read
read_framed_chain v bytes = do
  reader ← new_reader bytes
  (chain, reader) ← read v reader
  _ ← finish reader
  ok chain

-- `DnssecChain::write_framed`
unfoldable pub write_framed_chain : Varint → DnssecChain → Bytes
unfolding write_entries
write_framed_chain v chain = put_varint v (length chain) ++ write_entries v chain
