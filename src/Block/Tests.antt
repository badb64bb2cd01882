-- ===== src/Block/Tests.antt =====
-- A block of three entries with a restart at every second, and lengths on both paths.
use leveldb_mcpe_dotnet.Common.{some, List, [], ◌∷◌, ◌++◌, length, replicate, ◌≡◌, refl, arith}
use leveldb_mcpe_dotnet.Coding.{encode_varint32, put_varint32, put_fixed32, encode_fixed32}
use leveldb_mcpe_dotnet.Comparator.{common_prefix}
use leveldb_mcpe_dotnet.Iterator.{Entry}
use leveldb_mcpe_dotnet.Block.{new_block_builder, put_restarts, add, finish}
use leveldb_mcpe_dotnet.Block.Reader.{new_block, decode_entry}
use leveldb_mcpe_dotnet.Block.Entries.{decode_entry-lengths}
use leveldb_mcpe_dotnet.Block.Built.{add_all}
use leveldb_mcpe_dotnet.Block.RoundTrip.{read_entries, read_entries-finish}

decode_entry-lengths_example :
    decode_entry
      (encode_varint32 2 ++ (encode_varint32 1 ++ (encode_varint32 200 ++ replicate 203 7)))
    ≡ some (record { shared = 2; non_shared = 1; value_length = 200; delta = replicate 203 7 })
decode_entry-lengths_example =
    decode_entry-lengths 2 1 200 (replicate 203 7) (omega arith) (omega arith) (omega arith)
      (omega arith) (omega arith)

abbrev entries : List Entry
entries =
    (b'a' ∷ b'b' ∷ [], 1 ∷ []) ∷ (b'a' ∷ b'c' ∷ [], []) ∷ (b'a' ∷ b'c' ∷ b'd' ∷ [], 2 ∷ 3 ∷ []) ∷ []

length-block : length (finish (add_all 2 new_block_builder entries)).buffer ≡ 30
unfolding finish add_all new_block_builder add put_restarts put_fixed32 put_varint32 encode_varint32
    encode_fixed32 common_prefix
length-block = refl

read_entries-finish_example :
    read_entries (new_block (finish (add_all 2 new_block_builder entries)).buffer) 4 ≡ some entries
read_entries-finish_example =
    read_entries-finish 2 entries (ground arith) (omega (arith, length-block))
