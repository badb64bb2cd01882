-- ===== src/Block.antt =====
-- table/block_builder.h and table/block_builder.cc: the builder of a block of entries, whose keys
-- share a prefix with the key before; table/block.h and table/block.cc: the block and its iterator.
pub mod Reader
pub mod Entries
pub mod Items
pub mod Pass
pub mod Built
pub mod RoundTrip
mod Tests
use leveldb_mcpe_dotnet.Common.{
  ℕ, zero, suc, ◌+◌, ◌-◌, ◌*◌, ◌%◌, ◌^◌, Bool, true, false, List, [], ◌∷◌, ◌++◌, length, take, drop,
  ltb, if◌then◌else◌,
}
use leveldb_mcpe_dotnet.Common.Bytes.{Bytes}
use leveldb_mcpe_dotnet.Coding.{put_fixed32, put_varint32}
use leveldb_mcpe_dotnet.Comparator.{common_prefix}

pub record BlockBuilder : Type 0 where
  pub buffer : Bytes
  pub restarts : List ℕ
  pub counter : ℕ
  pub finished : Bool
  pub last_key : Bytes

unfoldable pub new_block_builder : BlockBuilder
new_block_builder = record {
  buffer = [];
  restarts = 0 ∷ [];
  counter = 0;
  finished = false;
  last_key = [];
}

unfoldable pub reset : BlockBuilder → BlockBuilder
reset b = record { buffer = []; restarts = 0 ∷ []; counter = 0; finished = false; last_key = [] }

unfoldable pub current_size_estimate : BlockBuilder → ℕ
current_size_estimate b = length b.buffer + length b.restarts * 4 + 4

unfoldable pub put_restarts : Bytes → List ℕ → Bytes
put_restarts buffer [] = buffer
put_restarts buffer (restart ∷ restarts) = put_restarts (put_fixed32 buffer restart) restarts

-- The contents are those of the buffer.
unfoldable pub finish : BlockBuilder → BlockBuilder
finish b = record b {
  buffer = put_fixed32 (put_restarts b.buffer b.restarts) (length b.restarts % 2 ^ 32);
  finished = true;
}

-- `block_restart_interval` is that of the options. The loop that counts the shared bytes is the one
-- of the bytewise comparator.
unfoldable pub add : ℕ → BlockBuilder → Bytes → Bytes → BlockBuilder
add block_restart_interval b key value =
    let sharing = ltb b.counter block_restart_interval in
    let shared = if sharing then common_prefix b.last_key key else 0 in
    let non_shared = length key - shared in
    record b {
      buffer =
          (put_varint32
              (put_varint32 (put_varint32 b.buffer (shared % 2 ^ 32)) (non_shared % 2 ^ 32))
              (length value % 2 ^ 32)
            ++ take non_shared (drop shared key))
          ++ value;
      restarts = if sharing then b.restarts else b.restarts ++ (length b.buffer % 2 ^ 32 ∷ []);
      counter = if sharing then b.counter + 1 else 1;
      last_key = take shared b.last_key ++ take non_shared (drop shared key);
    }
