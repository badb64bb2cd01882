-- ===== src/WriteBatch.antt =====
-- db/write_batch.cc: a batch of updates as one byte string, `rep`: an 8-byte sequence number, a
-- 4-byte count and the records. A handler is a state with an operation for each kind of record.
pub mod Records
pub mod Iterate
mod Tests
use leveldb_mcpe_dotnet.Common.{
  ℕ, zero, suc, ◌+◌, ◌-◌, ◌%◌, ◌^◌, Bool, true, false, Option, none, some, List, [], ◌∷◌, ◌++◌,
  length, take, drop, replicate, ltb, ◌==◌, if◌then◌else◌,
}
use mathlib.Core.Option
use leveldb_mcpe_dotnet.Common.Bytes.{Bytes}
use leveldb_mcpe_dotnet.Coding.{
  encode_fixed32, encode_fixed64, decode_fixed32, decode_fixed64, put_length_prefixed_slice,
  get_length_prefixed_slice,
}
use leveldb_mcpe_dotnet.DbFormat.{type_value, type_deletion}
use leveldb_mcpe_dotnet.Status.{Status}

abbrev pub header : ℕ
header = 12

pub record WriteBatch : Type 0 where
  pub rep : Bytes

-- `Handler`, with the state that its methods change.
pub record Handler {ℓ} (S : Type ℓ) : Type ℓ where
  pub put : S → Bytes → Bytes → S
  pub delete : S → Bytes → S

-- `memcpy` of `bytes` over `rep` from offset `at_` on.
unfoldable pub overwrite : Bytes → ℕ → Bytes → Bytes
overwrite rep offset bytes = take offset rep ++ (bytes ++ drop (offset + length bytes) rep)

unfoldable pub clear : WriteBatch
clear = record { rep = replicate header 0 }

-- An `int` stands for its 32 bits, of which the ones from 2^31 on are negative. A sum that leaves the
-- `int`s, which is undefined in the source, is reduced as the machine does.
abbrev pub add_int : ℕ → ℕ → ℕ
add_int a b = (a + b) % 2 ^ 32

unfoldable pub count : WriteBatch → ℕ
count b = decode_fixed32 (drop 8 b.rep)

-- The `int` is stored as its 32 bits.
unfoldable pub set_count : WriteBatch → ℕ → WriteBatch
set_count b n = record { rep = overwrite b.rep 8 (encode_fixed32 (n % 2 ^ 32)) }

unfoldable pub sequence : WriteBatch → ℕ
sequence b = decode_fixed64 b.rep

unfoldable pub set_sequence : WriteBatch → ℕ → WriteBatch
set_sequence b seq = record { rep = overwrite b.rep 0 (encode_fixed64 seq) }

unfoldable pub put : WriteBatch → Bytes → Bytes → WriteBatch
put b key value =
    let counted = set_count b (add_int (count b) 1) in
    let tagged = counted.rep ++ (type_value ∷ []) in
    record { rep = put_length_prefixed_slice (put_length_prefixed_slice tagged key) value }

unfoldable pub delete : WriteBatch → Bytes → WriteBatch
delete b key =
    let counted = set_count b (add_int (count b) 1) in
    let tagged = counted.rep ++ (type_deletion ∷ []) in
    record { rep = put_length_prefixed_slice tagged key }

unfoldable pub append : WriteBatch → WriteBatch → WriteBatch
append dst src =
    let counted = set_count dst (add_int (count dst) (count src)) in
    record { rep = counted.rep ++ drop header src.rep }

unfoldable pub set_contents : Bytes → WriteBatch
set_contents contents = record { rep = contents }

unfoldable pub contents : WriteBatch → Bytes
contents b = b.rep

unfoldable pub byte_size : WriteBatch → ℕ
byte_size b = length b.rep

unfoldable pub approximate_size : WriteBatch → ℕ
approximate_size b = length b.rep

module _ {ℓ} {S : Type ℓ} (h : Handler S) where
  -- One round of the `while` loop: the state and the input behind the record, or the error.
  unfoldable pub read_put : S → Bytes → Option (S × Bytes)
  read_put s input = elim (get_length_prefixed_slice input) [
    | none ↦ none
    | some (key, rest) ↦ elim (get_length_prefixed_slice rest) [
      | none ↦ none
      | some (value, rest') ↦ some (h.put s key value, rest')
    ]
  ]

  unfoldable pub read_delete : S → Bytes → Option (S × Bytes)
  read_delete s input = elim (get_length_prefixed_slice input) [
    | none ↦ none
    | some (key, rest) ↦ some (h.delete s key, rest)
  ]

  -- The loop: `none` when the fuel runs out. Each round takes the tag at least, so the length of
  -- the input is enough. The handler's state at the return comes with the status.
  unfoldable pub iterate_loop : ℕ → ℕ → S → Bytes → ℕ → Option (S × Status)
  iterate_loop fuel expected s [] found =
      if found == expected
      then some (s, Status.ok)
      else some (s, Status.corruption "WriteBatch has wrong count")
  iterate_loop zero expected s (tag ∷ input) found = none
  iterate_loop (suc fuel) expected s (tag ∷ input) found =
      if tag == type_value
      then elim (read_put s input) [
        | none ↦ some (s, Status.corruption "bad WriteBatch Put")
        | some (s', rest) ↦ iterate_loop fuel expected s' rest (add_int found 1)
      ]
      else if tag == type_deletion
      then elim (read_delete s input) [
        | none ↦ some (s, Status.corruption "bad WriteBatch Delete")
        | some (s', rest) ↦ iterate_loop fuel expected s' rest (add_int found 1)
      ]
      else some (s, Status.corruption "unknown WriteBatch tag")

  unfoldable pub iterate : WriteBatch → S → Option (S × Status)
  iterate b s =
      if ltb (length b.rep) header
      then some (s, Status.corruption "malformed WriteBatch (too small)")
      else let input = drop header b.rep in iterate_loop (length input) (count b) s input 0

-- `MemTableInserter` over a memtable given by its `Add`: the sequence number is a `uint64_t` that counts up.
module _ {ℓ} {M : Type ℓ} (add : M → ℕ → ℕ → Bytes → Bytes → M) where
  unfoldable pub inserter : Handler (ℕ × M)
  inserter = record {
    put = λ (seq, mem) key value. ((seq + 1) % 2 ^ 64, add mem seq type_value key value);
    delete = λ (seq, mem) key. ((seq + 1) % 2 ^ 64, add mem seq type_deletion key []);
  }

  unfoldable pub insert_into : WriteBatch → M → Option (M × Status)
  insert_into b mem =
      Option.map (λ (s, status). (s.1, status)) (iterate inserter b (sequence b, mem))
