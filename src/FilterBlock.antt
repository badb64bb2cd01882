-- ===== src/FilterBlock.antt =====
-- table/filter_block.h and table/filter_block.cc: the block of a table that holds a filter for every
-- two kilobytes of data blocks. The policy is an argument of the operations.
pub mod Builder
pub mod Blocks
pub mod Layout
pub mod Finish
pub mod Bounds
mod Tests
pub mod NoFalseNegatives
use leveldb_mcpe_dotnet.Common.{
  ℕ, zero, suc, ◌+◌, ◌-◌, ◌*◌, ◌/◌, ◌%◌, ◌^◌, Bool, true, false, List, [], ◌∷◌, ◌++◌, length, take,
  drop, get_or, ltb, leb, ◌==◌, ◌&&◌, if◌then◌else◌,
}
use leveldb_mcpe_dotnet.Common.Bytes.{Bytes}
use leveldb_mcpe_dotnet.Coding.{shr, put_fixed32, decode_fixed32}
use leveldb_mcpe_dotnet.FilterPolicy.{FilterPolicy}

abbrev pub filter_base_lg : ℕ
filter_base_lg = 11

abbrev pub filter_base : ℕ
filter_base = 2 ^ 11

-- `tmp_keys_` is a local of `GenerateFilter`, which clears it.
pub record FilterBlockBuilder : Type 0 where
  pub keys : Bytes
  pub start : List ℕ
  pub result : Bytes
  pub filter_offsets : List ℕ

unfoldable pub new_filter_block_builder : FilterBlockBuilder
new_filter_block_builder = record { keys = []; start = []; result = []; filter_offsets = [] }

-- The keys from the starting index `base` on, each up to the next index.
unfoldable pub key_slices : Bytes → ℕ → List ℕ → List Bytes
key_slices keys base [] = []
key_slices keys base (next ∷ start) =
    take (next - base) (drop base keys) ∷ key_slices keys next start

unfoldable pub put_offsets : Bytes → List ℕ → Bytes
put_offsets result [] = result
put_offsets result (offset ∷ offsets) = put_offsets (put_fixed32 result offset) offsets

-- The offset of a filter is cast to 32 bits.
module _ (policy : FilterPolicy) where
  unfoldable pub generate_filter : FilterBlockBuilder → FilterBlockBuilder
  generate_filter b =
      let offsets = b.filter_offsets ++ (length b.result % 2 ^ 32 ∷ []) in
      elim b.start [
        | [] ↦ record b { filter_offsets = offsets }
        | base ∷ start ↦ record {
          keys = [];
          start = [];
          result =
              policy.create_filter (key_slices b.keys base (start ++ (length b.keys ∷ [])))
                b.result;
          filter_offsets = offsets;
        }
      ]

  -- The loop of `StartBlock`, on fuel for the filters that are missing.
  unfoldable pub generate_until : ℕ → ℕ → FilterBlockBuilder → FilterBlockBuilder
  generate_until zero filter_index b = b
  generate_until (suc fuel) filter_index b =
      let rest = generate_until fuel filter_index (generate_filter b) in
      if ltb (length b.filter_offsets) filter_index then rest else b

  unfoldable pub start_block : FilterBlockBuilder → ℕ → FilterBlockBuilder
  start_block b block_offset =
      let filter_index = block_offset / filter_base in
      generate_until (filter_index - length b.filter_offsets) filter_index b

  unfoldable pub finish : FilterBlockBuilder → Bytes
  finish b =
      let done = if leb 1 (length b.start) then generate_filter b else b in
      let array_offset = length done.result % 2 ^ 32 in
      put_fixed32 (put_offsets done.result done.filter_offsets) array_offset
      ++ (filter_base_lg ∷ [])

unfoldable pub add_key : FilterBlockBuilder → Bytes → FilterBlockBuilder
add_key b key = record b { start = b.start ++ (length b.keys ∷ []); keys = b.keys ++ key }

-- `offset_ - data_` in place of the pointer `offset_`.
pub record FilterBlockReader : Type 0 where
  pub data_ : Bytes
  pub offset : ℕ
  pub num : ℕ
  pub base_lg : ℕ

-- The last byte is a `char`, which is negative from 128 on and becomes a `size_t`.
unfoldable pub char_to_size : ℕ → ℕ
char_to_size c = if ltb c 128 then c else 2 ^ 64 + c - 256

unfoldable pub new_filter_block_reader : Bytes → FilterBlockReader
new_filter_block_reader contents =
    let n = length contents in
    let base_lg = char_to_size (get_or contents (n - 1) 0) in
    let last_word = decode_fixed32 (drop (n - 5) contents) in
    if ltb n 5
    then record { data_ = []; offset = 0; num = 0; base_lg = 0 }
    else if ltb (n - 5) last_word
    then record { data_ = []; offset = 0; num = 0; base_lg = base_lg }
    else record {
      data_ = contents;
      offset = last_word;
      num = (n - 5 - last_word) / 4;
      base_lg = base_lg;
    }

-- The shift takes its count modulo 64, as the machine does; the source leaves a count from 64 on
-- undefined, which only a block that no builder made can ask for.
module _ (policy : FilterPolicy) where
  unfoldable pub key_may_match : FilterBlockReader → ℕ → Bytes → Bool
  key_may_match r block_offset key =
      let index = shr block_offset (r.base_lg % 64) in
      let start = decode_fixed32 (drop (r.offset + index * 4) r.data_) in
      let limit = decode_fixed32 (drop (r.offset + index * 4 + 4) r.data_) in
      if ltb index r.num
      then if leb start limit && leb limit r.offset
        then policy.key_may_match key (take (limit - start) (drop start r.data_))
        else if start == limit
        then false
        else true
      else true
