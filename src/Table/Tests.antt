-- ===== src/Table/Tests.antt =====
-- A table of three entries in two data blocks, in a file in memory, with a compressor that writes a
-- run of one byte as its length.
use Prim.Native.String.{String}
use leveldb_mcpe_dotnet.Common.{
  ◌-◌, ◌<◌, ◌^◌, true, false, none, some, List, [], ◌∷◌, ◌++◌, length, take, replicate, get_or, ◌≡◌,
  ◌⊎◌, inr, refl, arith,
}
use leveldb_mcpe_dotnet.Common.Bytes.{Bytes}
use leveldb_mcpe_dotnet.Samples.{
  sum_checksum, memory_out, memory_out-Accepts, memory_file, memory_file-Serves,
}
use leveldb_mcpe_dotnet.Status.{Status, is_ok}
use leveldb_mcpe_dotnet.Comparator.{
  bytewise, bytewise_separator, bytewise_successor, bump_at, common_prefix,
}
use leveldb_mcpe_dotnet.Coding.{
  put_varint64, encode_varint64, encode_varint64_loop, put_fixed32, encode_fixed32, put_varint32,
  encode_varint32, decode_fixed32,
}
use leveldb_mcpe_dotnet.Common.{lt_wf, Acc-below}
use native.Mathlib.Decide.{dec_le}
use leveldb_mcpe_dotnet.Block
use leveldb_mcpe_dotnet.Crc32c.{mask, unmask, value}
use leveldb_mcpe_dotnet.Format.{
  Compressor, find_compressor, FileRead, checksum_matches, read_block, new_block_handle,
  encode_handle, encode_footer, resize, BlockResult, unpack_block, decompress_block, get_buffer,
  release,
}
use leveldb_mcpe_dotnet.FilterPolicy.{FilterPolicy}
use leveldb_mcpe_dotnet.FilterBlock
use leveldb_mcpe_dotnet.Table.{
  Options, Rep, block_trailer, flush, new_table_builder, write_raw_block, write_block,
  write_data_block, flush_file, restart_filter, start_filter, new_filter, add, add_pending,
  add_entry, add_filter_key, add_index_entry, choose_contents, change_options,
}
use leveldb_mcpe_dotnet.Table.Finish.{
  finish, finish_blocks, finish_filter, write_filter, finish_metaindex, finish_index, finish_footer,
  add_last_index_entry, metaindex_builder, filter_key,
}
use leveldb_mcpe_dotnet.Table.Invariant.{Op, run, step, IsPendingEmpty, run-new_table_builder}
use leveldb_mcpe_dotnet.Table.ReadBack.{Gives, read_block-Holds}
use leveldb_mcpe_dotnet.Table.Refusals.{Unpacked, read_block-ok, finish-failed}
use leveldb_mcpe_dotnet.Table.RoundTrip.{after, OpensBack, open_table-finish}

-- A filter of the lengths of the keys.
abbrev lengths : List Bytes → Bytes
lengths [] = []
lengths (key ∷ keys) = length key ∷ lengths keys

abbrev length_policy : FilterPolicy
length_policy = record {
  name = "lengths";
  create_filter = λ keys dst. dst ++ lengths keys;
  key_may_match = λ key filter. true;
}

abbrev options : Options
options = record {
  comparator = bytewise;
  comparator_address = 1;
  block_size = 20;
  block_restart_interval = 16;
  compressors = none ∷ [];
  filter_policy = some length_policy;
}

abbrev ops : List Op
ops =
    Op.add_op (1 ∷ 2 ∷ []) (7 ∷ [])
    ∷ Op.add_op (1 ∷ 3 ∷ []) (8 ∷ 9 ∷ [])
    ∷ Op.options_op options
    ∷ Op.add_op (2 ∷ []) []
    ∷ Op.flush_op
    ∷ []

run-new_table_builder_example :
    IsPendingEmpty (run memory_out sum_checksum (new_table_builder options []) ops)
run-new_table_builder_example = run-new_table_builder memory_out sum_checksum options [] ops

abbrev one_name : String → Bytes
one_name name = b'l' ∷ []

abbrev table_file : Bytes
table_file =
    (finish memory_out sum_checksum one_name (after memory_out sum_checksum options [] ops)).file

length-table_file : length table_file ≡ 163
unfolding finish finish_blocks finish_filter write_filter finish_metaindex finish_index
    finish_footer write_raw_block write_block flush write_data_block flush_file restart_filter
    start_filter new_filter add add_pending add_entry add_filter_key add_index_entry
    add_last_index_entry metaindex_builder choose_contents block_trailer encode_handle encode_footer
    resize put_varint64 encode_varint64 encode_varint64_loop lt_wf Acc-below dec_le put_fixed32
    encode_fixed32 put_varint32 encode_varint32 Block.new_block_builder Block.reset Block.finish
    Block.put_restarts Block.add Block.current_size_estimate common_prefix bytewise
    bytewise_separator bytewise_successor bump_at mask value new_table_builder change_options run
    step new_block_handle filter_key FilterBlock.finish FilterBlock.add_key FilterBlock.start_block
    FilterBlock.generate_until FilterBlock.generate_filter FilterBlock.key_slices
    FilterBlock.put_offsets FilterBlock.new_filter_block_builder
length-table_file = refl

open_table-finish_example :
    OpensBack sum_checksum
      (λ f. f)
      one_name
      (memory_file table_file)
      true
      (flush memory_out sum_checksum (after memory_out sum_checksum options [] ops))
      (finish memory_out sum_checksum one_name (after memory_out sum_checksum options [] ops))
open_table-finish_example =
    open_table-finish memory_out sum_checksum (λ f. f) memory_out-Accepts one_name options tt []
      refl ops (tt, (tt, (tt, (tt, (tt, tt))))) (memory_file table_file)
      (memory_file-Serves table_file) (omega (arith, length-table_file)) true

abbrev run_of_sevens : Compressor
run_of_sevens = record {
  unique_compression_id = 5;
  compress_impl = λ raw output. output ++ (length raw ∷ []);
  decompress = λ input output. (true, output ++ replicate (get_or input 0 0) 7);
}

abbrev compressed_file : Bytes
compressed_file = 1 ∷ 2 ∷ 3 ∷ block_trailer sum_checksum (3 ∷ []) 5

read_block-Holds_example :
    Gives
      (read_block sum_checksum
        (memory_file compressed_file)
        (some run_of_sevens ∷ [])
        true
        (record { offset = 2; size = 1 })
        (some []))
      (7 ∷ 7 ∷ 7 ∷ [])
unfolding block_trailer encode_fixed32 find_compressor
read_block-Holds_example =
    read_block-Holds sum_checksum (memory_file compressed_file) compressed_file
      (memory_file-Serves compressed_file) (some run_of_sevens ∷ []) true
      (record { offset = 2; size = 1 }) (some []) (7 ∷ 7 ∷ 7 ∷ []) (omega arith)
      (3 ∷ [], 5, (1 ∷ 2 ∷ [], [], refl, refl, refl), inr (run_of_sevens, refl, refl, refl))

abbrev sevens : BlockResult
sevens = (
  Status.ok,
  record { data_ = 7 ∷ 7 ∷ 7 ∷ []; cachable = true; heap_allocated = true },
  some ((7 ∷ 7 ∷ 7 ∷ []) ∷ []),
)

compressed-reads :
    read_block sum_checksum
      (memory_file compressed_file)
      (some run_of_sevens ∷ [])
      true
      (record { offset = 2; size = 1 })
      (some [])
    ≡ some sevens
unfolding read_block unpack_block decompress_block get_buffer release find_compressor
    checksum_matches unmask mask value block_trailer encode_fixed32 decode_fixed32
compressed-reads = refl

-- A handle whose size wraps around: what is read is too short to have the block.
wrapped-reads :
    read_block sum_checksum
      (memory_file compressed_file)
      []
      false
      (record { offset = 2; size = 2 ^ 64 - 2 })
      none
    ≡ none
unfolding read_block block_trailer encode_fixed32 mask value
wrapped-reads = refl

read_block-ok_example :
    (r : FileRead) × (r ≡ (memory_file compressed_file).read 2 6)
    × (6 < 2 ^ 64)
    × (is_ok r.status ≡ true)
    × (length r.contents ≡ 6)
    × ((true ≡ false) ⊎ (checksum_matches sum_checksum 1 r.contents ≡ true))
    × Unpacked
        (some run_of_sevens ∷ [])
        (get_or r.contents 1 0)
        (take 1 r.contents)
        (7 ∷ 7 ∷ 7 ∷ [])
read_block-ok_example =
    read_block-ok sum_checksum (memory_file compressed_file) (some run_of_sevens ∷ []) true
      (record { offset = 2; size = 1 }) (some []) sevens compressed-reads refl

-- A builder whose file has failed.
abbrev failed_builder : Rep Bytes
failed_builder = record (after memory_out sum_checksum options [] ops) {
  status = Status.io_error "disk full";
}

finish-failed_example :
    (add memory_out sum_checksum failed_builder (9 ∷ []) [] ≡ failed_builder)
    × (flush memory_out sum_checksum failed_builder ≡ failed_builder)
    × (finish memory_out sum_checksum one_name failed_builder
        ≡ record failed_builder { closed = true })
finish-failed_example =
    finish-failed memory_out sum_checksum one_name failed_builder (9 ∷ []) [] refl
