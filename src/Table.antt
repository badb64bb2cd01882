-- ===== src/Table.antt =====
-- table/table_builder.cc: a table file is its data blocks, the filter block, the metaindex block, the
-- index block and the footer; and the part of table/table.cc that opens a table at its index.
-- Assertions are not part of the model.
pub mod Finish
pub mod Invariant
pub mod ReadBack
pub mod Written
pub mod Open
pub mod Finished
pub mod Laid
pub mod RoundTrip
pub mod Refusals
mod Tests
use Prim.Native.String.{String}
use leveldb_mcpe_dotnet.Common.{
  ℕ, ◌+◌, ◌-◌, ◌*◌, ◌/◌, ◌%◌, ◌^◌, Bool, true, false, Option, none, some, List, [], ◌∷◌, ◌++◌,
  length, ltb, leb, ◌==◌, not, if◌then◌else◌,
}
use leveldb_mcpe_dotnet.Common.Bytes.{Bytes}
use leveldb_mcpe_dotnet.Coding.{encode_fixed32}
use leveldb_mcpe_dotnet.Comparator.{Comparator}
use leveldb_mcpe_dotnet.Crc32c.{Checksum, value, mask}
use leveldb_mcpe_dotnet.FilterPolicy.{FilterPolicy}
use leveldb_mcpe_dotnet.FilterBlock
use leveldb_mcpe_dotnet.FilterBlock.{FilterBlockBuilder}
use leveldb_mcpe_dotnet.Block
use leveldb_mcpe_dotnet.Block.{BlockBuilder}
use leveldb_mcpe_dotnet.Format.{
  BlockHandle, Footer, Compressor, RandomAccessFile, new_block_handle, new_footer, encode_handle,
  encode_footer, decode_footer, encoded_length, block_trailer_size, read_block,
}
use leveldb_mcpe_dotnet.Log.Writer.{WritableFile}
use leveldb_mcpe_dotnet.Status.{Status, is_ok}

-- The options that the builder reads. Two comparators are the same if their addresses are.
pub record Options : Type 0 where
  pub comparator : Comparator
  pub comparator_address : ℕ
  pub block_size : ℕ
  pub block_restart_interval : ℕ
  pub compressors : List (Option Compressor)
  pub filter_policy : Option FilterPolicy

-- The options of the index block differ in the restart interval, which is 1. The builder of the
-- filter block keeps the policy that it is made with.
pub record Rep {ℓ} (F : Type ℓ) : Type ℓ where
  pub options : Options
  pub file : F
  pub offset : ℕ
  pub status : Status
  pub data_block : BlockBuilder
  pub index_block : BlockBuilder
  pub last_key : Bytes
  pub num_entries : ℕ
  pub closed : Bool
  pub filter_block : Option (FilterPolicy × FilterBlockBuilder)
  pub pending_index_entry : Bool
  pub pending_handle : BlockHandle
  pub compressed_output : Bytes

abbrev pub index_restart_interval : ℕ
index_restart_interval = 1

unfoldable pub start_filter :
    Option (FilterPolicy × FilterBlockBuilder) → ℕ → Option (FilterPolicy × FilterBlockBuilder)
start_filter none offset = none
start_filter (some (policy, b)) offset = some (policy, FilterBlock.start_block policy b offset)

unfoldable pub add_filter_key :
    Option (FilterPolicy × FilterBlockBuilder) → Bytes → Option (FilterPolicy × FilterBlockBuilder)
add_filter_key none key = none
add_filter_key (some (policy, b)) key = some (policy, FilterBlock.add_key b key)

unfoldable pub new_filter : Option FilterPolicy → Option (FilterPolicy × FilterBlockBuilder)
new_filter none = none
new_filter (some policy) = some (policy, FilterBlock.new_filter_block_builder)

unfoldable pub new_table_builder {ℓ} : {F : Type ℓ} → Options → F → Rep F
unfolding Block.new_block_builder new_block_handle
new_table_builder opt f = record {
  options = opt;
  file = f;
  offset = 0;
  status = Status.ok;
  data_block = Block.new_block_builder;
  index_block = Block.new_block_builder;
  last_key = [];
  num_entries = 0;
  closed = false;
  filter_block = start_filter (new_filter opt.filter_policy) 0;
  pending_index_entry = false;
  pending_handle = new_block_handle;
  compressed_output = [];
}

unfoldable pub change_options {ℓ} : {F : Type ℓ} → Rep F → Options → Rep F × Status
change_options r options =
    if options.comparator_address == r.options.comparator_address
    then (record r { options = options }, Status.ok)
    else (r, Status.invalid_argument "changing comparator while building table")

abbrev pub is_empty : BlockBuilder → Bool
is_empty b = length b.buffer == 0

abbrev pub first_compressor : List (Option Compressor) → Option Compressor
first_compressor [] = none
first_compressor (c ∷ cs) = c

abbrev pub compression_id : Option Compressor → ℕ
compression_id none = 0
compression_id (some c) = c.unique_compression_id

-- What `WriteBlock` stores for a block: the output of the compressor where that saves an eighth, and
-- else the block itself with no compressor; and the string that was compressed into.
unfoldable pub choose_contents : Option Compressor → Bytes → Bytes → Bytes × Option Compressor
choose_contents none raw output = (raw, none)
choose_contents (some compressor) raw output =
    let compressed = compressor.compress_impl raw output in
    if ltb (length compressed) (length raw - length raw / 8)
    then (compressed, some compressor)
    else (raw, none)

-- The type and the masked checksum.
unfoldable pub block_trailer : Checksum → Bytes → ℕ → Bytes
block_trailer c block_contents id =
    id ∷ encode_fixed32 (mask (c.extend (value c block_contents) (id ∷ [])))

-- The entry of the data block that `r->pending_handle` is about.
unfoldable pub add_index_entry {ℓ} : {F : Type ℓ} → Rep F → Bytes → Rep F
unfolding encode_handle Block.add
add_index_entry r separator = record r {
  last_key = separator;
  index_block =
      Block.add index_restart_interval r.index_block separator (encode_handle r.pending_handle []);
  pending_index_entry = false;
}

module _ {ℓ} {F : Type ℓ} (file : WritableFile F) (c : Checksum) where
  -- The handle is set before the writes, whose status is kept.
  unfoldable pub write_raw_block : Rep F → Bytes → Option Compressor → Rep F × BlockHandle
  unfolding block_trailer
  write_raw_block r block_contents compressor =
      let handle : BlockHandle = record { offset = r.offset; size = length block_contents } in
      let (f1, s1) = file.append r.file block_contents in
      let (f2, s2) = file.append f1 (block_trailer c block_contents (compression_id compressor)) in
      let offset = (r.offset + (length block_contents + block_trailer_size)) % 2 ^ 64 in
      if not (is_ok s1)
      then (record r { file = f1; status = s1 }, handle)
      else if not (is_ok s2)
      then (record r { file = f2; status = s2 }, handle)
      else (record r { file = f2; status = s2; offset = offset }, handle)

  -- The block that is written is reset.
  unfoldable pub write_block : Rep F → BlockBuilder → Rep F × BlockBuilder × BlockHandle
  unfolding choose_contents Block.finish Block.reset
  write_block r block =
      let finished = Block.finish block in
      let (block_contents, compressor) =
        choose_contents (first_compressor r.options.compressors) finished.buffer
          r.compressed_output in
      let (written, handle) = write_raw_block r block_contents compressor in
      (record written { compressed_output = [] }, Block.reset finished, handle)

  -- The block of data goes to the file, and its handle waits for the next key.
  unfoldable pub write_data_block : Rep F → Rep F
  write_data_block r =
      let (written, block, handle) = write_block r r.data_block in
      record written { data_block = block; pending_handle = handle }

  unfoldable pub flush_file : Rep F → Rep F
  flush_file r =
      let (f, s) = file.flush r.file in
      if is_ok r.status then record r { pending_index_entry = true; file = f; status = s } else r

  unfoldable pub restart_filter : Rep F → Rep F
  restart_filter r = record r { filter_block = start_filter r.filter_block r.offset }

  unfoldable pub flush : Rep F → Rep F
  unfolding write_data_block flush_file restart_filter
  flush r =
      if not (is_ok r.status)
      then r
      else if is_empty r.data_block
      then r
      else restart_filter (flush_file (write_data_block r))

  unfoldable pub add_pending : Rep F → Bytes → Rep F
  add_pending r key =
      let separator = r.options.comparator.find_shortest_separator r.last_key key in
      if r.pending_index_entry then add_index_entry r separator else r

  unfoldable pub add_entry : Rep F → Bytes → Bytes → Rep F
  unfolding add_filter_key Block.add
  add_entry r key value = record r {
    filter_block = add_filter_key r.filter_block key;
    last_key = key;
    num_entries = (r.num_entries + 1) % 2 ^ 64;
    data_block = Block.add r.options.block_restart_interval r.data_block key value;
  }

  unfoldable pub add : Rep F → Bytes → Bytes → Rep F
  unfolding add_pending add_entry Block.current_size_estimate
  add r key value =
      let added = add_entry (add_pending r key) key value in
      if not (is_ok r.status)
      then r
      else if leb added.options.block_size (Block.current_size_estimate added.data_block)
      then flush added
      else added
