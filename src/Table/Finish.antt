-- ===== src/Table/Finish.antt =====
-- `TableBuilder::Finish`: the blocks and the footer behind the data blocks.
use Prim.Native.String.{String}
use leveldb_mcpe_dotnet.Common.{
  ◌+◌, ◌%◌, ◌^◌, true, Option, none, some, [], ◌∷◌, length, not, if◌then◌else◌,
}
use leveldb_mcpe_dotnet.Common.Bytes.{Bytes}
use leveldb_mcpe_dotnet.Crc32c.{Checksum}
use leveldb_mcpe_dotnet.FilterPolicy.{FilterPolicy}
use leveldb_mcpe_dotnet.FilterBlock
use leveldb_mcpe_dotnet.FilterBlock.{FilterBlockBuilder}
use leveldb_mcpe_dotnet.Block
use leveldb_mcpe_dotnet.Block.{BlockBuilder}
use leveldb_mcpe_dotnet.Format.{BlockHandle, new_block_handle, encode_handle, encode_footer}
use leveldb_mcpe_dotnet.Log.Writer.{WritableFile}
use leveldb_mcpe_dotnet.Status.{is_ok}
use leveldb_mcpe_dotnet.Table.{Options, Rep, write_raw_block, write_block, flush, add_index_entry}

-- "filter." and the name of the policy, whose bytes `name_bytes` gives. The source reads the name of
-- the policy of the options, which it has if there is a filter block and they were not changed.
unfoldable pub filter_key : (String → Bytes) → Option FilterPolicy → Bytes
filter_key name_bytes policy =
    let name : Bytes = elim policy [ none ↦ [] | some p ↦ name_bytes p.name ] in
    b'f' ∷ b'i' ∷ b'l' ∷ b't' ∷ b'e' ∷ b'r' ∷ b'.' ∷ name

unfoldable pub metaindex_builder :
    (String → Bytes)
    → Options
    → Option (FilterPolicy × FilterBlockBuilder)
    → BlockHandle
    → BlockBuilder
unfolding Block.new_block_builder Block.add encode_handle filter_key
metaindex_builder name_bytes options none handle = Block.new_block_builder
metaindex_builder name_bytes options (some b) handle =
    Block.add options.block_restart_interval Block.new_block_builder
      (filter_key name_bytes options.filter_policy) (encode_handle handle [])

unfoldable pub add_last_index_entry {ℓ} : {F : Type ℓ} → Rep F → Rep F
unfolding add_index_entry
add_last_index_entry r =
    let successor = r.options.comparator.find_short_successor r.last_key in
    if r.pending_index_entry then add_index_entry r successor else r

module _ {ℓ} {F : Type ℓ} (file : WritableFile F) (c : Checksum) where
  unfoldable pub write_filter :
      Option (FilterPolicy × FilterBlockBuilder) → Rep F → Rep F × BlockHandle
  unfolding FilterBlock.finish write_raw_block new_block_handle
  write_filter none r = (r, new_block_handle)
  write_filter (some (policy, b)) r =
      if is_ok r.status
      then write_raw_block file c r (FilterBlock.finish policy b) none
      else (r, new_block_handle)

  unfoldable pub finish_filter : Rep F → Rep F × BlockHandle
  unfolding write_filter
  finish_filter r = write_filter r.filter_block r

  unfoldable pub finish_metaindex : (String → Bytes) → Rep F → BlockHandle → Rep F × BlockHandle
  unfolding write_block metaindex_builder new_block_handle
  finish_metaindex name_bytes r filter_handle =
      let (written, block, handle) =
        write_block file c r
          (metaindex_builder name_bytes r.options r.filter_block filter_handle) in
      if is_ok r.status then (written, handle) else (r, new_block_handle)

  unfoldable pub finish_index : Rep F → Rep F × BlockHandle
  unfolding write_block add_last_index_entry new_block_handle
  finish_index r =
      let last = add_last_index_entry r in
      let (written, block, handle) = write_block file c last last.index_block in
      if is_ok r.status
      then (record written { index_block = block }, handle)
      else (r, new_block_handle)

  unfoldable pub finish_footer : Rep F → BlockHandle → BlockHandle → Rep F
  unfolding encode_footer
  finish_footer r metaindex_handle index_handle =
      let encoding =
        encode_footer (record { metaindex_handle = metaindex_handle; index_handle = index_handle })
          [] in
      let (f, s) = file.append r.file encoding in
      if not (is_ok r.status)
      then r
      else if is_ok s
      then record r { file = f; status = s; offset = (r.offset + length encoding) % 2 ^ 64 }
      else record r { file = f; status = s }

  unfoldable pub finish_blocks : (String → Bytes) → Rep F → Rep F
  unfolding finish_filter finish_metaindex finish_index finish_footer
  finish_blocks name_bytes r =
      let (r1, filter_handle) = finish_filter r in
      let (r2, metaindex_handle) = finish_metaindex name_bytes r1 filter_handle in
      let (r3, index_handle) = finish_index r2 in finish_footer r3 metaindex_handle index_handle

  -- The builder that is left, whose status is returned.
  unfoldable pub finish : (String → Bytes) → Rep F → Rep F
  unfolding flush finish_blocks
  finish name_bytes r = finish_blocks name_bytes (record (flush file c r) { closed = true })

-- The builder gives up what it has not written.
unfoldable pub abandon {ℓ} : {F : Type ℓ} → Rep F → Rep F
abandon r = record r { closed = true }
