-- ===== src/Table/Open.antt =====
-- table/table.cc: `Table::Open` up to the table's representation.  `ReadMeta`, which it calls last,
-- has no result: it leaves the status as it is and fills the filter's fields, which are not here.
use leveldb_mcpe_dotnet.Common.{ℕ, ◌-◌, Bool, Option, none, some, List, ltb, not, if◌then◌else◌}
use leveldb_mcpe_dotnet.Crc32c.{Checksum}
use leveldb_mcpe_dotnet.Block.Reader.{Block, new_block}
use leveldb_mcpe_dotnet.Format.{
  BlockHandle, Compressor, RandomAccessFile, new_footer, decode_footer, encoded_length, read_block,
}
use leveldb_mcpe_dotnet.Status.{Status, is_ok}

-- The fields of `Table::Rep` that are set before the filter is read.
pub record Table : Type 0 where
  pub metaindex_handle : BlockHandle
  pub index_block : Block

-- The read options of `Open` have no allocator. `none` where `ReadBlock` has no defined result.
unfoldable pub open_table :
    Checksum
    → RandomAccessFile
    → List (Option Compressor)
    → Bool
    → ℕ
    → Option (Status × Option Table)
unfolding new_footer decode_footer read_block new_block
open_table c file compressors paranoid_checks size =
    let r = file.read (size - encoded_length) encoded_length in
    let (s, footer, left) = decode_footer new_footer r.contents in
    if ltb size encoded_length
    then some (Status.corruption "file is too short to be an sstable", none)
    else if not (is_ok r.status)
    then some (r.status, none)
    else if not (is_ok s)
    then some (s, none)
    else elim (read_block c file compressors paranoid_checks footer.index_handle none) [
      | none ↦ none
      | some (s', contents, allocator) ↦ some (
        s',
        if is_ok s'
            then some (record {
              metaindex_handle = footer.metaindex_handle;
              index_block = new_block contents.data_;
            })
            else none,
      )
    ]
