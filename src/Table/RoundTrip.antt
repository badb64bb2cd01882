-- ===== src/Table/RoundTrip.antt =====
-- A table that is finished is opened at its index.
use Prim.Native.String.{String}
use leveldb_mcpe_dotnet.Common.{
  ◌+◌, ◌-◌, Bool, true, false, Option, none, some, List, [], ◌++◌, append-nil, length,
  length-append, drop-append_length, take-length, ltb, ltb-false, ◌≡◌, refl, sym, ◌∙◌, ap, All,
  arith,
}
use leveldb_mcpe_dotnet.Common.Bytes.{Bytes, IsU64}
use mathlib.Core.Path.{subst}
use leveldb_mcpe_dotnet.Crc32c.{Checksum}
use leveldb_mcpe_dotnet.Status.{Status, is_ok}
use native.Mathlib.Nat.{mod-eq_of_lt}
use leveldb_mcpe_dotnet.FilterPolicy.{FilterPolicy}
use leveldb_mcpe_dotnet.FilterBlock
use leveldb_mcpe_dotnet.FilterBlock.{FilterBlockBuilder}
use leveldb_mcpe_dotnet.Block
use leveldb_mcpe_dotnet.Block.{BlockBuilder}
use leveldb_mcpe_dotnet.Block.Reader.{new_block}
use leveldb_mcpe_dotnet.Format.{
  BlockHandle, Footer, Compressor, RandomAccessFile, FileRead, BlockResult, new_footer,
  encode_footer, decode_footer, read_block,
}
use leveldb_mcpe_dotnet.Format.Encoded.{FitsFooter, decode_footer-encode_footer}
use leveldb_mcpe_dotnet.Log.Writer.{WritableFile}
use leveldb_mcpe_dotnet.Log.Layout.{Accepts}
use leveldb_mcpe_dotnet.Table.{Options, Rep, new_table_builder, flush}
use leveldb_mcpe_dotnet.Table.Finish.{
  metaindex_builder, add_last_index_entry, finish_blocks, finish,
}
use leveldb_mcpe_dotnet.Table.Invariant.{Op, run}
use leveldb_mcpe_dotnet.Table.Laid.{IsGoodOp, run-Sound, finish_blocks-Holds}
use leveldb_mcpe_dotnet.Table.Open.{Table, open_table}
use leveldb_mcpe_dotnet.Table.ReadBack.{Serves, Gives, Holds, Holds-append, read_block-Holds}
use leveldb_mcpe_dotnet.Table.Written.{Compresses, flush-IsSound}
use leveldb_mcpe_dotnet.Table.Finished.{
  FilterHeld, FilterHeld-append, Sound, Holds-Fits, add_last-index,
}

open_table-Holds :
    (c : Checksum) (rfile : RandomAccessFile) (before : Bytes) (f : Footer)
    (cs : List (Option Compressor)) (paranoid_checks : Bool) (raw : Bytes)
    → Serves rfile (before ++ encode_footer f [])
    → IsU64 (length (before ++ encode_footer f []))
    → FitsFooter f
    → Holds c cs f.index_handle raw before
    → open_table c rfile cs paranoid_checks (length (before ++ encode_footer f []))
      ≡ some (
        Status.ok,
        some (record { metaindex_handle = f.metaindex_handle; index_block = new_block raw }),
      )
unfolding open_table
open_table-Holds c rfile before f cs paranoid raw serves small fits holds =
    let content = before ++ encode_footer f [] in
    let (decoded, size) = decode_footer-encode_footer f new_footer [] fits in
    let len : length content ≡ length before + 48 =
      rw (length-append before (encode_footer f []), size) refl in
    let at : length content - 48 ≡ length before = omega arith in
    let r : FileRead = rfile.read (length content - 48) 48 in
    let read : r.contents ≡ encode_footer f [] =
      rw
        (
          serves.read_contents (length content - 48) 48,
          at,
          drop-append_length before (encode_footer f []),
          sym size,
        )
        (take-length (encode_footer f [])) in
    let footer : decode_footer new_footer r.contents ≡ (Status.ok, f, []) =
      rw read (rw append-nil at decoded) in
    let block =
      read_block-Holds c rfile content serves cs paranoid f.index_handle none raw small
        (Holds-append c cs f.index_handle raw before (encode_footer f []) holds) in
    let long : ltb (length content) 48 ≡ false = ltb-false (omega arith) in
    rw
      (
        open_table,
        long,
        serves.read_ok (length content - 48) 48,
        footer,
        block.1,
        block.2,
        block.3,
        footer,
      )
      refl

-- A read of the filter block, where there is one.
abbrev pub FilterGiven : Option (FilterPolicy × FilterBlockBuilder) → Option BlockResult → Type 0
FilterGiven none read = Unit {0}
FilterGiven (some (policy, b)) read = Gives read (FilterBlock.finish policy b)

filter-Given :
    (c : Checksum) (rfile : RandomAccessFile) (content : Bytes)
    → Serves rfile content
    → (cs : List (Option Compressor)) (paranoid_checks : Bool) (h : BlockHandle)
      (o : Option (FilterPolicy × FilterBlockBuilder))
    → IsU64 (length content)
    → FilterHeld c cs o h content
    → FilterGiven o (read_block c rfile cs paranoid_checks h none)
filter-Given c rfile content serves cs paranoid h none small held = tt
filter-Given c rfile content serves cs paranoid h (some (policy, b)) small held =
    read_block-Holds c rfile content serves cs paranoid h none (FilterBlock.finish policy b) small
      held

-- What there is to read in the file of `done`, for the builder `flushed` before its last blocks: the
-- table opens at the index block of the builder, the metaindex block names the handle of its filter,
-- and at that handle is the filter block.
abbrev pub OpensBack {ℓ} :
    {F : Type ℓ}
    → Checksum
    → (F → Bytes)
    → (String → Bytes)
    → RandomAccessFile
    → Bool
    → Rep F
    → Rep F
    → Type 0
OpensBack c contents name_bytes rfile paranoid_checks flushed done =
    (metaindex_handle : BlockHandle) × (filter_handle : BlockHandle) × (is_ok done.status ≡ true)
    × (done.offset ≡ length (contents done.file))
    × (open_table c rfile flushed.options.compressors paranoid_checks done.offset
        ≡ some (
          Status.ok,
          some (record {
            metaindex_handle = metaindex_handle;
            index_block =
                new_block (Block.finish (add_last_index_entry flushed).index_block).buffer;
          }),
        ))
    × Gives (read_block c rfile flushed.options.compressors paranoid_checks metaindex_handle none)
        (Block.finish
          (metaindex_builder name_bytes flushed.options flushed.filter_block filter_handle)).buffer
    × FilterGiven flushed.filter_block
        (read_block c rfile flushed.options.compressors paranoid_checks filter_handle none)

module _ {ℓ} {F : Type ℓ} (file : WritableFile F) (c : Checksum) (contents : F → Bytes)
    (acc : Accepts file contents) where
  finish_blocks-open :
      (name_bytes : String → Bytes) (r : Rep F)
      → Sound file c contents acc r
      → Compresses r.options.compressors
      → (rfile : RandomAccessFile)
      → Serves rfile (contents (finish_blocks file c name_bytes r).file)
      → IsU64 (length (contents (finish_blocks file c name_bytes r).file))
      → (paranoid_checks : Bool)
      → OpensBack c contents name_bytes rfile paranoid_checks r (finish_blocks file c name_bytes r)
  finish_blocks-open name_bytes r sound good rfile serves small paranoid =
      let (before, f, filter_handle, whole, ok, wrapped, filter, metaindex, index) =
        finish_blocks-Holds file c contents acc name_bytes r sound good in
      let at = wrapped ∙ mod-eq_of_lt small in
      let encoding = encode_footer f [] in
      let cs = r.options.compressors in
      let serves' = subst (Serves rfile) whole serves in
      let small' : IsU64 (length (before ++ encoding)) =
        subst (λ x. IsU64 (length x)) whole small in
      let small_before : IsU64 (length before) = omega (arith, length-append before encoding) in
      let fits : FitsFooter f = (
        Holds-Fits c cs f.metaindex_handle _ before metaindex small_before,
        Holds-Fits c cs f.index_handle _ before index small_before,
      ) in
      (
        f.metaindex_handle,
        filter_handle,
        ok,
        at,
        ap (λ n. open_table c rfile cs paranoid n) (at ∙ ap length whole)
            ∙ open_table-Holds c rfile before f cs paranoid _ serves' small' fits index,
        read_block-Holds c rfile (before ++ encoding) serves' cs paranoid f.metaindex_handle none _
            small' (Holds-append c cs f.metaindex_handle _ before encoding metaindex),
        filter-Given c rfile (before ++ encoding) serves' cs paranoid filter_handle r.filter_block
            small'
            (FilterHeld-append c cs r.filter_block filter_handle before encoding
              (before ++ encoding) refl filter),
      )

  closed-index :
      (r : Rep F)
      → (add_last_index_entry (record r { closed = true })).index_block
        ≡ (add_last_index_entry r).index_block
  closed-index r = add_last-index (record r { closed = true }) ∙ sym (add_last-index r)

  closed-open :
      (name_bytes : String → Bytes) (r : Rep F)
      → Sound file c contents acc r
      → Compresses r.options.compressors
      → (rfile : RandomAccessFile)
      → Serves rfile (contents (finish_blocks file c name_bytes (record r { closed = true })).file)
      → IsU64
          (length (contents (finish_blocks file c name_bytes (record r { closed = true })).file))
      → (paranoid_checks : Bool)
      → OpensBack c contents name_bytes rfile paranoid_checks r
          (finish_blocks file c name_bytes (record r { closed = true }))
  closed-open name_bytes r sound good rfile serves small paranoid =
      let q =
        finish_blocks-open name_bytes (record r { closed = true }) sound good rfile serves small
          paranoid in
      let index_opened : BlockBuilder → Option (Status × Option Table) = λ b. some (
        Status.ok,
        some (record { metaindex_handle = q.0; index_block = new_block (Block.finish b).buffer }),
      ) in
      (q.0, q.1, q.2, q.3, q.4 ∙ ap index_opened (closed-index r), q.5, q.6)

-- The builder of a new file after the calls `ops`.
abbrev pub after {ℓ} : {F : Type ℓ} → WritableFile F → Checksum → Options → F → List Op → Rep F
after file c options dest ops = run file c (new_table_builder options dest) ops

-- A table builder on a new file that accepts every write, with a first compressor that keeps its
-- contract or none, takes any calls of Add, Flush and ChangeOptions and then Finish. There is no
-- error, and the offset is the length of the file. On any file that serves what was written, below
-- 2^64 bytes, Open then succeeds with the index block that the builder has after its flush and
-- last entry, ReadBlock at the handle of the metaindex gives the metaindex block, which names a
-- handle for the filter, and ReadBlock at that handle gives the filter block, if the builder has a
-- filter policy.
pub open_table-finish {ℓ} :
    {F : Type ℓ} (file : WritableFile F) (c : Checksum) (contents : F → Bytes)
    → Accepts file contents
    → (name_bytes : String → Bytes) (options : Options) → Compresses options.compressors
    → (dest : F) → contents dest ≡ []
    → (ops : List Op) → All IsGoodOp ops
    → (rfile : RandomAccessFile)
    → Serves rfile (contents (finish file c name_bytes (after file c options dest ops)).file)
    → IsU64 (length (contents (finish file c name_bytes (after file c options dest ops)).file))
    → (paranoid_checks : Bool)
    → OpensBack c contents name_bytes rfile paranoid_checks
        (flush file c (after file c options dest ops))
        (finish file c name_bytes (after file c options dest ops))
unfolding new_table_builder finish
open_table-finish {F = F} file c contents acc name_bytes options good dest empty ops good_ops rfile
      serves small paranoid =
    let new : Rep F = new_table_builder options dest in
    let new_sound : Sound file c contents acc new = (refl, rw empty refl, refl) in
    let r : Rep F = after file c options dest ops in
    let (sound, good') = run-Sound file c contents acc ops new new_sound good good_ops in
    let (flushed_sound, same) = flush-IsSound file c contents acc r sound good' in
    closed-open file c contents acc name_bytes (flush file c r) flushed_sound (rw same good') rfile
      serves small paranoid
