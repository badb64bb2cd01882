-- ===== src/Table/Laid.antt =====
-- The file that the builder leaves: its blocks and the footer.
use Prim.Native.String.{String}
use leveldb_mcpe_dotnet.Common.{
  ◌%◌, ◌^◌, true, List, [], ◌∷◌, ◌++◌, length, ◌≡◌, refl, ◌∙◌, ap, ◌==◌, Bool-cases, inl, inr, All,
}
use leveldb_mcpe_dotnet.Common.Bytes.{Bytes}
use leveldb_mcpe_dotnet.Crc32c.{Checksum}
use leveldb_mcpe_dotnet.Status.{is_ok}
use leveldb_mcpe_dotnet.Block
use leveldb_mcpe_dotnet.Block.{BlockBuilder}
use leveldb_mcpe_dotnet.Format.{BlockHandle, Footer, encode_footer}
use leveldb_mcpe_dotnet.Log.Writer.{WritableFile}
use leveldb_mcpe_dotnet.Log.Layout.{Accepts}
use leveldb_mcpe_dotnet.Table.{Options, Rep, change_options, flush, add}
use leveldb_mcpe_dotnet.Table.Finish.{
  metaindex_builder, add_last_index_entry, finish_filter, finish_metaindex, finish_index,
  finish_blocks, write_filter,
}
use leveldb_mcpe_dotnet.Table.Invariant.{Op, step, run}
use leveldb_mcpe_dotnet.Table.ReadBack.{Holds, Holds-append, Holds-cong}
use leveldb_mcpe_dotnet.Table.Written.{Compresses, flush-IsSound, add-IsSound}
use leveldb_mcpe_dotnet.Table.Finished.{
  FilterHeld, FilterHeld-append, Sound, Kept-index, Kept-trans, write_filter-Kept,
  finish_metaindex-Holds, finish_index-Holds, finish_footer-contents,
}

-- New options have a first compressor that is one.
abbrev pub IsGoodOp : Op → Type 0
IsGoodOp (Op.options_op options) = Compresses options.compressors
IsGoodOp _ = Unit {0}

module _ {ℓ} {F : Type ℓ} (file : WritableFile F) (c : Checksum) (contents : F → Bytes)
    (acc : Accepts file contents) where
  pub options-Sound :
      (r : Rep F) (options : Options)
      → Sound file c contents acc r
      → Compresses r.options.compressors
      → Compresses options.compressors
      → Sound file c contents acc (change_options r options).0
        × Compresses (change_options r options).0.options.compressors
  unfolding change_options
  options-Sound r options sound good new_good =
      elim (Bool-cases (options.comparator_address == r.options.comparator_address)) [
        | inl same ↦ rw (change_options, same) (sound, new_good)
        | inr other ↦ rw (change_options, other) (sound, good)
      ]

  pub run-Sound :
      (ops : List Op) (r : Rep F)
      → Sound file c contents acc r
      → Compresses r.options.compressors
      → All IsGoodOp ops
      → Sound file c contents acc (run file c r ops)
        × Compresses (run file c r ops).options.compressors
  unfolding run step change_options
  run-Sound [] r sound good ops_good = (sound, good)
  run-Sound (Op.add_op key value ∷ ops) r sound good ops_good =
      let (sound', same) = add-IsSound file c contents acc r key value sound good in
      run-Sound ops (add file c r key value) sound' (rw same good) ops_good.1
  run-Sound (Op.flush_op ∷ ops) r sound good ops_good =
      let (sound', same) = flush-IsSound file c contents acc r sound good in
      run-Sound ops (flush file c r) sound' (rw same good) ops_good.1
  run-Sound (Op.options_op options ∷ ops) r sound good ops_good =
      let (sound', good') = options-Sound r options sound good ops_good.0 in
      run-Sound ops (change_options r options).0 sound' good' ops_good.1

  pub finish_blocks-Holds :
      (name_bytes : String → Bytes) (r : Rep F)
      → Sound file c contents acc r
      → Compresses r.options.compressors
      → (before : Bytes) × (f : Footer) × (filter_handle : BlockHandle) × (contents
            (finish_blocks file c name_bytes r).file
          ≡ before ++ encode_footer f [])
        × (is_ok (finish_blocks file c name_bytes r).status ≡ true)
        × ((finish_blocks file c name_bytes r).offset
            ≡ length (contents (finish_blocks file c name_bytes r).file) % 2 ^ 64)
        × FilterHeld c r.options.compressors r.filter_block filter_handle before
        × Holds c r.options.compressors f.metaindex_handle
            (Block.finish
              (metaindex_builder name_bytes r.options r.filter_block filter_handle)).buffer
            before
        × Holds c r.options.compressors f.index_handle
            (Block.finish (add_last_index_entry r).index_block).buffer
            before
  unfolding finish_blocks finish_filter
  finish_blocks-Holds name_bytes r sound good =
      let r1 : Rep F = (write_filter file c r.filter_block r).0 in
      let h1 : BlockHandle = (write_filter file c r.filter_block r).1 in
      let (sound1, kept1, filter1) =
        write_filter-Kept file c contents acc r.filter_block r r.options.compressors sound in
      let r2 : Rep F = (finish_metaindex file c name_bytes r1 h1).0 in
      let h2 : BlockHandle = (finish_metaindex file c name_bytes r1 h1).1 in
      let (sound2, held2, kept2) =
        finish_metaindex-Holds file c contents acc name_bytes r1 h1 sound1 (rw kept1.2 good) in
      let r3 : Rep F = (finish_index file c r2).0 in
      let h3 : BlockHandle = (finish_index file c r2).1 in
      let (sound3, held3, grown3) =
        finish_index-Holds file c contents acc r2 sound2 (rw (kept2.2, kept1.2) good) in
      let (ok, whole, at) = finish_footer-contents file c contents acc r3 h2 h3 sound3 in
      let filter2 =
        FilterHeld-append c r.options.compressors r.filter_block h1 (contents r1.file) kept2.0
          (contents r2.file) kept2.1 filter1 in
      let filter3 =
        FilterHeld-append c r.options.compressors r.filter_block h1 (contents r2.file) grown3.0
          (contents r3.file) grown3.1 filter2 in
      let f : Footer = record { metaindex_handle = h2; index_handle = h3 } in
      let options1 : r1.options ≡ r.options = kept1.2 in
      let options2 : r2.options ≡ r.options = kept2.2 ∙ options1 in
      let metaindex : (Block.finish
            (metaindex_builder name_bytes r1.options r1.filter_block h1)).buffer
          ≡ (Block.finish (metaindex_builder name_bytes r.options r.filter_block h1)).buffer =
        rw (options1, kept1.7) refl in
      let index =
        Kept-index file c contents acc r r2 (Kept-trans file c contents acc r r1 r2 kept1 kept2) in
      let metaindex_held =
        Holds-cong c r1.options.compressors r.options.compressors h2 _ _ (contents r2.file)
          (ap (λ o. o.compressors) options1) metaindex held2 in
      let index_held =
        Holds-cong c r2.options.compressors r.options.compressors h3 _ _ (contents r3.file)
          (ap (λ o. o.compressors) options2) (ap (λ b. (Block.finish b).buffer) index) held3 in
      (
        contents r3.file,
        f,
        h1,
        whole,
        ok,
        at,
        filter3,
        rw grown3.1
            (Holds-append c r.options.compressors h2 _ (contents r2.file) grown3.0 metaindex_held),
        index_held,
      )
