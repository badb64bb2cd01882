-- ===== src/Table/Finished.antt =====
-- The steps of `Finish` on a file that accepts every write.
use Prim.Native.String.{String}
use leveldb_mcpe_dotnet.Common.{
  ◌+◌, ◌%◌, ◌^◌, Bool, true, false, Option, none, some, List, [], ◌++◌, append_assoc, append-nil,
  length, length-append, ◌≡◌, refl, sym, ◌∙◌, ap, Bool-cases, inl, inr, if◌then◌else◌, arith,
}
use leveldb_mcpe_dotnet.Common.Bytes.{Bytes, IsU64}
use mathlib.Core.Path.{subst}
use leveldb_mcpe_dotnet.Crc32c.{Checksum}
use leveldb_mcpe_dotnet.Status.{is_ok}
use leveldb_mcpe_dotnet.Block
use leveldb_mcpe_dotnet.Block.{BlockBuilder}
use leveldb_mcpe_dotnet.FilterBlock
use leveldb_mcpe_dotnet.FilterBlock.{FilterBlockBuilder}
use leveldb_mcpe_dotnet.FilterPolicy.{FilterPolicy}
use leveldb_mcpe_dotnet.Format.{BlockHandle, Compressor, encode_handle, encode_footer}
use leveldb_mcpe_dotnet.Format.Encoded.{FitsHandle}
use leveldb_mcpe_dotnet.Log.Writer.{WritableFile}
use leveldb_mcpe_dotnet.Log.Layout.{Accepts}
use leveldb_mcpe_dotnet.Table.{Options, Rep, write_block, add_index_entry, block_trailer}
use leveldb_mcpe_dotnet.Table.Finish.{
  metaindex_builder, add_last_index_entry, write_filter, finish_metaindex, finish_index,
  finish_footer,
}
use leveldb_mcpe_dotnet.Table.ReadBack.{Holds, Holds-append}
use leveldb_mcpe_dotnet.Table.Written.{
  Compresses, IsSound, Keeps, write_raw_block-Stores, write_block-Holds,
}

abbrev pub last_index : Options → BlockBuilder → Bytes → Bool → BlockHandle → BlockBuilder
last_index o index key pending handle =
    if pending
    then Block.add 1 index (o.comparator.find_short_successor key) (encode_handle handle [])
    else index

chosen-index {ℓ} :
    {F : Type ℓ} (b : Bool) (s r : Rep F)
    → (if b then s else r).index_block ≡ (if b then s.index_block else r.index_block)
chosen-index true s r = refl
chosen-index false s r = refl

pub add_last-index {ℓ} :
    {F : Type ℓ} (r : Rep F)
    → (add_last_index_entry r).index_block
      ≡ last_index r.options r.index_block r.last_key r.pending_index_entry r.pending_handle
unfolding add_last_index_entry add_index_entry
add_last-index r =
    chosen-index r.pending_index_entry
      (add_index_entry r (r.options.comparator.find_short_successor r.last_key)) r

-- The handle stands for the filter block, where there is one.
abbrev pub FilterHeld :
    Checksum
    → List (Option Compressor)
    → Option (FilterPolicy × FilterBlockBuilder)
    → BlockHandle
    → Bytes
    → Type 0
FilterHeld c compressors none h content = Unit {0}
FilterHeld c compressors (some (policy, b)) h content =
    Holds c compressors h (FilterBlock.finish policy b) content

pub FilterHeld-append :
    (c : Checksum) (compressors : List (Option Compressor))
    (o : Option (FilterPolicy × FilterBlockBuilder)) (h : BlockHandle) (content more whole : Bytes)
    → whole ≡ content ++ more
    → FilterHeld c compressors o h content
    → FilterHeld c compressors o h whole
FilterHeld-append c compressors none h content more whole e held = tt
FilterHeld-append c compressors (some (policy, b)) h content more whole e held =
    rw e (Holds-append c compressors h (FilterBlock.finish policy b) content more held)

module _ {ℓ} {F : Type ℓ} (file : WritableFile F) (c : Checksum) (contents : F → Bytes)
    (acc : Accepts file contents) where
  abbrev pub Sound : Rep F → Type 0
  Sound = IsSound file c contents acc

  abbrev pub Kept : Rep F → Rep F → Type 0
  Kept = Keeps file c contents acc

  pub Kept-index :
      (r r' : Rep F)
      → Kept r r'
      → (add_last_index_entry r').index_block ≡ (add_last_index_entry r).index_block
  Kept-index r r' (more, grown, o, i, k, p, h, f, d) =
      add_last-index r' ∙ (rw (o, i, k, p, h) refl ∙ sym (add_last-index r))

  pub Kept-trans : (r s t : Rep F) → Kept r s → Kept s t → Kept r t
  Kept-trans r s t (m, g, o, i, k, p, h, f, d) (m', g', o', i', k', p', h', f', d') = (
    m ++ m',
    g' ∙ (ap (λ x. x ++ m') g ∙ append_assoc (contents r.file) m m'),
    o' ∙ o,
    i' ∙ i,
    k' ∙ k,
    p' ∙ p,
    h' ∙ h,
    f' ∙ f,
    d' ∙ d,
  )

  -- The filter block is written as it is, whatever the compressors.
  pub write_filter-Kept :
      (o : Option (FilterPolicy × FilterBlockBuilder)) (r : Rep F)
      (compressors : List (Option Compressor))
      → Sound r
      → Sound (write_filter file c o r).0
        × Kept r (write_filter file c o r).0
        × FilterHeld c compressors o
            (write_filter file c o r).1
            (contents (write_filter file c o r).0.file)
  unfolding write_filter
  write_filter-Kept none r compressors sound = (
    sound,
    ([], sym (append-nil (contents r.file)), refl, refl, refl, refl, refl, refl, refl),
    tt,
  )
  write_filter-Kept (some (policy, b)) r compressors sound =
      let (sound', stores, kept) =
        write_raw_block-Stores file c contents acc r (FilterBlock.finish policy b) none sound in
      rw (write_filter, sound.0)
        (sound', kept, (FilterBlock.finish policy b, 0, stores, inl (refl, refl)))

  pub finish_metaindex-Holds :
      (name_bytes : String → Bytes) (r : Rep F) (h : BlockHandle)
      → Sound r
      → Compresses r.options.compressors
      → Sound (finish_metaindex file c name_bytes r h).0
        × Holds c r.options.compressors
            (finish_metaindex file c name_bytes r h).1
            (Block.finish (metaindex_builder name_bytes r.options r.filter_block h)).buffer
            (contents (finish_metaindex file c name_bytes r h).0.file)
        × Kept r (finish_metaindex file c name_bytes r h).0
  unfolding finish_metaindex
  finish_metaindex-Holds name_bytes r h sound good =
      rw (finish_metaindex, sound.0)
        (write_block-Holds file c contents acc r
          (metaindex_builder name_bytes r.options r.filter_block h) sound good)

  add_last-Sound :
      (r : Rep F)
      → Sound r
      → Sound (add_last_index_entry r)
        × ((add_last_index_entry r).options ≡ r.options)
        × ((add_last_index_entry r).file ≡ r.file)
  unfolding add_last_index_entry add_index_entry
  add_last-Sound r sound = elim (Bool-cases r.pending_index_entry) [
    | inl pending ↦ rw (add_last_index_entry, pending) (sound, refl, refl)
    | inr none_pending ↦ rw (add_last_index_entry, none_pending) (sound, refl, refl)
  ]

  pub finish_index-Holds :
      (r : Rep F)
      → Sound r
      → Compresses r.options.compressors
      → Sound (finish_index file c r).0
        × Holds c r.options.compressors
            (finish_index file c r).1
            (Block.finish (add_last_index_entry r).index_block).buffer
            (contents (finish_index file c r).0.file)
        × ((more : Bytes) × (contents (finish_index file c r).0.file ≡ contents r.file ++ more))
  unfolding finish_index
  finish_index-Holds r sound good =
      let last = add_last_index_entry r in
      let (last_sound, options, same_file) = add_last-Sound r sound in
      let (sound', held, kept) =
        write_block-Holds file c contents acc last last.index_block last_sound (rw options good) in
      let held' =
        subst
          (λ (o : Options).
            Holds c o.compressors (write_block file c last last.index_block).2
              (Block.finish last.index_block).buffer
              (contents (write_block file c last last.index_block).0.file))
          options held in
      rw (finish_index, sound.0) (sound', held', (kept.0, rw same_file at kept.1))

  pub finish_footer-contents :
      (r : Rep F) (metaindex index : BlockHandle)
      → Sound r
      → (is_ok (finish_footer file c r metaindex index).status ≡ true)
        × (contents (finish_footer file c r metaindex index).file
            ≡ contents r.file
              ++ encode_footer (record { metaindex_handle = metaindex; index_handle = index }) [])
        × ((finish_footer file c r metaindex index).offset
            ≡ length (contents (finish_footer file c r metaindex index).file) % 2 ^ 64)
  unfolding finish_footer
  finish_footer-contents r metaindex index sound =
      let encoding =
        encode_footer (record { metaindex_handle = metaindex; index_handle = index }) [] in
      let grown = acc.append_contents r.file encoding in
      rw (finish_footer, sound.0, acc.append_ok r.file encoding)
        (
          acc.append_ok r.file encoding,
          grown,
          rw (grown, length-append (contents r.file) encoding) (omega (arith, sound.1)),
        )

pub Holds-Fits :
    (c : Checksum) (cs : List (Option Compressor)) (h : BlockHandle) (raw content : Bytes)
    → Holds c cs h raw content
    → IsU64 (length content)
    → FitsHandle h
Holds-Fits c cs h raw content (stored, id, (pre, post, e, at, size), unpacks) small =
    let whole : length content
        ≡ length pre + (length stored + length (block_trailer c stored id ++ post)) =
      rw
        (
          e,
          length-append pre (stored ++ (block_trailer c stored id ++ post)),
          length-append stored (block_trailer c stored id ++ post),
        )
        refl in
    (omega arith, omega arith)
