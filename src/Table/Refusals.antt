-- ===== src/Table/Refusals.antt =====
-- What is refused: blocks that were not stored whole, and work after an error.
use Prim.Native.String.{String}
use leveldb_mcpe_dotnet.Common.{
  ℕ, ◌+◌, ◌%◌, ◌^◌, Bool, true, false, Option, none, some, List, [], ◌∷◌, length, take, get_or, ◌≡◌,
  ◌⊎◌, inl, inr, refl, sym, ◌∙◌, ap, ◌==◌, not, ◌&&◌, leb, if◌then◌else◌, Bool-cases, Option-cases,
  arith,
}
use leveldb_mcpe_dotnet.Common.Bytes.{Bytes, IsU64}
use mathlib.Core.Option.{some-injective}
use leveldb_mcpe_dotnet.Crc32c.{Checksum}
use leveldb_mcpe_dotnet.Status.{Status, is_ok}
use leveldb_mcpe_dotnet.Format.{
  BlockHandle, Compressor, RandomAccessFile, FileRead, BlockResult, get_buffer, find_compressor,
  decompress_block, unpack_block, checksum_matches, read_block, new_block_handle, release,
  no_contents,
}
use leveldb_mcpe_dotnet.FilterPolicy.{FilterPolicy}
use leveldb_mcpe_dotnet.FilterBlock.{FilterBlockBuilder}
use leveldb_mcpe_dotnet.Log.Writer.{WritableFile}
use leveldb_mcpe_dotnet.Table.{Rep, flush, add}
use leveldb_mcpe_dotnet.Table.Finish.{
  write_filter, finish_filter, finish_metaindex, finish_index, finish_footer, finish_blocks, finish,
}

-- What a block of stored bytes `stored` and type `id` is.
abbrev pub Unpacked : List (Option Compressor) → ℕ → Bytes → Bytes → Type 0
Unpacked compressors id stored data_ =
    ((id ≡ 0) × (data_ ≡ stored))
    ⊎ ((k : Compressor) × (find_compressor compressors id ≡ some k)
        × (k.decompress stored [] ≡ (true, data_)))

-- How `decompress_block` ends.
abbrev outcome : Bool → Bytes → Option (List Bytes) → BlockResult
outcome success buffer allocator =
    if success
    then (Status.ok, record { data_ = buffer; cachable = true; heap_allocated = true }, allocator)
    else (Status.corruption "corrupted compressed block contents", no_contents, allocator)

outcome-ok :
    (success : Bool) (buffer : Bytes) (allocator : Option (List Bytes))
    → is_ok (outcome success buffer allocator).0 ≡ true
    → Path (Bool × Bytes) (success, buffer) (true, (outcome success buffer allocator).1.data_)
outcome-ok true buffer allocator h = refl
outcome-ok false buffer allocator h = absurd (cc h)

decompress_block-ok :
    (k : Compressor) (stored : Bytes) (allocator : Option (List Bytes))
    → is_ok (decompress_block k stored allocator).0 ≡ true
    → k.decompress stored [] ≡ (true, (decompress_block k stored allocator).1.data_)
unfolding decompress_block get_buffer release
decompress_block-ok k stored none h =
    outcome-ok (k.decompress stored []).0 (k.decompress stored []).1 none h
decompress_block-ok k stored (some []) h =
    let p = k.decompress stored [] in outcome-ok p.0 p.1 (some (p.1 ∷ [])) h
decompress_block-ok k stored (some (b ∷ bs)) h =
    let p = k.decompress stored [] in outcome-ok p.0 p.1 (some (p.1 ∷ bs)) h

unpack_block-ok :
    (compressors : List (Option Compressor)) (n : ℕ) (r : FileRead)
    (allocator : Option (List Bytes))
    → is_ok (unpack_block compressors n r allocator).0 ≡ true
    → Unpacked compressors
        (get_or r.contents n 0)
        (take n r.contents)
        (unpack_block compressors n r allocator).1.data_
unfolding unpack_block
unpack_block-ok compressors n r allocator h = elim (Bool-cases (get_or r.contents n 0 == 0)) [
  | inl plain ↦ inl (ground arith, rw plain refl)
  | inr packed ↦ elim (Option-cases (find_compressor compressors (get_or r.contents n 0))) [
    | inl unknown ↦ absurd (cc (rw (packed, unknown) at h))
    | inr (k, found) ↦
        let same : unpack_block compressors n r allocator
            ≡ decompress_block k (take n r.contents) allocator =
          rw (packed, found) refl in
        let done = decompress_block-ok k (take n r.contents) allocator (rw same at h) in
        inr (k, found, rw same done)
  ]
]

-- For every file and handle, if ReadBlock has a defined result and that is a success, then the
-- size of the block with its trailer is below 2^64, the read of as many bytes succeeded and gave
-- all of them, the checksum matches if it was to be verified, and the data are the stored bytes if
-- their type is 0, or else what the compressor that is found for the type decompresses them to.
pub read_block-ok :
    (c : Checksum) (file : RandomAccessFile) (compressors : List (Option Compressor))
    (verify_checksums : Bool) (h : BlockHandle) (allocator : Option (List Bytes))
    (result : BlockResult)
    → read_block c file compressors verify_checksums h allocator ≡ some result
    → is_ok result.0 ≡ true
    → (r : FileRead) × (r ≡ file.read h.offset (h.size + 5))
      × IsU64 (h.size + 5)
      × (is_ok r.status ≡ true)
      × (length r.contents ≡ h.size + 5)
      × ((verify_checksums ≡ false) ⊎ (checksum_matches c h.size r.contents ≡ true))
      × Unpacked compressors (get_or r.contents h.size 0) (take h.size r.contents) result.1.data_
unfolding read_block
read_block-ok c file compressors verify h allocator result e good =
    let n = (h.size + 5) % 2 ^ 64 in
    let r : FileRead = file.read h.offset n in
    elim (Bool-cases (is_ok r.status)) [
      | inr failed ↦ absurd (cc (sym failed, rw (read_block, failed) at e, good))
      | inl read ↦ elim (Bool-cases (length r.contents == n)) [
        | inr truncated ↦ absurd (cc (rw (read_block, read, truncated) at e, good))
        | inl full ↦ elim (Bool-cases (leb (2 ^ 64) (h.size + 5))) [
          | inl wrapped ↦ absurd (cc (rw (read_block, read, full, wrapped) at e))
          | inr below ↦ elim (Bool-cases (verify && not (checksum_matches c h.size r.contents))) [
            | inl mismatch ↦ absurd (cc (rw (read_block, read, full, below, mismatch) at e, good))
            | inr matches ↦
                let same : unpack_block compressors h.size r allocator ≡ result =
                  some-injective _ _ (rw (read_block, read, full, below, matches) at e) in
                let small : IsU64 (h.size + 5) = ground arith in
                let whole : n ≡ h.size + 5 = omega arith in
                let unpacked = unpack_block-ok compressors h.size r allocator (rw same good) in
                (r, rw whole refl, small, read, ground arith, ground arith, rw same at unpacked)
          ]
        ]
      ]
    ]

module _ {ℓ} {F : Type ℓ} (file : WritableFile F) (c : Checksum) where
  write_filter-failed :
      (o : Option (FilterPolicy × FilterBlockBuilder)) (r : Rep F)
      → is_ok r.status ≡ false
      → write_filter file c o r ≡ (r, new_block_handle)
  unfolding write_filter
  write_filter-failed none r h = refl
  write_filter-failed (some b) r h = rw h refl

  finish_metaindex-failed :
      (name_bytes : String → Bytes) (r : Rep F) (handle : BlockHandle)
      → is_ok r.status ≡ false
      → finish_metaindex file c name_bytes r handle ≡ (r, new_block_handle)
  unfolding finish_metaindex
  finish_metaindex-failed name_bytes r handle h = rw h refl

  finish_index-failed :
      (r : Rep F) → is_ok r.status ≡ false → finish_index file c r ≡ (r, new_block_handle)
  unfolding finish_index
  finish_index-failed r h = rw h refl

  finish_blocks-failed :
      (name_bytes : String → Bytes) (r : Rep F)
      → is_ok r.status ≡ false
      → finish_blocks file c name_bytes r ≡ r
  unfolding finish_blocks finish_filter finish_footer
  finish_blocks-failed name_bytes r h =
      rw
        (
          finish_blocks,
          finish_filter,
          write_filter-failed r.filter_block r h,
          finish_metaindex-failed name_bytes r new_block_handle h,
          finish_index-failed r h,
          finish_footer,
          h,
        )
        refl

  -- On any file, once the table builder has an error, Add and Flush leave it as it is, and Finish
  -- only closes it: nothing more is written, and the error stays.
  pub finish-failed :
      (name_bytes : String → Bytes) (r : Rep F) (key value : Bytes)
      → is_ok r.status ≡ false
      → (add file c r key value ≡ r)
        × (flush file c r ≡ r)
        × (finish file c name_bytes r ≡ record r { closed = true })
  unfolding add flush finish
  finish-failed name_bytes r key value h =
      let flushed : flush file c r ≡ r = rw (flush, h) refl in
      (
        rw (add, h) refl,
        flushed,
        ap (λ (s : Rep F). finish_blocks file c name_bytes (record s { closed = true })) flushed
            ∙ finish_blocks-failed name_bytes (record r { closed = true }) h,
      )
