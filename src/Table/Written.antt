-- ===== src/Table/Written.antt =====
-- What the builder writes to a file that accepts every write.
use leveldb_mcpe_dotnet.Common.{
  ◌+◌, ◌-◌, ◌/◌, ◌%◌, ◌^◌, ◌≤◌, ◌<◌, true, Option, none, some, List, [], ◌∷◌, ◌++◌, append_assoc,
  append-nil, length, length-append, ltb, leb, ◌≡◌, inl, inr, refl, sym, ◌∙◌, ap, ==-refl,
  Bool-cases, arith,
}
use leveldb_mcpe_dotnet.Common.Bytes.{Bytes}
use leveldb_mcpe_dotnet.Crc32c.{Checksum}
use leveldb_mcpe_dotnet.Status.{is_ok}
use leveldb_mcpe_dotnet.Block
use leveldb_mcpe_dotnet.Block.{BlockBuilder}
use leveldb_mcpe_dotnet.Format.{Compressor, find_compressor}
use leveldb_mcpe_dotnet.Log.Writer.{WritableFile}
use leveldb_mcpe_dotnet.Log.Layout.{Accepts}
use leveldb_mcpe_dotnet.Table.{
  Rep, block_trailer, write_raw_block, write_block, flush, first_compressor, compression_id,
  choose_contents, is_empty, add, add_index_entry, add_entry, add_pending,
}
use leveldb_mcpe_dotnet.Table.ReadBack.{Holds, Stores, Unpacks, length-block_trailer}

-- What compressor.h asks of a compressor: `decompress` takes back what `compress` gave, its identifier
-- is one that no other has and not that of a block that is not compressed.
pub record IsCompressor (k : Compressor) : Type 0 where
  pub id_char : k.unique_compression_id < 128
  pub id_positive : 1 ≤ k.unique_compression_id
  pub decompress-compress : (raw : Bytes) → k.decompress (k.compress_impl raw []) [] ≡ (true, raw)

abbrev pub Compresses : List (Option Compressor) → Type 0
Compresses (some k ∷ cs) = IsCompressor k
Compresses _ = Unit {0}

find_compressor-first :
    (k : Compressor) (cs : List (Option Compressor))
    → IsCompressor k
    → find_compressor (some k ∷ cs) k.unique_compression_id ≡ some k
unfolding find_compressor
find_compressor-first k cs h =
    let char : ltb k.unique_compression_id 128 ≡ true = ground (arith, h.id_char) in
    rw (char, ==-refl k.unique_compression_id) refl

choose-Unpacks :
    (cs : List (Option Compressor)) (raw output : Bytes)
    → Compresses cs
    → output ≡ []
    → Unpacks cs
        (compression_id (choose_contents (first_compressor cs) raw output).1)
        (choose_contents (first_compressor cs) raw output).0
        raw
unfolding choose_contents
choose-Unpacks [] raw output h e = inl (refl, refl)
choose-Unpacks (none ∷ cs) raw output h e = inl (refl, refl)
choose-Unpacks (some k ∷ cs) raw output h e =
    let fits = ltb (length (k.compress_impl raw output)) (length raw - length raw / 8) in
    elim (Bool-cases fits) [
      | inr long ↦ rw long (inl (refl, refl))
      | inl short ↦
          rw (short, e)
            (inr (
              k,
              find_compressor-first k cs h,
              ground (arith, h.id_positive),
              h.decompress-compress raw,
            ))
    ]

module _ {ℓ} {F : Type ℓ} (file : WritableFile F) (c : Checksum) (contents : F → Bytes)
    (acc : Accepts file contents) where
  -- The builder has no error, its offset is the length of the file in 64 bits, and the string that it compresses
  -- into is empty.
  abbrev pub IsSound : Rep F → Type 0
  IsSound r =
      (is_ok r.status ≡ true)
      × (r.offset ≡ length (contents r.file) % 2 ^ 64)
      × (r.compressed_output ≡ [])

  -- What a block that is written leaves as it is.
  abbrev pub Keeps : Rep F → Rep F → Type 0
  Keeps r r' =
      (more : Bytes) × (contents r'.file ≡ contents r.file ++ more)
      × (r'.options ≡ r.options)
      × (r'.index_block ≡ r.index_block)
      × (r'.last_key ≡ r.last_key)
      × (r'.pending_index_entry ≡ r.pending_index_entry)
      × (r'.pending_handle ≡ r.pending_handle)
      × (r'.filter_block ≡ r.filter_block)
      × (r'.data_block ≡ r.data_block)

  pub write_raw_block-Stores :
      (r : Rep F) (stored : Bytes) (k : Option Compressor)
      → IsSound r
      → IsSound (write_raw_block file c r stored k).0
        × Stores c
            (write_raw_block file c r stored k).1
            stored
            (compression_id k)
            (contents (write_raw_block file c r stored k).0.file)
        × Keeps r (write_raw_block file c r stored k).0
  unfolding write_raw_block
  write_raw_block-Stores r stored k (good, at, cleared) =
      let t = block_trailer c stored (compression_id k) in
      let f1 = (file.append r.file stored).0 in
      let grown : contents (file.append f1 t).0 ≡ contents r.file ++ (stored ++ t) =
        acc.append_contents f1 t
        ∙ (ap (λ x. x ++ t) (acc.append_contents r.file stored)
            ∙ append_assoc (contents r.file) stored t) in
      let both : length (contents (file.append f1 t).0) % 2 ^ 64
          ≡ (r.offset + (length stored + 5)) % 2 ^ 64 =
        rw (grown, length-append (contents r.file) (stored ++ t), length-append stored t)
          (omega (arith, at, length-block_trailer c stored (compression_id k))) in
      let whole : contents (file.append f1 t).0 ≡ contents r.file ++ (stored ++ (t ++ [])) =
        rw (append-nil t) grown in
      rw (acc.append_ok r.file stored, acc.append_ok f1 t)
        (
          (acc.append_ok f1 t, sym both, cleared),
          (contents r.file, [], whole, sym at, refl),
          (stored ++ t, grown, refl, refl, refl, refl, refl, refl, refl),
        )

  pub write_block-Holds :
      (r : Rep F) (block : BlockBuilder)
      → IsSound r
      → Compresses r.options.compressors
      → IsSound (write_block file c r block).0
        × Holds c r.options.compressors
            (write_block file c r block).2
            (Block.finish block).buffer
            (contents (write_block file c r block).0.file)
        × Keeps r (write_block file c r block).0
  unfolding write_block
  write_block-Holds r block sound good =
      let raw = (Block.finish block).buffer in
      let chosen =
        choose_contents (first_compressor r.options.compressors) raw r.compressed_output in
      let ((ok, at, cleared), stores, keeps) = write_raw_block-Stores r chosen.0 chosen.1 sound in
      (
        (ok, at, refl),
        (
          chosen.0,
          compression_id chosen.1,
          stores,
          choose-Unpacks r.options.compressors raw r.compressed_output good sound.2,
        ),
        keeps,
      )

  -- The flush of a builder without an error leaves it so.
  pub flush-IsSound :
      (r : Rep F)
      → IsSound r
      → Compresses r.options.compressors
      → IsSound (flush file c r) × ((flush file c r).options ≡ r.options)
  unfolding flush
  flush-IsSound r sound good =
      let written = (write_block file c r r.data_block).0 in
      let ((ok, at, cleared), held, keeps) = write_block-Holds r r.data_block sound good in
      elim (Bool-cases (is_empty r.data_block)) [
        | inl nothing ↦ rw (flush, sound.0, nothing) (sound, refl)
        | inr block ↦
            rw (flush, sound.0, block, ok)
              (
                (acc.flush_ok written.file, rw (acc.flush_contents written.file) at, cleared),
                keeps.2,
              )
      ]

  added-IsSound :
      (r : Rep F) (key value : Bytes)
      → IsSound r
      → IsSound (add_entry file c (add_pending file c r key) key value)
        × ((add_entry file c (add_pending file c r key) key value).options ≡ r.options)
  unfolding add_entry add_pending add_index_entry
  added-IsSound r key value sound = elim (Bool-cases r.pending_index_entry) [
    | inl pending ↦ rw (add_pending, pending) (sound, refl)
    | inr none_pending ↦ rw (add_pending, none_pending) (sound, refl)
  ]

  -- An entry that is added leaves it so.
  pub add-IsSound :
      (r : Rep F) (key value : Bytes)
      → IsSound r
      → Compresses r.options.compressors
      → IsSound (add file c r key value) × ((add file c r key value).options ≡ r.options)
  unfolding add
  add-IsSound r key value sound good =
      let added = add_entry file c (add_pending file c r key) key value in
      let (added_sound, same) = added-IsSound r key value sound in
      let full = leb added.options.block_size (Block.current_size_estimate added.data_block) in
      elim (Bool-cases full) [
        | inr more ↦ rw (add, sound.0, more) (added_sound, same)
        | inl at_limit ↦
            let flushed = flush-IsSound added added_sound (rw same good) in
            rw (add, sound.0, at_limit) (flushed.0, flushed.1 ∙ same)
      ]
