-- ===== src/Table/ReadBack.antt =====
-- A stored block is read back: `ReadBlock` on what `WriteBlock` puts into the file.
use leveldb_mcpe_dotnet.Common.{
  ℕ, ◌+◌, ◌%◌, ◌^◌, Bool, true, false, Option, none, some, List, [], ◌∷◌, ◌++◌, append_assoc,
  append-nil, length, length-append, take, drop, take-append_length, drop-append_length, get_or,
  get_or-append_right, leb, ◌≡◌, ◌⊎◌, inl, inr, refl, sym, ◌∙◌, ap, ◌==◌, ==-refl, not, ◌&&◌,
  &&-false, arith,
}
use leveldb_mcpe_dotnet.Common.Bytes.{Bytes, IsU64}
use mathlib.Core.Path.{subst}
use leveldb_mcpe_dotnet.Coding.{encode_fixed32, decode_fixed32}
use leveldb_mcpe_dotnet.Coding.Fixed.{decode_fixed32-encode_fixed32}
use leveldb_mcpe_dotnet.Crc32c.{Checksum, value, mask}
use leveldb_mcpe_dotnet.Crc32c.Mask.{mask-IsU32, unmask-mask}
use leveldb_mcpe_dotnet.Status.{Status, is_ok}
use leveldb_mcpe_dotnet.Format.{
  BlockHandle, Compressor, RandomAccessFile, FileRead, BlockResult, find_compressor,
  decompress_block, get_buffer, unpack_block, checksum_matches, read_block,
}
use leveldb_mcpe_dotnet.Table.{block_trailer}

-- A file that gives what stands in it.
pub record Serves (file : RandomAccessFile) (content : Bytes) : Type 0 where
  pub read_ok : (offset n : ℕ) → is_ok (file.read offset n).status ≡ true
  pub read_contents : (offset n : ℕ) → (file.read offset n).contents ≡ take n (drop offset content)

-- At the handle, whose offset has 64 bits, the content has the stored bytes and behind them their
-- trailer.
abbrev pub Stores : Checksum → BlockHandle → Bytes → ℕ → Bytes → Type 0
Stores c h stored id content =
    (pre : Bytes) × (post : Bytes) × (content
      ≡ pre ++ (stored ++ (block_trailer c stored id ++ post)))
    × (length pre % 2 ^ 64 ≡ h.offset)
    × (length stored ≡ h.size)

-- The stored bytes of type `id` are those of the block `raw`.
abbrev pub Unpacks : List (Option Compressor) → ℕ → Bytes → Bytes → Type 0
Unpacks compressors id stored raw =
    ((id ≡ 0) × (stored ≡ raw))
    ⊎ ((k : Compressor) × (find_compressor compressors id ≡ some k)
        × ((id == 0) ≡ false)
        × (k.decompress stored [] ≡ (true, raw)))

-- The handle stands for the block `raw` in the content.
abbrev pub Holds : Checksum → List (Option Compressor) → BlockHandle → Bytes → Bytes → Type 0
Holds c compressors h raw content =
    (stored : Bytes) × (id : ℕ) × Stores c h stored id content × Unpacks compressors id stored raw

-- A block stays where it is when the file grows.
pub Holds-append :
    (c : Checksum) (compressors : List (Option Compressor)) (h : BlockHandle)
    (raw content more : Bytes)
    → Holds c compressors h raw content
    → Holds c compressors h raw (content ++ more)
Holds-append c compressors h raw content more (stored, id, (pre, post, e, at, size), unpacks) =
    let t = block_trailer c stored id in
    let grown : content ++ more ≡ pre ++ (stored ++ (t ++ (post ++ more))) = rw e (
      append_assoc pre (stored ++ (t ++ post)) more
      ∙ ap (λ x. pre ++ x)
          (append_assoc stored (t ++ post) more
            ∙ ap (λ x. stored ++ x) (append_assoc t post more))) in
    (stored, id, (pre, post ++ more, grown, at, size), unpacks)

pub Holds-cong :
    (c : Checksum) (cs cs' : List (Option Compressor)) (h : BlockHandle) (raw raw' content : Bytes)
    → cs ≡ cs'
    → raw ≡ raw'
    → Holds c cs h raw content
    → Holds c cs' h raw' content
Holds-cong c cs cs' h raw raw' content same_cs same_raw holds =
    subst (λ x. Holds c x h raw' content) same_cs
      (subst (λ x. Holds c cs h x content) same_raw holds)

pub length-block_trailer :
    (c : Checksum) (stored : Bytes) (id : ℕ) → length (block_trailer c stored id) ≡ 5
unfolding block_trailer encode_fixed32
length-block_trailer c stored id = refl

pub checksum_matches-block_trailer :
    (c : Checksum) (stored : Bytes) (id : ℕ)
    → checksum_matches c (length stored) (stored ++ block_trailer c stored id) ≡ true
unfolding checksum_matches block_trailer value
checksum_matches-block_trailer c stored id =
    let crc = c.extend (c.extend 0 stored) (id ∷ []) in
    let one : length (stored ++ (id ∷ [])) ≡ length stored + 1 = length-append stored (id ∷ []) in
    let split : stored ++ (id ∷ encode_fixed32 (mask crc))
        ≡ (stored ++ (id ∷ [])) ++ encode_fixed32 (mask crc) =
      sym (append_assoc stored (id ∷ []) (encode_fixed32 (mask crc))) in
    let front : take (length stored + 1) (stored ++ (id ∷ encode_fixed32 (mask crc)))
        ≡ stored ++ (id ∷ []) =
      rw (split, sym one) (take-append_length (stored ++ (id ∷ [])) (encode_fixed32 (mask crc))) in
    let back : drop (length stored + 1) (stored ++ (id ∷ encode_fixed32 (mask crc)))
        ≡ encode_fixed32 (mask crc) =
      rw (split, sym one) (drop-append_length (stored ++ (id ∷ [])) (encode_fixed32 (mask crc))) in
    let read : decode_fixed32 (encode_fixed32 (mask crc)) ≡ mask crc =
      rw append-nil at (decode_fixed32-encode_fixed32 (mask crc) [] (mask-IsU32 crc)) in
    rw
      (
        front,
        back,
        read,
        unmask-mask crc (c.extend_u32 (c.extend 0 stored) (id ∷ [])),
        sym (c.extend_append 0 stored (id ∷ [])),
      )
      (==-refl crc)

-- The read has a result, which is the block `raw`.
abbrev pub Gives : Option BlockResult → Bytes → Type 0
Gives r raw =
    (result : BlockResult) × (r ≡ some result) × (result.0 ≡ Status.ok) × (result.1.data_ ≡ raw)

abbrev Reads : BlockResult → Bytes → Type 0
Reads r raw = (r.0 ≡ Status.ok) × (r.1.data_ ≡ raw)

decompress_block-raw :
    (k : Compressor) (stored raw : Bytes) (allocator : Option (List Bytes))
    → k.decompress stored [] ≡ (true, raw)
    → Reads (decompress_block k stored allocator) raw
unfolding decompress_block get_buffer
decompress_block-raw k stored raw none e = rw e (refl, refl)
decompress_block-raw k stored raw (some []) e = rw e (refl, refl)
decompress_block-raw k stored raw (some (b ∷ bs)) e = rw e (refl, refl)

unpack_block-raw :
    (compressors : List (Option Compressor)) (c : Checksum) (stored raw : Bytes) (id : ℕ)
    (r : FileRead) (allocator : Option (List Bytes))
    → r.contents ≡ stored ++ block_trailer c stored id
    → Unpacks compressors id stored raw
    → Reads (unpack_block compressors (length stored) r allocator) raw
unfolding unpack_block block_trailer
unpack_block-raw compressors c stored raw id r allocator e unpacks =
    let t = encode_fixed32 (mask (c.extend (value c stored) (id ∷ []))) in
    let front : take (length stored) r.contents ≡ stored =
      rw e (take-append_length stored (id ∷ t)) in
    let plus : length stored + 0 ≡ length stored = omega arith in
    let typed : get_or r.contents (length stored) 0 ≡ id =
      rw e (rw plus at (get_or-append_right stored (id ∷ t) 0 0)) in
    elim unpacks [
      | inl (zero_id, same) ↦ rw (unpack_block, typed, zero_id) (refl, front ∙ same)
      | inr (k, found, compressed, back) ↦
          rw (unpack_block, typed, compressed, found, front)
            (decompress_block-raw k stored raw allocator back)
    ]

stored_slice :
    (pre stored t post : Bytes)
    → take (length stored + length t) (drop (length pre) (pre ++ (stored ++ (t ++ post))))
      ≡ stored ++ t
stored_slice pre stored t post =
    rw
      (
        drop-append_length pre (stored ++ (t ++ post)),
        sym (length-append stored t),
        sym (append_assoc stored t post),
      )
      (take-append_length (stored ++ t) post)

-- If a file of fewer than 2^64 bytes has at the handle the stored bytes of a block with their type
-- and masked checksum, and the type is 0 and the bytes are those of the block, or is that of a
-- compressor that is found and decompresses the bytes to the block, then ReadBlock, with and
-- without the check of the checksum and an allocator, succeeds with the block.
pub read_block-Holds :
    (c : Checksum) (file : RandomAccessFile) (content : Bytes)
    → Serves file content
    → (compressors : List (Option Compressor)) (verify_checksums : Bool) (h : BlockHandle)
      (allocator : Option (List Bytes)) (raw : Bytes)
    → IsU64 (length content)
    → Holds c compressors h raw content
    → Gives (read_block c file compressors verify_checksums h allocator) raw
unfolding read_block
read_block-Holds c file content serves compressors verify h allocator raw small
      (stored, id, (pre, post, e, at, size), unpacks) =
    let t = block_trailer c stored id in
    let five : length t ≡ 5 = length-block_trailer c stored id in
    let whole : length content ≡ length pre + (length stored + (length t + length post)) =
      rw
        (
          e,
          length-append pre (stored ++ (t ++ post)),
          length-append stored (t ++ post),
          length-append t post,
        )
        refl in
    let n : (h.size + 5) % 2 ^ 64 ≡ length stored + length t = omega arith in
    let at' : h.offset ≡ length pre = omega arith in
    let below : leb (2 ^ 64) (h.size + 5) ≡ false = ground arith in
    let length_read = (h.size + 5) % 2 ^ 64 in
    let r : FileRead = file.read h.offset length_read in
    let read : r.contents ≡ stored ++ t =
      rw (serves.read_contents h.offset length_read, n, at', e) (stored_slice pre stored t post) in
    let len : (length r.contents == length_read) ≡ true =
      rw (read, n, length-append stored t) (==-refl (length stored + length t)) in
    let matches : (verify && not (checksum_matches c h.size r.contents)) ≡ false =
      rw (read, sym size, checksum_matches-block_trailer c stored id) (&&-false verify) in
    let unpacked : Reads (unpack_block compressors h.size r allocator) raw =
      rw size at (unpack_block-raw compressors c stored raw id r allocator read unpacks) in
    let same : read_block c file compressors verify h allocator
        ≡ some (unpack_block compressors h.size r allocator) =
      rw (read_block, serves.read_ok h.offset length_read, len, below, matches) refl in
    (unpack_block compressors h.size r allocator, same, unpacked.0, unpacked.1)
