-- ===== src/Format.antt =====
-- table/format.h and table/format.cc: handles of blocks, the footer of a table file, and the reading
-- of one block of the file; include/leveldb/compressor.h, the interface that the reading calls.
pub mod Encoded
mod Tests
use Prim.Native.String.{String}
use leveldb_mcpe_dotnet.Common.{
  ℕ, ◌+◌, ◌-◌, ◌*◌, ◌/◌, ◌%◌, ◌^◌, bit_or, bit_and, Bool, true, false, Option, none, some, List, [],
  ◌∷◌, ◌++◌, length, take, drop, replicate, get_or, ltb, leb, ◌==◌, ◌&&◌, not, if◌then◌else◌,
}
use leveldb_mcpe_dotnet.Common.Bytes.{Bytes}
use leveldb_mcpe_dotnet.Coding.{shr, shl64, put_varint64, get_varint64, put_fixed32, decode_fixed32}
use leveldb_mcpe_dotnet.Crc32c.{Checksum, value, unmask}
use leveldb_mcpe_dotnet.Status.{Status, is_ok}

pub record BlockHandle : Type 0 where
  pub offset : ℕ
  pub size : ℕ

-- `~static_cast<uint64_t>(0)` in both fields.
unfoldable pub new_block_handle : BlockHandle
new_block_handle = record { offset = 2 ^ 64 - 1; size = 2 ^ 64 - 1 }

abbrev pub max_encoded_length : ℕ
max_encoded_length = 10 + 10

unfoldable pub encode_handle : BlockHandle → Bytes → Bytes
encode_handle h dst = put_varint64 (put_varint64 dst h.offset) h.size

-- The status, the handle, whose fields are set one by one, and the input left.
unfoldable pub decode_handle : BlockHandle → Bytes → Status × BlockHandle × Bytes
decode_handle h input = elim (get_varint64 input) [
  | none ↦ (Status.corruption "bad block handle", h, input)
  | some (offset, rest) ↦ elim (get_varint64 rest) [
    | none ↦ (Status.corruption "bad block handle", record h { offset = offset }, rest)
    | some (size, rest') ↦ (Status.ok, record { offset = offset; size = size }, rest')
  ]
]

pub record Footer : Type 0 where
  pub metaindex_handle : BlockHandle
  pub index_handle : BlockHandle

unfoldable pub new_footer : Footer
unfolding new_block_handle
new_footer = record { metaindex_handle = new_block_handle; index_handle = new_block_handle }

abbrev pub encoded_length : ℕ
encoded_length = 2 * max_encoded_length + 8

abbrev pub table_magic_number : ℕ
table_magic_number = 0xdb4775248b80fb57

-- `std::string::resize`.
unfoldable pub resize : Bytes → ℕ → Bytes
resize s n = take n s ++ replicate (n - length s) 0

-- The whole of `dst` is resized, not what the handles add to it.
unfoldable pub encode_footer : Footer → Bytes → Bytes
encode_footer f dst =
    let handles = encode_handle f.index_handle (encode_handle f.metaindex_handle dst) in
    let padded = resize handles (2 * max_encoded_length) in
    put_fixed32 (put_fixed32 padded (bit_and table_magic_number 0xffffffff))
      (shr table_magic_number 32)

-- The 64 bits at `magic_ptr`.
unfoldable pub read_magic : Bytes → ℕ
read_magic magic_ptr =
    bit_or (shl64 (decode_fixed32 (drop 4 magic_ptr)) 32) (decode_fixed32 magic_ptr)

unfoldable pub decode_footer : Footer → Bytes → Status × Footer × Bytes
decode_footer f input =
    let magic = read_magic (drop (encoded_length - 8) input) in
    let (s1, metaindex, input1) = decode_handle f.metaindex_handle input in
    let (s2, index, input2) = decode_handle f.index_handle input1 in
    if not (magic == table_magic_number)
    then (Status.corruption "not an sstable (bad magic number)", f, input)
    else if not (is_ok s1)
    then (s1, record f { metaindex_handle = metaindex }, input1)
    else if not (is_ok s2)
    then (s2, record { metaindex_handle = metaindex; index_handle = index }, input2)
    else (
      s2,
      record { metaindex_handle = metaindex; index_handle = index },
      drop encoded_length input,
    )

abbrev pub block_trailer_size : ℕ
block_trailer_size = 5

pub record BlockContents : Type 0 where
  pub data_ : Bytes
  pub cachable : Bool
  pub heap_allocated : Bool

-- What `RandomAccessFile::Read` gives: `in_scratch` says whether the contents stand in the buffer of
-- the caller.
pub record FileRead : Type 0 where
  pub status : Status
  pub contents : Bytes
  pub in_scratch : Bool

pub record RandomAccessFile : Type 0 where
  pub read : ℕ → ℕ → FileRead

-- The identifier is a `char`. The two methods take the input and the string `output`, and give the
-- string that it becomes.
pub record Compressor : Type 0 where
  pub unique_compression_id : ℕ
  pub compress_impl : Bytes → Bytes → Bytes
  pub decompress : Bytes → Bytes → Bool × Bytes

-- The stack of buffers, its top first.
unfoldable pub get_buffer : List Bytes → Bytes × List Bytes
get_buffer [] = ([], [])
get_buffer (buffer ∷ stack) = ([], stack)

unfoldable pub release : List Bytes → Bytes → List Bytes
release stack buffer = buffer ∷ stack

unfoldable pub prune : List Bytes → List Bytes
prune stack = []

-- The loop over `dbOptions.compressors`, which stops at a null pointer. A `char` from 128 on is
-- negative, and is not equal to the `unsigned char` that was read.
unfoldable pub find_compressor : List (Option Compressor) → ℕ → Option Compressor
find_compressor [] compression_id = none
find_compressor (none ∷ cs) compression_id = none
find_compressor (some c ∷ cs) compression_id =
    let rest = find_compressor cs compression_id in
    if ltb c.unique_compression_id 128 && c.unique_compression_id == compression_id
    then some c
    else rest

abbrev pub no_contents : BlockContents
no_contents = record { data_ = []; cachable = false; heap_allocated = false }

abbrev pub BlockResult : Type 0
BlockResult = Status × BlockContents × Option (List Bytes)

-- A block with a compressor, whose output goes through a buffer of the allocator, if there is one.
unfoldable pub decompress_block : Compressor → Bytes → Option (List Bytes) → BlockResult
unfolding get_buffer release
decompress_block compressor data_ allocator =
    let taken : Bytes × Option (List Bytes) = elim allocator [
      | none ↦ ([], none)
      | some stack ↦ let (b, rest) = get_buffer stack in (b, some rest)
    ] in
    let (success, buffer) = compressor.decompress data_ taken.0 in
    let returned : Option (List Bytes) = elim taken.1 [
      | none ↦ none
      | some stack ↦ some (release stack buffer)
    ] in
    if success
    then (Status.ok, record { data_ = buffer; cachable = true; heap_allocated = true }, returned)
    else (Status.corruption "corrupted compressed block contents", no_contents, returned)

-- The contents behind the check of the length, whose byte `n` is the type.
unfoldable pub unpack_block :
    List (Option Compressor) → ℕ → FileRead → Option (List Bytes) → BlockResult
unpack_block compressors n r allocator =
    let compression_id = get_or r.contents n 0 in
    if compression_id == 0
    then (
      Status.ok,
      record { data_ = take n r.contents; cachable = r.in_scratch; heap_allocated = r.in_scratch },
      allocator,
    )
    else elim (find_compressor compressors compression_id) [
      | none ↦ (
        Status.not_supported "encountered a block compressed with an unknown decompressor",
        no_contents,
        allocator,
      )
      | some compressor ↦ decompress_block compressor (take n r.contents) allocator
    ]

-- The checksum stored behind the type is that of the contents with the type.
unfoldable pub checksum_matches : Checksum → ℕ → Bytes → Bool
checksum_matches c n data_ =
    value c (take (n + 1) data_) == unmask (decode_fixed32 (drop (n + 1) data_))

-- `n + kBlockTrailerSize` is a `size_t`. Where the sum wraps around and as few bytes are read as it
-- says, the source goes on to `data[n]`, outside of them, which has no defined result: `none`.
unfoldable pub read_block :
    Checksum
    → RandomAccessFile
    → List (Option Compressor)
    → Bool
    → BlockHandle
    → Option (List Bytes)
    → Option BlockResult
read_block c file compressors verify_checksums handle allocator =
    let n = handle.size in
    let length_read = (n + block_trailer_size) % 2 ^ 64 in
    let r = file.read handle.offset length_read in
    if not (is_ok r.status)
    then some (r.status, no_contents, allocator)
    else if not (length r.contents == length_read)
    then some (Status.corruption "truncated block read", no_contents, allocator)
    else if leb (2 ^ 64) (n + block_trailer_size)
    then none
    else if verify_checksums && not (checksum_matches c n r.contents)
    then some (Status.corruption "block checksum mismatch", no_contents, allocator)
    else some (unpack_block compressors n r allocator)
