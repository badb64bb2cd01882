-- ===== src/Format/Encoded.antt =====
-- The footer is read back as it was written.
use leveldb_mcpe_dotnet.Common.{
  ℕ, zero, suc, ◌-◌, ◌≤◌, [], ◌++◌, append_assoc, append-nil, length, length-append,
  length-replicate, take, drop, take-append, drop-append_length, replicate, ◌≡◌, refl, sym, ◌∙◌,
  arith,
}
use leveldb_mcpe_dotnet.Common.Bytes.{Bytes, IsU64}
use leveldb_mcpe_dotnet.Coding.{encode_varint64, put_varint64, put_fixed32, encode_fixed32}
use leveldb_mcpe_dotnet.Coding.Fixed.{decode_fixed32-encode_fixed32, length-encode_fixed32}
use leveldb_mcpe_dotnet.Coding.Varint.{get_varint64-encode_varint64, varint_length-encode_varint64}
use leveldb_mcpe_dotnet.Status.{Status}
use leveldb_mcpe_dotnet.Format.{
  BlockHandle, Footer, encode_handle, decode_handle, encode_footer, decode_footer, encoded_length,
  table_magic_number, resize, read_magic,
}

abbrev pub FitsHandle : BlockHandle → Type 0
FitsHandle h = IsU64 h.offset × IsU64 h.size

abbrev pub handle_bytes : BlockHandle → Bytes
handle_bytes h = encode_varint64 h.offset ++ encode_varint64 h.size

encode_handle-bytes : (h : BlockHandle) (dst : Bytes) → encode_handle h dst ≡ dst ++ handle_bytes h
unfolding encode_handle put_varint64
encode_handle-bytes h dst = append_assoc dst (encode_varint64 h.offset) (encode_varint64 h.size)

length-handle_bytes : (h : BlockHandle) → FitsHandle h → length (handle_bytes h) ≤ 20
length-handle_bytes h f = rw (length-append (encode_varint64 h.offset) (encode_varint64 h.size)) (
    omega
      (arith, varint_length-encode_varint64 h.offset f.0, varint_length-encode_varint64 h.size f.1))

-- The reader of a handle takes back what the writer wrote and leaves what follows.
pub decode_handle-encode_handle :
    (h h0 : BlockHandle) (rest : Bytes)
    → FitsHandle h
    → decode_handle h0 (encode_handle h [] ++ rest) ≡ (Status.ok, h, rest)
unfolding decode_handle
decode_handle-encode_handle h h0 rest f =
    rw
      (
        encode_handle-bytes h [],
        append_assoc (encode_varint64 h.offset) (encode_varint64 h.size) rest,
        decode_handle,
        get_varint64-encode_varint64 h.offset (encode_varint64 h.size ++ rest) f.0,
        get_varint64-encode_varint64 h.size rest f.1,
      )
      refl

take-all : (n : ℕ) (s : Bytes) → length s ≤ n → take n s ≡ s
take-all n s h = rw (sym (append-nil s)) (take-append n s [] h ∙ take-nil (n - length s) s)
  where
    take-nil : (k : ℕ) (s : Bytes) → s ++ take k [] ≡ s ++ []
    take-nil zero s = refl
    take-nil (suc k) s = refl

resize-pads : (s : Bytes) (n : ℕ) → length s ≤ n → resize s n ≡ s ++ replicate (n - length s) 0
unfolding resize
resize-pads s n h = rw (take-all n s h) refl

abbrev magic_lo : ℕ
magic_lo = 0x8b80fb57

abbrev magic_hi : ℕ
magic_hi = 0xdb477524

read_magic-magic :
    (rest : Bytes)
    → read_magic (encode_fixed32 magic_lo ++ (encode_fixed32 magic_hi ++ rest)) ≡ table_magic_number
unfolding read_magic
read_magic-magic rest =
    let behind : drop 4 (encode_fixed32 magic_lo ++ (encode_fixed32 magic_hi ++ rest))
        ≡ encode_fixed32 magic_hi ++ rest =
      rw (length-encode_fixed32 magic_lo) at
        (drop-append_length (encode_fixed32 magic_lo) (encode_fixed32 magic_hi ++ rest)) in
    rw
      (
        behind,
        decode_fixed32-encode_fixed32 magic_lo (encode_fixed32 magic_hi ++ rest) (omega arith),
        decode_fixed32-encode_fixed32 magic_hi rest (omega arith),
      )
      refl

-- The forty bytes that hold the two handles.
abbrev handles_bytes : Footer → Bytes
handles_bytes f = handle_bytes f.metaindex_handle ++ handle_bytes f.index_handle

abbrev padding : Footer → Bytes
padding f = replicate (40 - length (handles_bytes f)) 0

abbrev pub FitsFooter : Footer → Type 0
FitsFooter f = FitsHandle f.metaindex_handle × FitsHandle f.index_handle

length-handles : (f : Footer) → FitsFooter f → length (handles_bytes f) ≤ 40
length-handles f h =
    rw (length-append (handle_bytes f.metaindex_handle) (handle_bytes f.index_handle)) (
      omega
        (arith, length-handle_bytes f.metaindex_handle h.0, length-handle_bytes f.index_handle h.1))

encode_footer-bytes :
    (f : Footer)
    → FitsFooter f
    → encode_footer f []
      ≡ ((handles_bytes f ++ padding f) ++ encode_fixed32 magic_lo) ++ encode_fixed32 magic_hi
unfolding encode_footer put_fixed32
encode_footer-bytes f h =
    rw
      (
        encode_handle-bytes f.metaindex_handle [],
        encode_handle-bytes f.index_handle (handle_bytes f.metaindex_handle),
        resize-pads (handles_bytes f) 40 (length-handles f h),
      )
      refl

length-padded : (f : Footer) → FitsFooter f → length (handles_bytes f ++ padding f) ≡ 40
length-padded f h =
    rw
      (
        length-append (handles_bytes f) (padding f),
        length-replicate {A = ℕ} (40 - length (handles_bytes f)) 0,
      )
      (omega (arith, length-handles f h))

-- A footer takes 48 bytes.
pub length-encode_footer :
    (f : Footer) → FitsFooter f → length (encode_footer f []) ≡ encoded_length
length-encode_footer f h =
    rw
      (
        encode_footer-bytes f h,
        length-append ((handles_bytes f ++ padding f) ++ encode_fixed32 magic_lo)
            (encode_fixed32 magic_hi),
        length-append (handles_bytes f ++ padding f) (encode_fixed32 magic_lo),
        length-padded f h,
        length-encode_fixed32 magic_lo,
        length-encode_fixed32 magic_hi,
      )
      refl

drop-prefix : (n : ℕ) (a b : Bytes) → length a ≡ n → drop n (a ++ b) ≡ b
drop-prefix n a b e = rw (sym e) (drop-append_length a b)

decode_handle-bytes :
    (h h0 : BlockHandle) (rest : Bytes)
    → FitsHandle h
    → decode_handle h0 (handle_bytes h ++ rest) ≡ (Status.ok, h, rest)
decode_handle-bytes h h0 rest f =
    rw (encode_handle-bytes h []) at (decode_handle-encode_handle h h0 rest f)

-- A footer whose handles are 64-bit numbers is written to an empty string in 48 bytes, and is read
-- back from them, whatever follows, which is left.
pub decode_footer-encode_footer :
    (f f0 : Footer) (rest : Bytes)
    → FitsFooter f
    → (decode_footer f0 (encode_footer f [] ++ rest) ≡ (Status.ok, f, rest))
      × (length (encode_footer f []) ≡ encoded_length)
unfolding decode_footer
decode_footer-encode_footer f f0 rest h =
    let tail = encode_fixed32 magic_lo ++ (encode_fixed32 magic_hi ++ rest) in
    let head = handles_bytes f ++ padding f in
    let whole = encode_footer f [] ++ rest in
    let one : whole ≡ head ++ tail = rw (encode_footer-bytes f h) (
      append_assoc (head ++ encode_fixed32 magic_lo) (encode_fixed32 magic_hi) rest
      ∙ append_assoc head (encode_fixed32 magic_lo) (encode_fixed32 magic_hi ++ rest)) in
    let two : whole
        ≡ handle_bytes f.metaindex_handle ++ (handle_bytes f.index_handle ++ (padding f ++ tail)) =
      one
      ∙ (append_assoc (handles_bytes f) (padding f) tail
          ∙ append_assoc (handle_bytes f.metaindex_handle) (handle_bytes f.index_handle)
              (padding f ++ tail)) in
    let magic : drop 40 whole ≡ tail = rw one (drop-prefix 40 head tail (length-padded f h)) in
    let after : drop 48 whole ≡ rest =
      drop-prefix 48 (encode_footer f []) rest (length-encode_footer f h) in
    let index = decode_handle-bytes f.index_handle f0.index_handle (padding f ++ tail) h.1 in
    let meta =
      decode_handle-bytes f.metaindex_handle f0.metaindex_handle
        (handle_bytes f.index_handle ++ (padding f ++ tail)) h.0 in
    (rw (magic, after, read_magic-magic rest, two, meta, index) refl, length-encode_footer f h)
