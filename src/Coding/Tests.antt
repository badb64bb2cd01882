-- ===== src/Coding/Tests.antt =====
-- Encodings at concrete inputs.
use leveldb_mcpe_dotnet.Common.{◌<◌, ◌≤◌, [], ◌∷◌, ◌++◌, ◌≡◌, some, none, length, refl, arith}
use leveldb_mcpe_dotnet.Common.Bytes.{Bytes, IsU64}
use leveldb_mcpe_dotnet.Coding.{
  encode_fixed32, decode_fixed32, encode_fixed64, decode_fixed64, encode_varint32, encode_varint64,
  get_varint32, get_varint64, get_varint32_ptr, get_varint32_ptr_fallback, varint_length,
  put_length_prefixed_slice, get_length_prefixed_slice,
}
use leveldb_mcpe_dotnet.Coding.Fixed.{decode_fixed32-encode_fixed32, decode_fixed64-encode_fixed64}
use leveldb_mcpe_dotnet.Coding.Varint.{
  encode_varint32-encode_varint64, varint_length-encode_varint64, get_varint32-encode_varint32,
  get_varint64-encode_varint64, get_varint32_ptr-fallback, get_varint64_takes,
}
use leveldb_mcpe_dotnet.Coding.Prefixed.{
  get_length_prefixed_slice-put_length_prefixed_slice, get_length_prefixed_slice_takes,
}

encode_300 : encode_varint32 300 ≡ 0xac ∷ 0x02 ∷ []
unfolding encode_varint32
encode_300 = refl

encode_max :
    encode_varint64 0xffff_ffff_ffff_ffff
    ≡ 255 ∷ 255 ∷ 255 ∷ 255 ∷ 255 ∷ 255 ∷ 255 ∷ 255 ∷ 255 ∷ 1 ∷ []
unfolding encode_varint64
encode_max = refl

-- Five bytes with the top bit set are no `varint32`.
get_too_long : get_varint32 (255 ∷ 255 ∷ 255 ∷ 255 ∷ 255 ∷ 1 ∷ []) ≡ none
unfolding get_varint32 get_varint32_ptr
get_too_long = refl

fixed32_example : decode_fixed32 (encode_fixed32 0xdeadbeef ++ (1 ∷ [])) ≡ 0xdeadbeef
fixed32_example = decode_fixed32-encode_fixed32 0xdeadbeef (1 ∷ []) (omega arith)

fixed64_example : decode_fixed64 (encode_fixed64 0xdeadbeef01 ++ (1 ∷ [])) ≡ 0xdeadbeef01
fixed64_example = decode_fixed64-encode_fixed64 0xdeadbeef01 (1 ∷ []) (omega arith)

unrolled_example : encode_varint32 70000 ≡ encode_varint64 70000
unrolled_example = encode_varint32-encode_varint64 70000 (omega arith)

varint_length_example :
    (varint_length 70000 ≡ length (encode_varint64 70000))
    × (1 ≤ varint_length 70000)
    × (varint_length 70000 ≤ 10)
varint_length_example = varint_length-encode_varint64 70000 (omega arith)

varint32_example : get_varint32 (encode_varint32 70000 ++ (9 ∷ [])) ≡ some (70000, 9 ∷ [])
varint32_example = get_varint32-encode_varint32 70000 (9 ∷ []) (omega arith)

varint64_example : get_varint64 (encode_varint64 70000 ++ (9 ∷ [])) ≡ some (70000, 9 ∷ [])
varint64_example = get_varint64-encode_varint64 70000 (9 ∷ []) (omega arith)

fast_path_example :
    get_varint32_ptr (0xac ∷ 0x02 ∷ []) ≡ get_varint32_ptr_fallback (0xac ∷ 0x02 ∷ [])
fast_path_example = get_varint32_ptr-fallback (0xac ∷ 0x02 ∷ []) (omega arith)

read_300 : get_varint64 (0xac ∷ 0x02 ∷ 7 ∷ []) ≡ some (300, 7 ∷ [])
unfolding get_varint64
read_300 = refl

get_varint64_takes_example : IsU64 300 × (1 < 3)
get_varint64_takes_example = get_varint64_takes (0xac ∷ 0x02 ∷ 7 ∷ []) 300 (7 ∷ []) read_300

slice_example :
    get_length_prefixed_slice (put_length_prefixed_slice [] (1 ∷ 2 ∷ []) ++ (3 ∷ []))
    ≡ some (1 ∷ 2 ∷ [], 3 ∷ [])
slice_example =
    get_length_prefixed_slice-put_length_prefixed_slice (1 ∷ 2 ∷ []) (3 ∷ []) (omega arith)

read_slice : get_length_prefixed_slice (2 ∷ 8 ∷ 9 ∷ 7 ∷ []) ≡ some (8 ∷ 9 ∷ [], 7 ∷ [])
unfolding get_length_prefixed_slice get_varint32_ptr
read_slice = refl

slice_takes_example :
    (tail : Bytes) × (get_varint32 (2 ∷ 8 ∷ 9 ∷ 7 ∷ []) ≡ some (2, tail))
    × ((8 ∷ 9 ∷ []) ++ (7 ∷ []) ≡ tail)
    × (length tail < 4)
slice_takes_example =
    get_length_prefixed_slice_takes (2 ∷ 8 ∷ 9 ∷ 7 ∷ []) (8 ∷ 9 ∷ []) (7 ∷ []) (omega arith)
      read_slice
