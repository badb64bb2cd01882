-- ===== src/Coding/Prefixed.antt =====
-- Length-prefixed slices are read back as they were written.
use leveldb_mcpe_dotnet.Common.{
  Option, ℕ, ◌≤◌, ◌<◌, some, none, [], ◌++◌, ◌≡◌, refl, length, append_assoc, length-append,
  take-append_length, drop-append_length, length-take, take-append-drop, length-drop, Option-cases,
  inl, inr, arith,
}
use leveldb_mcpe_dotnet.Common.Bytes.{Bytes, AllBytes, IsU32}
use leveldb_mcpe_dotnet.Coding.{
  put_varint32, encode_varint32, put_length_prefixed_slice, get_varint32, take_prefix,
  get_length_prefixed_slice,
}
use leveldb_mcpe_dotnet.Coding.Varint.{
  get_varint32-encode_varint32, get_varint32_takes, get_varint32_shorter,
}
use native.Mathlib.Nat.{mod-eq_of_lt}

-- What `PutLengthPrefixedSlice` appends.
abbrev pub prefixed : Bytes → Bytes
prefixed value = encode_varint32 (length value) ++ value

pub put_length_prefixed_slice-prefixed :
    (dst value : Bytes)
    → IsU32 (length value)
    → put_length_prefixed_slice dst value ≡ dst ++ prefixed value
unfolding put_length_prefixed_slice put_varint32
put_length_prefixed_slice-prefixed dst value h =
    rw (mod-eq_of_lt h) (append_assoc dst (encode_varint32 (length value)) value)

take_prefix-append :
    (value rest : Bytes) → take_prefix (length value) (value ++ rest) ≡ some (value, rest)
unfolding take_prefix
take_prefix-append value rest =
    ground (
      arith,
      length-append value rest,
      take-append_length value rest,
      drop-append_length value rest,
    )

-- `GetLengthPrefixedSlice` reads back a slice that `PutLengthPrefixedSlice` appended to an empty
-- string, and leaves what follows.
pub get_length_prefixed_slice-put_length_prefixed_slice :
    (value rest : Bytes)
    → IsU32 (length value)
    → get_length_prefixed_slice (put_length_prefixed_slice [] value ++ rest) ≡ some (value, rest)
unfolding get_length_prefixed_slice
get_length_prefixed_slice-put_length_prefixed_slice value rest h =
    rw
      (
        put_length_prefixed_slice-prefixed [] value h,
        append_assoc (encode_varint32 (length value)) value rest,
        get_length_prefixed_slice,
        get_varint32-encode_varint32 (length value) (value ++ rest) h,
      )
      (take_prefix-append value rest)

pub get_length_prefixed_slice-prefixed :
    (value rest : Bytes)
    → IsU32 (length value)
    → get_length_prefixed_slice (prefixed value ++ rest) ≡ some (value, rest)
get_length_prefixed_slice-prefixed value rest h =
    rw (put_length_prefixed_slice-prefixed [] value h) at
      (get_length_prefixed_slice-put_length_prefixed_slice value rest h)

take_prefix_takes :
    (len : ℕ) (input value rest : Bytes)
    → take_prefix len input ≡ some (value, rest)
    → (length value ≡ len) × (value ++ rest ≡ input)
unfolding take_prefix
take_prefix_takes len input value rest e =
    ground (arith, take-append-drop len input, length-take len input)

-- A slice that is read, and the rest behind it, are a proper suffix of the input; the slice has the
-- length that its prefix gives.
pub get_length_prefixed_slice_takes :
    (input value rest : Bytes)
    → AllBytes input
    → get_length_prefixed_slice input ≡ some (value, rest)
    → (tail : Bytes) × (get_varint32 input ≡ some (length value, tail))
      × (value ++ rest ≡ tail)
      × (length tail < length input)
unfolding get_length_prefixed_slice
get_length_prefixed_slice_takes input value rest h e = split (get_varint32 input) refl e
  where
    split :
        (r : Option (ℕ × Bytes))
        → get_varint32 input ≡ r
        → get_length_prefixed_slice input ≡ some (value, rest)
        → (tail : Bytes) × (get_varint32 input ≡ some (length value, tail))
          × (value ++ rest ≡ tail)
          × (length tail < length input)
    split none q e = ground arith
    split (some (len, tail)) q e =
        let e' : take_prefix len tail ≡ some (value, rest) = ground arith in
        let t = take_prefix_takes len tail value rest e' in
        (tail, ground arith, t.1, (get_varint32_takes input len tail h q).1)

take_prefix_shorter :
    (len : ℕ) (input value rest : Bytes)
    → take_prefix len input ≡ some (value, rest)
    → length rest ≤ length input
unfolding take_prefix
take_prefix_shorter len input value rest e = ground (arith, length-drop len input)

-- On any input, what is left behind a slice is shorter.
pub get_length_prefixed_slice_shorter :
    (input value rest : Bytes)
    → get_length_prefixed_slice input ≡ some (value, rest)
    → length rest < length input
unfolding get_length_prefixed_slice
get_length_prefixed_slice_shorter input value rest e = elim (Option-cases (get_varint32 input)) [
  | inl q ↦ ground arith
  | inr ((len, tail), q) ↦
      ground (arith, take_prefix_shorter len tail value rest, get_varint32_shorter input len tail q)
]
