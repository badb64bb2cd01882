-- ===== src/Coding.antt =====
-- util/coding.cc and util/coding.h: fixed-width integers, varints and length-prefixed slices.
-- A pointer pair `p, limit` and a `Slice` are the bytes from `p` on. `dst->append(...)` is `++`,
-- so each `put` takes the string that it extends first. A `get` returns the value and the bytes
-- behind it, or `none` where the source returns NULL or false.
pub mod Fixed
pub mod Groups
pub mod Varint
pub mod Prefixed
mod Tests
use leveldb_mcpe_dotnet.Common.{
  ℕ, zero, suc, ◌+◌, ◌*◌, ◌/◌, ◌%◌, ◌^◌, ◌≤◌, ◌<◌, bit_and, bit_or, Bool, Option, none, some, List,
  [], ◌∷◌, ◌++◌, length, take, drop, get_or, ltb, leb, ◌==◌, if◌then◌else◌, lt_wf, arith,
}
use leveldb_mcpe_dotnet.Common.Bytes.{Bytes}
use mathlib.Core.Logic.{dite}
use mathlib.Core.WellFounded.{Acc}
use native.Mathlib.Decide.{dec_le}

-- A store into an `unsigned char`, and `x << s` and `x >> s` on `uint32_t` and `uint64_t`.
abbrev pub to_byte : ℕ → ℕ
to_byte v = v % 256

abbrev pub shl32 : ℕ → ℕ → ℕ
shl32 x s = x * 2 ^ s % 2 ^ 32

abbrev pub shl64 : ℕ → ℕ → ℕ
shl64 x s = x * 2 ^ s % 2 ^ 64

abbrev pub shr : ℕ → ℕ → ℕ
shr x s = x / 2 ^ s

unfoldable pub encode_fixed32 : ℕ → Bytes
encode_fixed32 value =
    bit_and value 0xff
    ∷ bit_and (shr value 8) 0xff
    ∷ bit_and (shr value 16) 0xff
    ∷ bit_and (shr value 24) 0xff
    ∷ []

unfoldable pub encode_fixed64 : ℕ → Bytes
encode_fixed64 value =
    bit_and value 0xff
    ∷ bit_and (shr value 8) 0xff
    ∷ bit_and (shr value 16) 0xff
    ∷ bit_and (shr value 24) 0xff
    ∷ bit_and (shr value 32) 0xff
    ∷ bit_and (shr value 40) 0xff
    ∷ bit_and (shr value 48) 0xff
    ∷ bit_and (shr value 56) 0xff
    ∷ []

unfoldable pub put_fixed32 : Bytes → ℕ → Bytes
put_fixed32 dst value = dst ++ encode_fixed32 value

unfoldable pub put_fixed64 : Bytes → ℕ → Bytes
put_fixed64 dst value = dst ++ encode_fixed64 value

-- No bounds are checked: a byte past the end, which the source would read all the same, reads 0.
unfoldable pub decode_fixed32 : Bytes → ℕ
decode_fixed32 ptr =
    bit_or (bit_or (bit_or (get_or ptr 0 0) (shl32 (get_or ptr 1 0) 8)) (shl32 (get_or ptr 2 0) 16))
      (shl32 (get_or ptr 3 0) 24)

unfoldable pub decode_fixed64 : Bytes → ℕ
unfolding decode_fixed32
decode_fixed64 ptr =
    let lo = decode_fixed32 ptr in let hi = decode_fixed32 (drop 4 ptr) in bit_or (shl64 hi 32) lo

unfoldable pub encode_varint32 : ℕ → Bytes
encode_varint32 v =
    if ltb v (2 ^ 7)
    then to_byte v ∷ []
    else if ltb v (2 ^ 14)
    then to_byte (bit_or v 128) ∷ to_byte (shr v 7) ∷ []
    else if ltb v (2 ^ 21)
    then to_byte (bit_or v 128) ∷ to_byte (bit_or (shr v 7) 128) ∷ to_byte (shr v 14) ∷ []
    else if ltb v (2 ^ 28)
    then to_byte (bit_or v 128)
      ∷ to_byte (bit_or (shr v 7) 128)
      ∷ to_byte (bit_or (shr v 14) 128)
      ∷ to_byte (shr v 21)
      ∷ []
    else to_byte (bit_or v 128)
      ∷ to_byte (bit_or (shr v 7) 128)
      ∷ to_byte (bit_or (shr v 14) 128)
      ∷ to_byte (bit_or (shr v 21) 128)
      ∷ to_byte (shr v 28)
      ∷ []

unfoldable pub put_varint32 : Bytes → ℕ → Bytes
put_varint32 dst v = dst ++ encode_varint32 v

pub shr_7_lt : (v : ℕ) → 128 ≤ v → shr v 7 < v
shr_7_lt v h = omega arith

-- `while (v >= B)`, by recursion on `v` being accessible.
unfoldable pub encode_varint64_loop : (v : ℕ) → Acc ◌<◌ v → Bytes
encode_varint64_loop v (Acc.intro _ smaller) =
    dite (dec_le 128 v)
      (λ more.
        to_byte (bit_or (bit_and v 127) 128)
        ∷ encode_varint64_loop (shr v 7) (smaller (shr v 7) (shr_7_lt v more)))
      (λ _. to_byte v ∷ [])

unfoldable pub encode_varint64 : ℕ → Bytes
unfolding encode_varint64_loop lt_wf dec_le
encode_varint64 v = encode_varint64_loop v (lt_wf.apply v)

unfoldable pub put_varint64 : Bytes → ℕ → Bytes
put_varint64 dst v = dst ++ encode_varint64 v

-- The length is cast to `uint32_t`.
unfoldable pub put_length_prefixed_slice : Bytes → Bytes → Bytes
put_length_prefixed_slice dst value = put_varint32 dst (length value % 2 ^ 32) ++ value

varint_length_loop : (v len : ℕ) → Acc ◌<◌ v → ℕ
varint_length_loop v len (Acc.intro _ smaller) =
    dite (dec_le 128 v)
      (λ more. varint_length_loop (shr v 7) (len + 1) (smaller (shr v 7) (shr_7_lt v more)))
      (λ _. len)

unfoldable pub varint_length : ℕ → ℕ
unfolding varint_length_loop lt_wf dec_le
varint_length v = varint_length_loop v 1 (lt_wf.apply v)

-- The loop `for (shift = 0; shift <= last && p < limit; shift += 7)` of both readers, over
-- integers of `width` bits.
unfoldable pub get_varint_loop : ℕ → ℕ → Bytes → ℕ → ℕ → Option (ℕ × Bytes)
get_varint_loop last width [] result shift = none
get_varint_loop last width (byte ∷ p) result shift =
    let more =
      get_varint_loop last width p (bit_or result (bit_and byte 127 * 2 ^ shift % 2 ^ width))
        (shift + 7) in
    if leb shift last
    then if bit_and byte 128 == 0
      then some (bit_or result (byte * 2 ^ shift % 2 ^ width), p)
      else more
    else none

unfoldable pub get_varint32_ptr_fallback : Bytes → Option (ℕ × Bytes)
unfolding get_varint_loop
get_varint32_ptr_fallback p = get_varint_loop 28 32 p 0 0

-- A first byte below 128 is the value.
unfoldable pub get_varint32_ptr : Bytes → Option (ℕ × Bytes)
unfolding get_varint32_ptr_fallback
get_varint32_ptr [] = get_varint32_ptr_fallback []
get_varint32_ptr (result ∷ p) =
    if bit_and result 128 == 0 then some (result, p) else get_varint32_ptr_fallback (result ∷ p)

unfoldable pub get_varint32 : Bytes → Option (ℕ × Bytes)
unfolding get_varint32_ptr
get_varint32 input = get_varint32_ptr input

unfoldable pub get_varint64_ptr : Bytes → Option (ℕ × Bytes)
unfolding get_varint_loop
get_varint64_ptr p = get_varint_loop 63 64 p 0 0

unfoldable pub get_varint64 : Bytes → Option (ℕ × Bytes)
unfolding get_varint64_ptr
get_varint64 input = get_varint64_ptr input

-- The slice, and the input behind it.
take_prefix : ℕ → Bytes → Option (Bytes × Bytes)
take_prefix len input =
    if leb len (length input) then some (take len input, drop len input) else none

unfoldable pub get_length_prefixed_slice : Bytes → Option (Bytes × Bytes)
unfolding get_varint32 take_prefix
get_length_prefixed_slice input = elim (get_varint32 input) [
  | none ↦ none
  | some (len, rest) ↦ take_prefix len rest
]
