-- ===== src/Coding/Fixed.antt =====
-- Fixed-width integers are read back as they were written.
use leveldb_mcpe_dotnet.Common.{
  ℕ, ◌+◌, ◌*◌, ◌/◌, ◌%◌, ◌^◌, ◌<◌, bit_or, ◌≡◌, refl, ◌∷◌, ◌++◌, length, drop, arith, append_assoc,
  drop-append_length,
}
use leveldb_mcpe_dotnet.Common.Bits.{bit_and_255, bit_or_shifted, shifted_bit_or}
use leveldb_mcpe_dotnet.Common.Bytes.{Bytes, AllBytes, IsU32, IsU64}
use native.Mathlib.Nat.{mod-eq_of_lt}
use leveldb_mcpe_dotnet.Coding.{
  shl32, shl64, shr, encode_fixed32, encode_fixed64, decode_fixed32, decode_fixed64,
}

-- A byte shifted to bit `s` of a word, next to `r` below it.
or_shl32 : (s r x : ℕ) → r < 2 ^ s → x * 2 ^ s < 2 ^ 32 → bit_or r (shl32 x s) ≡ r + x * 2 ^ s
or_shl32 s r x h k = rw (mod-eq_of_lt k) (bit_or_shifted s r x h)

or_shl64 : (s r x : ℕ) → r < 2 ^ s → x * 2 ^ s < 2 ^ 64 → bit_or r (shl64 x s) ≡ r + x * 2 ^ s
or_shl64 s r x h k = rw (mod-eq_of_lt k) (bit_or_shifted s r x h)

decode_fixed32_bytes :
    (a b c d : ℕ) (rest : Bytes)
    → a < 256
    → b < 256
    → c < 256
    → d < 256
    → decode_fixed32 (a ∷ b ∷ c ∷ d ∷ rest) ≡ a + b * 2 ^ 8 + c * 2 ^ 16 + d * 2 ^ 24
unfolding decode_fixed32
decode_fixed32_bytes a b c d rest ha hb hc hd = rw (or_shl32 8 a b (omega arith) (omega arith)) (
    rw (or_shl32 16 (a + b * 2 ^ 8) c (omega arith) (omega arith))
      (or_shl32 24 (a + b * 2 ^ 8 + c * 2 ^ 16) d (omega arith) (omega arith)))

-- `DecodeFixed32` reads back what `EncodeFixed32` wrote, whatever follows.
pub decode_fixed32-encode_fixed32 :
    (v : ℕ) (rest : Bytes) → IsU32 v → decode_fixed32 (encode_fixed32 v ++ rest) ≡ v
unfolding encode_fixed32
decode_fixed32-encode_fixed32 v rest h =
    rw (bit_and_255 v, bit_and_255 (shr v 8), bit_and_255 (shr v 16), bit_and_255 (shr v 24))
      (omega (
        arith,
        decode_fixed32_bytes (v % 256) (shr v 8 % 256) (shr v 16 % 256) (shr v 24 % 256) rest
            (omega arith) (omega arith) (omega arith) (omega arith),
      ))

shl64_or : (s x r : ℕ) → r < 2 ^ s → x * 2 ^ s < 2 ^ 64 → bit_or (shl64 x s) r ≡ x * 2 ^ s + r
shl64_or s x r h k = rw (mod-eq_of_lt k) (shifted_bit_or s x r h)

-- The 64-bit reader joins two 32-bit halves, the low one first.
decode_fixed64_halves :
    (lo hi : ℕ) (p q : Bytes)
    → length p ≡ 4
    → decode_fixed32 (p ++ q) ≡ lo
    → decode_fixed32 q ≡ hi
    → IsU32 lo
    → IsU32 hi
    → decode_fixed64 (p ++ q) ≡ hi * 2 ^ 32 + lo
unfolding decode_fixed64
decode_fixed64_halves lo hi p q four elo ehi hlo hhi =
    let behind : drop 4 (p ++ q) ≡ q = rw four at (drop-append_length p q) in
    rw (behind, elo, ehi) (shl64_or 32 hi lo hlo (omega arith))

encode_fixed64-halves :
    (v : ℕ) → encode_fixed64 v ≡ encode_fixed32 (v % 2 ^ 32) ++ encode_fixed32 (v / 2 ^ 32)
unfolding encode_fixed64 encode_fixed32
encode_fixed64-halves v = simp bit_and_255 (ground arith)

-- `DecodeFixed64` reads back what `EncodeFixed64` wrote, whatever follows.
pub decode_fixed64-encode_fixed64 :
    (v : ℕ) (rest : Bytes) → IsU64 v → decode_fixed64 (encode_fixed64 v ++ rest) ≡ v
unfolding encode_fixed32
decode_fixed64-encode_fixed64 v rest h =
    let lo = v % 2 ^ 32 in
    let hi = v / 2 ^ 32 in
    rw (encode_fixed64-halves v, append_assoc)
      (omega (
        arith,
        decode_fixed64_halves lo hi (encode_fixed32 lo) (encode_fixed32 hi ++ rest) refl
            (decode_fixed32-encode_fixed32 lo _ (omega arith))
            (decode_fixed32-encode_fixed32 hi rest (omega arith)) (omega arith) (omega arith),
      ))

-- The writers give four and eight bytes.
pub length-encode_fixed32 : (v : ℕ) → length (encode_fixed32 v) ≡ 4
unfolding encode_fixed32
length-encode_fixed32 v = refl

pub length-encode_fixed64 : (v : ℕ) → length (encode_fixed64 v) ≡ 8
unfolding encode_fixed64
length-encode_fixed64 v = refl

pub encode_fixed32-bytes : (v : ℕ) → AllBytes (encode_fixed32 v)
unfolding encode_fixed32
encode_fixed32-bytes v = simp bit_and_255 (omega arith)

pub encode_fixed64-bytes : (v : ℕ) → AllBytes (encode_fixed64 v)
unfolding encode_fixed64
encode_fixed64-bytes v = simp bit_and_255 (omega arith)
