-- ===== src/Coding/Varint.antt =====
-- Varints: the unrolled writer against the loop, the readers against the writers, and what the
-- readers do on any input.
use leveldb_mcpe_dotnet.Common.{
  ℕ, zero, suc, ◌+◌, ◌*◌, ◌/◌, ◌%◌, ◌^◌, ◌≤◌, ◌<◌, bit_or, some, [], ◌∷◌, ◌++◌, ◌≡◌, refl, sym, ◌∙◌,
  length, bit_and, lt_wf, arith,
}
use leveldb_mcpe_dotnet.Common.Bits.{bit_and_127, bit_or_128_byte, zero-bit_or, bit_or-lt-pow}
use leveldb_mcpe_dotnet.Common.Bytes.{Bytes, AllBytes, IsU32, IsU64}
use leveldb_mcpe_dotnet.Coding.{
  shr, encode_varint32, encode_varint64, encode_varint64_loop, varint_length, varint_length_loop,
  get_varint_loop, get_varint32_ptr_fallback, get_varint32_ptr, get_varint32, get_varint64_ptr,
  get_varint64,
}
use leveldb_mcpe_dotnet.Coding.Groups.{groups, length-groups_bounds, get_varint_loop-groups}
use mathlib.Core.WellFounded.{Acc}
use native.Mathlib.Nat.{mod-lt, one-le-pow}

group_byte : (v : ℕ) → bit_or (v % 128) 128 % 256 ≡ v % 128 + 128
group_byte v = omega (arith, bit_or_128_byte (v % 128))

encode_varint64_loop-groups :
    (k v : ℕ) (w : Acc ◌<◌ v) → v < 128 ^ suc k → encode_varint64_loop v w ≡ groups k v
unfolding encode_varint64_loop groups
encode_varint64_loop-groups zero v (Acc.intro _ smaller) h = ground arith
encode_varint64_loop-groups (suc k) v (Acc.intro _ smaller) h = grind (
  arith,
  bit_and_127 v,
  group_byte v,
  λ (w : Acc ◌<◌ (v / 128)). encode_varint64_loop-groups k (v / 128) w (omega arith),
)

pub encode_varint64-groups : (v : ℕ) → IsU64 v → encode_varint64 v ≡ groups 9 v
unfolding encode_varint64
encode_varint64-groups v h = encode_varint64_loop-groups 9 v (lt_wf.apply v) (omega arith)

pub encode_varint32-groups : (v : ℕ) → IsU32 v → encode_varint32 v ≡ groups 4 v
unfolding encode_varint32 groups
encode_varint32-groups v h = ground (
  arith,
  bit_or_128_byte v,
  bit_or_128_byte (shr v 7),
  bit_or_128_byte (shr v 14),
  bit_or_128_byte (shr v 21),
)

groups_fuel : (j k v : ℕ) → v < 128 ^ suc j → v < 128 ^ suc k → groups j v ≡ groups k v
unfolding groups
groups_fuel zero zero v h l = refl
groups_fuel zero (suc k) v h l = ground arith
groups_fuel (suc j) zero v h l = ground arith
groups_fuel (suc j) (suc k) v h l =
    ground (arith, groups_fuel j k (v / 128) (omega arith) (omega arith))

-- The unrolled EncodeVarint32 writes the bytes that the loop of EncodeVarint64 writes, for every
-- 32-bit value.
pub encode_varint32-encode_varint64 : (v : ℕ) → IsU32 v → encode_varint32 v ≡ encode_varint64 v
encode_varint32-encode_varint64 v h =
    encode_varint32-groups v h
    ∙ groups_fuel 4 9 v (omega arith) (omega arith)
    ∙ sym (encode_varint64-groups v (omega arith))

varint_length_loop-groups :
    (k v len : ℕ) (w : Acc ◌<◌ v)
    → v < 128 ^ suc k
    → varint_length_loop v len w + 1 ≡ len + length (groups k v)
unfolding varint_length_loop groups
varint_length_loop-groups zero v len (Acc.intro _ smaller) h = ground arith
varint_length_loop-groups (suc k) v len (Acc.intro _ smaller) h = grind (
  arith,
  λ (w : Acc ◌<◌ (v / 128)). varint_length_loop-groups k (v / 128) (len + 1) w (omega arith),
)

-- `VarintLength` is the number of bytes that `EncodeVarint64` writes, 1 to 10.
pub varint_length-encode_varint64 :
    (v : ℕ)
    → IsU64 v
    → (varint_length v ≡ length (encode_varint64 v))
      × (1 ≤ varint_length v)
      × (varint_length v ≤ 10)
unfolding varint_length
varint_length-encode_varint64 v h = rw (encode_varint64-groups v h) (
    omega (
      arith,
      varint_length_loop-groups 9 v 1 (lt_wf.apply v) (omega arith),
      length-groups_bounds 9 v,
    ))

abbrev HeadIsByte : Bytes → Type 0
HeadIsByte [] = Unit
HeadIsByte (b ∷ p) = b < 256

fast_path-fallback : (p : Bytes) → HeadIsByte p → get_varint32_ptr p ≡ get_varint32_ptr_fallback p
unfolding get_varint32_ptr get_varint32_ptr_fallback get_varint_loop
fast_path-fallback [] h = refl
fast_path-fallback (b ∷ p) h = ground (arith, zero-bit_or (b * 1 % 2 ^ 32))

AllBytes-head : (p : Bytes) → AllBytes p → HeadIsByte p
AllBytes-head [] h = tt
AllBytes-head (b ∷ p) h = h.0

-- On bytes, the fast path of `GetVarint32Ptr` gives what the fallback gives.
pub get_varint32_ptr-fallback :
    (p : Bytes) → AllBytes p → get_varint32_ptr p ≡ get_varint32_ptr_fallback p
get_varint32_ptr-fallback p h = fast_path-fallback p (AllBytes-head p h)

groups-head : (k v : ℕ) (rest : Bytes) → v < 128 ^ suc k → HeadIsByte (groups k v ++ rest)
unfolding groups
groups-head zero v rest h = omega arith
groups-head (suc k) v rest h = ground arith

-- GetVarint32 reads back a 32-bit value that EncodeVarint32 wrote and leaves what follows.
pub get_varint32-encode_varint32 :
    (v : ℕ) (rest : Bytes) → IsU32 v → get_varint32 (encode_varint32 v ++ rest) ≡ some (v, rest)
unfolding get_varint32 get_varint32_ptr_fallback
get_varint32-encode_varint32 v rest h =
    rw (encode_varint32-groups v h, fast_path-fallback, groups-head 4 v rest (omega arith))
      (ground (arith, get_varint_loop-groups 28 32 4 v 0 0 rest (omega arith)))

pub get_varint32_ptr-encode_varint32 :
    (v : ℕ) (rest : Bytes) → IsU32 v → get_varint32_ptr (encode_varint32 v ++ rest) ≡ some (v, rest)
unfolding get_varint32
get_varint32_ptr-encode_varint32 v rest h = get_varint32-encode_varint32 v rest h

-- GetVarint64 reads back a 64-bit value that EncodeVarint64 wrote and leaves what follows.
pub get_varint64-encode_varint64 :
    (v : ℕ) (rest : Bytes) → IsU64 v → get_varint64 (encode_varint64 v ++ rest) ≡ some (v, rest)
unfolding get_varint64 get_varint64_ptr
get_varint64-encode_varint64 v rest h =
    rw (encode_varint64-groups v h)
      (ground (arith, get_varint_loop-groups 63 64 9 v 0 0 rest (omega arith)))

-- What a reader may answer: the value fits the width, and what is left is a proper suffix.
get_varint_loop_takes :
    (last width : ℕ) (p : Bytes) (r s v : ℕ) (rest : Bytes)
    → r < 2 ^ width
    → get_varint_loop last width p r s ≡ some (v, rest)
    → (v < 2 ^ width) × (length rest < length p)
unfolding get_varint_loop
get_varint_loop_takes last width [] r s v rest h e = cc
get_varint_loop_takes last width (b ∷ p) r s v rest h e = ground (
  arith,
  bit_or-lt-pow width r (bit_and b 127 * 2 ^ s % 2 ^ width),
  bit_or-lt-pow width r (b * 2 ^ s % 2 ^ width),
  one-le-pow width 2,
  mod-lt (bit_and b 127 * 2 ^ s) {m = 2 ^ width},
  mod-lt (b * 2 ^ s) {m = 2 ^ width},
  get_varint_loop_takes last width p (bit_or r (bit_and b 127 * 2 ^ s % 2 ^ width)) (s + 7) v rest,
)

-- `GetVarint32` answers a `uint32_t`, and takes one byte at least.
pub get_varint32_takes :
    (input : Bytes) (v : ℕ) (rest : Bytes)
    → AllBytes input
    → get_varint32 input ≡ some (v, rest)
    → IsU32 v × (length rest < length input)
unfolding get_varint32 get_varint32_ptr_fallback
get_varint32_takes input v rest h e =
    get_varint_loop_takes 28 32 input 0 0 v rest (omega arith)
      (rw (get_varint32_ptr-fallback input h) at e)

-- `GetVarint64` answers a `uint64_t`, and takes one byte at least.
pub get_varint64_takes :
    (input : Bytes) (v : ℕ) (rest : Bytes)
    → get_varint64 input ≡ some (v, rest)
    → IsU64 v × (length rest < length input)
unfolding get_varint64 get_varint64_ptr
get_varint64_takes input v rest e = get_varint_loop_takes 63 64 input 0 0 v rest (omega arith) e

-- On any input, bytes or not, what is left is shorter.
pub get_varint32_shorter :
    (input : Bytes) (v : ℕ) (rest : Bytes)
    → get_varint32 input ≡ some (v, rest)
    → length rest < length input
unfolding get_varint32 get_varint32_ptr get_varint32_ptr_fallback
get_varint32_shorter [] v rest e = (get_varint_loop_takes 28 32 [] 0 0 v rest (omega arith) e).1
get_varint32_shorter (b ∷ p) v rest e =
    ground (arith, get_varint_loop_takes 28 32 (b ∷ p) 0 0 v rest (omega arith))
