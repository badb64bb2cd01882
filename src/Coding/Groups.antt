-- ===== src/Coding/Groups.antt =====
-- The base-128 groups of a number, lowest first, each but the last with bit 7 set: what the varint
-- writers produce and the readers take apart.
use leveldb_mcpe_dotnet.Common.{
  ℕ, zero, suc, ◌+◌, ◌*◌, ◌/◌, ◌%◌, ◌^◌, ◌≤◌, ◌<◌, some, [], ◌∷◌, ◌++◌, ◌≡◌, ap, length, ltb,
  if◌then◌else◌, arith,
}
use leveldb_mcpe_dotnet.Common.Bits.{bit_and_127, bit_and-pow_128, bit_or_shifted}
use leveldb_mcpe_dotnet.Common.Bytes.{Bytes, AllBytes}
use leveldb_mcpe_dotnet.Coding.{get_varint_loop}
use native.Mathlib.Nat.{div-add-mod, mod-eq_of_lt}
use native.Mathlib.Numerals.{towards_suc}

-- `more` groups at most stand behind the first.
unfoldable pub groups : ℕ → ℕ → Bytes
groups zero v = v ∷ []
groups (suc more) v =
    let rest = groups more (v / 128) in if ltb v 128 then v ∷ [] else (v % 128 + 128) ∷ rest

pub groups-bytes : (k v : ℕ) → v < 128 ^ suc k → AllBytes (groups k v)
unfolding groups
groups-bytes zero v h = omega arith
groups-bytes (suc k) v h = ground (arith, groups-bytes k (v / 128) (omega arith))

pub length-groups_bounds : (k v : ℕ) → (1 ≤ length (groups k v)) × (length (groups k v) ≤ suc k)
unfolding groups
length-groups_bounds zero v = omega arith
length-groups_bounds (suc k) v = ground (arith, length-groups_bounds k (v / 128))

-- One round of the reader, on a group that is the last and on one that is not.
last_round :
    (last width g r s : ℕ) (rest : Bytes)
    → g < 128
    → s ≤ last
    → r < 2 ^ s
    → g * 2 ^ s < 2 ^ width
    → get_varint_loop last width (g ∷ rest) r s ≡ some (r + g * 2 ^ s, rest)
unfolding get_varint_loop
last_round last width g r s rest hg hs hr fits =
    ground (arith, bit_and-pow_128 g, mod-eq_of_lt fits, bit_or_shifted s r g hr)

inner_round :
    (last width g r s : ℕ) (rest : Bytes)
    → g < 128
    → s ≤ last
    → r < 2 ^ s
    → g * 2 ^ s < 2 ^ width
    → get_varint_loop last width ((g + 128) ∷ rest) r s
      ≡ get_varint_loop last width rest (r + g * 2 ^ s) (s + 7)
unfolding get_varint_loop
inner_round last width g r s rest hg hs hr fits = ground (
  arith,
  bit_and-pow_128 (g + 128),
  bit_and_127 (g + 128),
  mod-eq_of_lt fits,
  bit_or_shifted s r g hr,
)

pow_shift_7 : (s : ℕ) → 2 ^ (s + 7) ≡ 128 * 2 ^ s
pow_shift_7 s = simp towards_suc (omega arith)

-- The lowest group of `v` and the groups above it, both from bit `s` on.
split_groups : (v s : ℕ) → v * 2 ^ s ≡ v % 128 * 2 ^ s + v / 128 * 2 ^ (s + 7)
split_groups v s = omega (
  arith,
  ap (λ (t : ℕ). t * 2 ^ s) (div-add-mod v 128),
  ap (λ (t : ℕ). v / 128 * t) (pow_shift_7 s),
)

fits_next : (g r s : ℕ) → g < 128 → r < 2 ^ s → r + g * 2 ^ s < 2 ^ (s + 7)
fits_next g r s hg hr = rw (pow_shift_7 s) (grind arith)

-- The reader adds the number whose groups it meets, from bit `s` on, to what it has.
pub get_varint_loop-groups :
    (last width k v r s : ℕ) (rest : Bytes)
    → v < 128 ^ suc k
    → s + 7 * k ≤ last
    → r < 2 ^ s
    → v * 2 ^ s < 2 ^ width
    → get_varint_loop last width (groups k v ++ rest) r s ≡ some (r + v * 2 ^ s, rest)
unfolding groups
get_varint_loop-groups last width zero v r s rest hv hs hr fits =
    last_round last width v r s rest hv (omega arith) hr fits
get_varint_loop-groups last width (suc k) v r s rest hv hs hr fits = ground (
  arith,
  last_round last width v r s rest,
  split_groups v s,
  fits_next (v % 128) r s,
  inner_round last width (v % 128) r s (groups k (v / 128) ++ rest),
  get_varint_loop-groups last width k (v / 128) (r + v % 128 * 2 ^ s) (s + 7) rest (omega arith),
)
