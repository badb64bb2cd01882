-- ===== src/Hash.antt =====
-- util/hash.cc: the hash of a byte string with a seed, on 32-bit integers.
mod Tests
use leveldb_mcpe_dotnet.Common.{ℕ, ◌+◌, ◌*◌, ◌/◌, ◌%◌, ◌^◌, bit_xor, List, [], ◌∷◌, length}
use leveldb_mcpe_dotnet.Common.Bytes.{Bytes}
use leveldb_mcpe_dotnet.Coding.{decode_fixed32, shr}

abbrev hash_m : ℕ
hash_m = 0xc6a4a793

abbrev hash_r : ℕ
hash_r = 24

-- `h *= m; h ^= (h >> s)`.
unfoldable pub stir : ℕ → ℕ → ℕ
stir h s = let g = h * hash_m % 2 ^ 32 in bit_xor g (shr g s)

-- The last bytes, from the third on down: `case 3`, `case 2` and `case 1` fall through.
unfoldable pub hash_tail : ℕ → Bytes → ℕ
unfolding stir
hash_tail h (x ∷ y ∷ z ∷ rest) = stir ((h + z * 2 ^ 16 + y * 2 ^ 8 + x) % 2 ^ 32) hash_r
hash_tail h (x ∷ y ∷ []) = stir ((h + y * 2 ^ 8 + x) % 2 ^ 32) hash_r
hash_tail h (x ∷ []) = stir ((h + x) % 2 ^ 32) hash_r
hash_tail h [] = h

-- Four bytes at a time.
unfoldable pub hash_loop : ℕ → Bytes → ℕ
unfolding stir hash_tail decode_fixed32
hash_loop h (a ∷ b ∷ c ∷ d ∷ rest) =
    hash_loop (stir ((h + decode_fixed32 (a ∷ b ∷ c ∷ d ∷ [])) % 2 ^ 32) 16) rest
hash_loop h (a ∷ b ∷ c ∷ []) = hash_tail h (a ∷ b ∷ c ∷ [])
hash_loop h (a ∷ b ∷ []) = hash_tail h (a ∷ b ∷ [])
hash_loop h (a ∷ []) = hash_tail h (a ∷ [])
hash_loop h [] = hash_tail h []

unfoldable pub hash : Bytes → ℕ → ℕ
unfolding hash_loop
hash data_ seed = hash_loop (bit_xor seed (length data_ % 2 ^ 32 * hash_m % 2 ^ 32)) data_
