-- ===== src/Bloom/Array.antt =====
-- The byte array of a filter as a set of bit positions.
use leveldb_mcpe_dotnet.Common.{
  ℕ, zero, suc, ◌+◌, ◌*◌, ◌/◌, ◌%◌, ◌^◌, ◌≤◌, ◌<◌, bit_or, true, List, All, [], ◌∷◌, length, get_or,
  ◌≡◌, refl, ◌∙◌, arith, length-set, get_or-set_self, get_or-set_ne,
}
use leveldb_mcpe_dotnet.Common.BitSets.{bit, bit_or-bit, bit_and-pow, bit-pow, bit-le}
use leveldb_mcpe_dotnet.Common.Bytes.{Bytes}
use native.Mathlib.Nat.{one-le-pow, mod-lt}
use native.Mathlib.Decide.{ℕ_discrete}
use leveldb_mcpe_dotnet.Bloom.{set_bit, has_bit, set_probes, add_keys, bloom_hash, delta}

-- The bit at a position, 0 or 1.
abbrev pub bit_at : Bytes → ℕ → ℕ
bit_at array pos = bit (pos % 8) (get_or array (pos / 8) 0)

pow_pos : (i : ℕ) → 1 ≤ 2 ^ i
pow_pos i = one-le-pow i 2 (omega arith)

pub has_bit-bit_at : (array : Bytes) (pos : ℕ) → bit_at array pos ≡ 1 → has_bit array pos ≡ true
unfolding has_bit
has_bit-bit_at array pos one =
    rw (bit_and-pow (pos % 8) (get_or array (pos / 8) 0), one) (ground (arith, pow_pos (pos % 8)))

pub bit_at-set_bit_self :
    (array : Bytes) (pos : ℕ) → pos < length array * 8 → bit_at (set_bit array pos) pos ≡ 1
unfolding set_bit
bit_at-set_bit_self array pos h =
    rw
      (
        get_or-set_self array (pos / 8) (bit_or (get_or array (pos / 8) 0) (2 ^ (pos % 8))) 0
            (omega arith),
        bit_or-bit (pos % 8) (get_or array (pos / 8) 0) (2 ^ (pos % 8)),
        bit-pow (pos % 8),
      )
      (omega (arith, bit-le (pos % 8) (get_or array (pos / 8) 0)))

-- No bit is taken back.
pub bit_at-set_bit :
    (array : Bytes) (pos p : ℕ)
    → pos < length array * 8
    → bit_at array p ≡ 1
    → bit_at (set_bit array pos) p ≡ 1
unfolding set_bit
bit_at-set_bit array pos p h one = elim (ℕ_discrete (pos / 8) (p / 8)) [
  | no apart ↦
      rw
        (get_or-set_ne array (pos / 8) (p / 8) (bit_or (get_or array (pos / 8) 0) (2 ^ (pos % 8))) 0
          apart)
        one
  | yes same ↦
      let old = get_or array (p / 8) 0 in
      rw
        (
          same,
          get_or-set_self array (p / 8) (bit_or old (2 ^ (pos % 8))) 0 (omega arith),
          bit_or-bit (p % 8) old (2 ^ (pos % 8)),
          one,
        )
        (omega (arith, bit-le (p % 8) (2 ^ (pos % 8))))
]

pub length-set_bit : (array : Bytes) (pos : ℕ) → length (set_bit array pos) ≡ length array
unfolding set_bit
length-set_bit array pos = length-set array (pos / 8) _

-- The same of the inner loop.
pub length-set_probes :
    (k : ℕ) (array : Bytes) (h d bits : ℕ) → length (set_probes k array h d bits) ≡ length array
unfolding set_probes
length-set_probes zero array h d bits = refl
length-set_probes (suc k) array h d bits =
    length-set_probes k (set_bit array (h % bits)) ((h + d) % 2 ^ 32) d bits
    ∙ length-set_bit array (h % bits)

pub length-add_keys :
    (k bits : ℕ) (array : Bytes) (keys : List Bytes)
    → length (add_keys k bits array keys) ≡ length array
unfolding add_keys
length-add_keys k bits array [] = refl
length-add_keys k bits array (key ∷ keys) =
    length-add_keys k bits (set_probes k array (bloom_hash key) (delta (bloom_hash key)) bits) keys
    ∙ length-set_probes k array (bloom_hash key) (delta (bloom_hash key)) bits

-- From here on the array has `bits` bits, of which there are some.
module _ (bits : ℕ) (some_bits : 1 ≤ bits) where
  -- All positions that a key probes are set.
  unfoldable pub Probed : ℕ → Bytes → ℕ → ℕ → Type 0
  Probed zero array h d = Unit {0}
  Probed (suc k) array h d = (bit_at array (h % bits) ≡ 1) × Probed k array ((h + d) % 2 ^ 32) d

  pub in_range : (array : Bytes) (h : ℕ) → length array * 8 ≡ bits → h % bits < length array * 8
  in_range array h size = rw size (mod-lt h some_bits)

  Probed-set_bit :
      (k : ℕ) (array : Bytes) (h d h' : ℕ)
      → length array * 8 ≡ bits
      → Probed k array h d
      → Probed k (set_bit array (h' % bits)) h d
  unfolding Probed
  Probed-set_bit zero array h d h' size probed = tt
  Probed-set_bit (suc k) array h d h' size probed = (
    bit_at-set_bit array (h' % bits) (h % bits) (in_range array h' size) probed.0,
    Probed-set_bit k array ((h + d) % 2 ^ 32) d h' size probed.1,
  )

  Probed-set_probes :
      (k : ℕ) (array : Bytes) (h d k' h' d' : ℕ)
      → length array * 8 ≡ bits
      → Probed k array h d
      → Probed k (set_probes k' array h' d' bits) h d
  unfolding set_probes
  Probed-set_probes k array h d zero h' d' size probed = probed
  Probed-set_probes k array h d (suc k') h' d' size probed =
      Probed-set_probes k (set_bit array (h' % bits)) h d k' ((h' + d') % 2 ^ 32) d'
        (omega (arith, length-set_bit array (h' % bits)))
        (Probed-set_bit k array h d h' size probed)

  bit_at-set_probes :
      (array : Bytes) (p k h d : ℕ)
      → length array * 8 ≡ bits
      → bit_at array p ≡ 1
      → bit_at (set_probes k array h d bits) p ≡ 1
  unfolding set_probes
  bit_at-set_probes array p zero h d size one = one
  bit_at-set_probes array p (suc k) h d size one =
      bit_at-set_probes (set_bit array (h % bits)) p k ((h + d) % 2 ^ 32) d
        (omega (arith, length-set_bit array (h % bits)))
        (bit_at-set_bit array (h % bits) p (in_range array h size) one)

  set_probes-Probed :
      (k : ℕ) (array : Bytes) (h d : ℕ)
      → length array * 8 ≡ bits
      → Probed k (set_probes k array h d bits) h d
  unfolding set_probes Probed
  set_probes-Probed zero array h d size = tt
  set_probes-Probed (suc k) array h d size =
      let first = set_bit array (h % bits) in
      let size' : length first * 8 ≡ bits = omega (arith, length-set_bit array (h % bits)) in
      (
        bit_at-set_probes first (h % bits) k ((h + d) % 2 ^ 32) d size'
            (bit_at-set_bit_self array (h % bits) (in_range array h size)),
        set_probes-Probed k first ((h + d) % 2 ^ 32) d size',
      )

  Probed-add_keys :
      (k : ℕ) (array : Bytes) (h d k' : ℕ) (keys : List Bytes)
      → length array * 8 ≡ bits
      → Probed k array h d
      → Probed k (add_keys k' bits array keys) h d
  unfolding add_keys
  Probed-add_keys k array h d k' [] size probed = probed
  Probed-add_keys k array h d k' (key ∷ keys) size probed =
      let h' = bloom_hash key in
      Probed-add_keys k (set_probes k' array h' (delta h') bits) h d k' keys
        (omega (arith, length-set_probes k' array h' (delta h') bits))
        (Probed-set_probes k array h d k' h' (delta h') size probed)

  -- Every key that was added is probed in the array that results.
  pub add_keys-Probed :
      (k : ℕ) (array : Bytes) (keys : List Bytes)
      → length array * 8 ≡ bits
      → All
          (λ key. Probed k (add_keys k bits array keys) (bloom_hash key) (delta (bloom_hash key)))
          keys
  unfolding add_keys
  add_keys-Probed k array [] size = tt
  add_keys-Probed k array (key ∷ keys) size =
      let h = bloom_hash key in
      let next = set_probes k array h (delta h) bits in
      let size' : length next * 8 ≡ bits =
        omega (arith, length-set_probes k array h (delta h) bits) in
      (
        Probed-add_keys k next h (delta h) k keys size'
            (set_probes-Probed k array h (delta h) size),
        add_keys-Probed k next keys size',
      )
