-- ===== src/Common/BitSets.antt =====
-- Single bits of a number, and arrays of bytes as sets of bits.
use Prim.Native.Nat.{ℕ, zero, suc, ◌*◌, ◌/◌, ◌%◌, ◌^◌, ◌≤◌, max, bit_and, bit_or}
use mathlib.Core.Path.{◌≡◌, refl, ap, ◌∙◌}
use native.Mathlib.Nat.{pow-suc}
use native.Mathlib.Omega.{arith}
use leveldb_mcpe_dotnet.Common.Bits.{bit_and-one, bit_and_step, bit_or_step}

-- Bit `i` of a number.
abbrev pub bit : ℕ → ℕ → ℕ
bit zero a = a % 2
bit (suc i) a = bit i (a / 2)

pub bit_or-bit : (i a b : ℕ) → bit i (bit_or a b) ≡ max (bit i a) (bit i b)
bit_or-bit zero a b = omega (arith, bit_or_step a b)
bit_or-bit (suc i) a b =
    let half : bit_or a b / 2 ≡ bit_or (a / 2) (b / 2) = omega (arith, bit_or_step a b) in
    rw half (bit_or-bit i (a / 2) (b / 2))

pub bit_and-pow : (i a : ℕ) → bit_and a (2 ^ i) ≡ bit i a * 2 ^ i
bit_and-pow zero a = omega (arith, bit_and-one a)
bit_and-pow (suc i) a =
    let half : 2 ^ suc i / 2 ≡ 2 ^ i = omega (arith, pow-suc 2 i) in
    let low : bit_and a (2 ^ suc i) ≡ bit_and (a / 2) (2 ^ i) * 2 =
      rw half at (bit_and_step a (2 ^ suc i)) ∙ omega (arith, pow-suc 2 i) in
    omega (arith, low, bit_and-pow i (a / 2), ap (λ (t : ℕ). bit i (a / 2) * t) (pow-suc 2 i))

pub bit-pow : (i : ℕ) → bit i (2 ^ i) ≡ 1
bit-pow zero = refl
bit-pow (suc i) =
    let half : 2 ^ suc i / 2 ≡ 2 ^ i = omega (arith, pow-suc 2 i) in rw half (bit-pow i)

pub bit-le : (i a : ℕ) → bit i a ≤ 1
bit-le zero a = omega arith
bit-le (suc i) a = bit-le i (a / 2)
