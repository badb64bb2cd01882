-- ===== src/Common/Bits.antt =====
-- Laws of `|` and `&` at variables, from the recursion on binary digits that they stand for.
use Prim.Native.Nat.{
  ℕ, zero, suc, ◌+◌, ◌*◌, ◌/◌, ◌%◌, ◌^◌, ◌≤◌, ◌<◌, min, max, bit_and, bit_or, digits, bitwise,
  bit_and-bitwise, bit_or-bitwise,
}
use mathlib.Core.Path.{◌≡◌, refl, ap, ◌∙◌}
use native.Mathlib.Decide.{dec_le}
use native.Mathlib.Nat.{pow-suc}
use native.Mathlib.Omega.{arith}

-- The recursion runs on a count of digits; any count that is at least the number gives one result.
module _ (rest : ℕ → ℕ) (digit : ℕ → ℕ → ℕ) where
  one_more : (n a b : ℕ) → a ≤ n → digits rest digit (suc n) a b ≡ digits rest digit n a b
  one_more (suc n) (suc a) b h =
      ap (λ (t : ℕ). t * 2 + digit (suc a % 2) (b % 2))
        (one_more n (suc a / 2) (b / 2) (omega arith))
  one_more zero (suc a) b h = absurd (omega arith)
  one_more zero zero b h = refl
  one_more (suc n) zero b h = refl

  enough_digits : (n a b : ℕ) → a ≤ n → digits rest digit n a b ≡ bitwise rest digit a b
  enough_digits zero zero b h = refl
  enough_digits zero (suc a) b h = absurd (omega arith)
  enough_digits (suc n) a b h = elim (dec_le a n) [
    | yes below ↦ one_more n a b below ∙ enough_digits n a b below
    | no above ↦ let e : suc n ≡ a = omega arith in ap (λ (m : ℕ). digits rest digit m a b) e
  ]

  lowest_digit :
      (a b : ℕ)
      → bitwise rest digit (suc a) b
        ≡ bitwise rest digit (suc a / 2) (b / 2) * 2 + digit (suc a % 2) (b % 2)
  lowest_digit a b =
      ap (λ (t : ℕ). t * 2 + digit (suc a % 2) (b % 2))
        (enough_digits a (suc a / 2) (b / 2) (omega arith))

-- One equation for the lowest binary digit of each operation.
pub bit_or_step : (x y : ℕ) → bit_or x y ≡ bit_or (x / 2) (y / 2) * 2 + max (x % 2) (y % 2)
bit_or_step (suc x) y = rw bit_or-bitwise (rw bit_or-bitwise (lowest_digit (λ t. t) max x y))
bit_or_step zero y = rw bit_or-bitwise (rw bit_or-bitwise (omega arith))

pub bit_and_step : (x y : ℕ) → bit_and x y ≡ bit_and (x / 2) (y / 2) * 2 + min (x % 2) (y % 2)
bit_and_step (suc x) y = rw bit_and-bitwise (rw bit_and-bitwise (lowest_digit (λ t. 0) min x y))
bit_and_step zero y = rw bit_and-bitwise (rw bit_and-bitwise (omega arith))

-- With no digits on the right.
right_zero : (n a : ℕ) → a < n → (bit_and a 0 ≡ 0) × (bit_or a 0 ≡ a)
right_zero zero a h = elim h [ ]
right_zero (suc n) zero h = (refl, refl)
right_zero (suc n) (suc a) h =
    omega
      (arith, bit_and_step (suc a) 0, bit_or_step (suc a) 0, right_zero n (suc a / 2) (omega arith))

bit_or-zero : (a : ℕ) → bit_or a 0 ≡ a
bit_or-zero a = (right_zero (suc a) a (omega arith)).1

bit_and-zero : (a : ℕ) → bit_and a 0 ≡ 0
bit_and-zero a = (right_zero (suc a) a (omega arith)).0

pub zero-bit_or : (b : ℕ) → bit_or 0 b ≡ b
zero-bit_or b = bit_or-bitwise 0 b

-- `r | (x << s)` is a sum where `r` has at most `s` bits.
pub bit_or_shifted : (s r x : ℕ) → r < 2 ^ s → bit_or r (x * 2 ^ s) ≡ r + x * 2 ^ s
bit_or_shifted zero r x h = ground (arith, zero-bit_or (x * 1))
bit_or_shifted (suc s) r x h = ground (
  arith,
  pow-suc 2 s,
  ap (λ (t : ℕ). x * t) (pow-suc 2 s),
  bit_or_step r (x * 2 ^ suc s),
  bit_or_shifted s (r / 2) x (omega (arith, pow-suc 2 s)),
)

-- The same with the shifted operand first.
pub shifted_bit_or : (s x r : ℕ) → r < 2 ^ s → bit_or (x * 2 ^ s) r ≡ x * 2 ^ s + r
shifted_bit_or zero x r h = ground (arith, bit_or-zero x)
shifted_bit_or (suc s) x r h = ground (
  arith,
  pow-suc 2 s,
  ap (λ (t : ℕ). x * t) (pow-suc 2 s),
  bit_or_step (x * 2 ^ suc s) r,
  shifted_bit_or s x (r / 2) (omega (arith, pow-suc 2 s)),
)

-- `|` gives no bit beyond its operands' width.
pub bit_or-lt-pow : (w a b : ℕ) → a < 2 ^ w → b < 2 ^ w → bit_or a b < 2 ^ w
bit_or-lt-pow zero a b h k = ground (arith, zero-bit_or b)
bit_or-lt-pow (suc w) a b h k = omega (
  arith,
  pow-suc 2 w,
  bit_or_step a b,
  bit_or-lt-pow w (a / 2) (b / 2) (omega (arith, pow-suc 2 w)) (omega (arith, pow-suc 2 w)),
)

bit_or-one : (a : ℕ) → bit_or a 1 + a % 2 ≡ a + 1
bit_or-one a = omega (arith, bit_or_step a 1, bit_or-zero (a / 2))

-- Setting one bit adds it, unless it is there.
bit_or_2 : (a : ℕ) → bit_or a 2 + a / 2 % 2 * 2 ≡ a + 2
bit_or_2 a = omega (arith, bit_or_step a 2, bit_or-one (a / 2))

bit_or_4 : (a : ℕ) → bit_or a 4 + a / 4 % 2 * 4 ≡ a + 4
bit_or_4 a = omega (arith, bit_or_step a 4, bit_or_2 (a / 2))

bit_or_8 : (a : ℕ) → bit_or a 8 + a / 8 % 2 * 8 ≡ a + 8
bit_or_8 a = omega (arith, bit_or_step a 8, bit_or_4 (a / 2))

bit_or_16 : (a : ℕ) → bit_or a 16 + a / 16 % 2 * 16 ≡ a + 16
bit_or_16 a = omega (arith, bit_or_step a 16, bit_or_8 (a / 2))

bit_or_32 : (a : ℕ) → bit_or a 32 + a / 32 % 2 * 32 ≡ a + 32
bit_or_32 a = omega (arith, bit_or_step a 32, bit_or_16 (a / 2))

bit_or_64 : (a : ℕ) → bit_or a 64 + a / 64 % 2 * 64 ≡ a + 64
bit_or_64 a = omega (arith, bit_or_step a 64, bit_or_32 (a / 2))

pub bit_or_128 : (a : ℕ) → bit_or a 128 + a / 128 % 2 * 128 ≡ a + 128
bit_or_128 a = omega (arith, bit_or_step a 128, bit_or_64 (a / 2))

-- The low byte of `v | 0x80`: what a store into an `unsigned char` keeps.
pub bit_or_128_byte : (v : ℕ) → bit_or v 128 % 256 ≡ v % 128 + 128
bit_or_128_byte v = omega (arith, bit_or_128 v)

-- `a & (2 ^ k - 1)` keeps the low `k` bits, for the masks that the sources use.
pub bit_and-one : (a : ℕ) → bit_and a 1 ≡ a % 2
bit_and-one a = omega (arith, bit_and_step a 1, bit_and-zero (a / 2))

pub bit_and_7 : (a : ℕ) → bit_and a 7 ≡ a % 8
bit_and_7 a = omega (arith, bit_and_step a 7, bit_and_step (a / 2) 3, bit_and-one (a / 2 / 2))

bit_and_15 : (a : ℕ) → bit_and a 15 ≡ a % 16
bit_and_15 a = omega (arith, bit_and_step a 15, bit_and_7 (a / 2))

bit_and_31 : (a : ℕ) → bit_and a 31 ≡ a % 32
bit_and_31 a = omega (arith, bit_and_step a 31, bit_and_15 (a / 2))

bit_and_63 : (a : ℕ) → bit_and a 63 ≡ a % 64
bit_and_63 a = omega (arith, bit_and_step a 63, bit_and_31 (a / 2))

pub bit_and_127 : (a : ℕ) → bit_and a 127 ≡ a % 128
bit_and_127 a = omega (arith, bit_and_step a 127, bit_and_63 (a / 2))

pub bit_and_255 : (a : ℕ) → bit_and a 255 ≡ a % 256
bit_and_255 a = omega (arith, bit_and_step a 255, bit_and_127 (a / 2))

-- `a & 2 ^ k` picks bit `k`.
bit_and-pow_2 : (a : ℕ) → bit_and a 2 ≡ a / 2 % 2 * 2
bit_and-pow_2 a = omega (arith, bit_and_step a 2, bit_and-one (a / 2))

bit_and-pow_4 : (a : ℕ) → bit_and a 4 ≡ a / 4 % 2 * 4
bit_and-pow_4 a = omega (arith, bit_and_step a 4, bit_and-pow_2 (a / 2))

bit_and-pow_8 : (a : ℕ) → bit_and a 8 ≡ a / 8 % 2 * 8
bit_and-pow_8 a = omega (arith, bit_and_step a 8, bit_and-pow_4 (a / 2))

bit_and-pow_16 : (a : ℕ) → bit_and a 16 ≡ a / 16 % 2 * 16
bit_and-pow_16 a = omega (arith, bit_and_step a 16, bit_and-pow_8 (a / 2))

bit_and-pow_32 : (a : ℕ) → bit_and a 32 ≡ a / 32 % 2 * 32
bit_and-pow_32 a = omega (arith, bit_and_step a 32, bit_and-pow_16 (a / 2))

bit_and-pow_64 : (a : ℕ) → bit_and a 64 ≡ a / 64 % 2 * 64
bit_and-pow_64 a = omega (arith, bit_and_step a 64, bit_and-pow_32 (a / 2))

pub bit_and-pow_128 : (a : ℕ) → bit_and a 128 ≡ a / 128 % 2 * 128
bit_and-pow_128 a = omega (arith, bit_and_step a 128, bit_and-pow_64 (a / 2))

lt-pow : (n : ℕ) → n < 2 ^ n
lt-pow zero = omega arith
lt-pow (suc n) = omega (arith, lt-pow n, pow-suc 2 n)

bit_or-ge_within : (w a b : ℕ) → a < 2 ^ w → a ≤ bit_or a b
bit_or-ge_within zero a b h = omega arith
bit_or-ge_within (suc w) a b h =
    omega (arith, bit_or_step a b, bit_or-ge_within w (a / 2) (b / 2) (omega (arith, pow-suc 2 w)))

-- An or is not below its parts.
pub bit_or-ge_left : (a b : ℕ) → a ≤ bit_or a b
bit_or-ge_left a b = bit_or-ge_within a a b (lt-pow a)

bit_or-ge_right_within : (w a b : ℕ) → b < 2 ^ w → b ≤ bit_or a b
bit_or-ge_right_within zero a b h = omega arith
bit_or-ge_right_within (suc w) a b h =
    omega (
      arith,
      bit_or_step a b,
      bit_or-ge_right_within w (a / 2) (b / 2) (omega (arith, pow-suc 2 w)),
    )

pub bit_or-ge_right : (a b : ℕ) → b ≤ bit_or a b
bit_or-ge_right a b = bit_or-ge_right_within b a b (lt-pow b)
