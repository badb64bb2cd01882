-- ===== src/FileName/Decimal.antt =====
-- Decimal numbers are read with the check for overflow, and read back as they are printed.
use leveldb_mcpe_dotnet.Common.{
  ℕ, zero, suc, ◌+◌, ◌-◌, ◌*◌, ◌/◌, ◌%◌, ◌^◌, ◌≤◌, ◌<◌, true, false, [], ◌∷◌, ◌++◌, length,
  replicate, ltb, ltb-true, ◌≡◌, ◌⊎◌, inl, inr, refl, ◌∙◌, All, All-append, Bool-cases, arith,
}
use leveldb_mcpe_dotnet.Common.Bytes.{Bytes}
use leveldb_mcpe_dotnet.FileName.{
  digits, decimal, padded, is_digit, overflows, consume_loop, consume_decimal_number,
}

abbrev pub IsDigit : ℕ → Type 0
IsDigit c = (b'0' ≤ c) × (c ≤ b'9')

-- The value of digits behind the value `v` of those in front.
unfoldable pub value_from : ℕ → Bytes → ℕ
value_from v [] = v
value_from v (c ∷ cs) = value_from (v * 10 + (c - b'0')) cs

-- What follows does not go on with a digit.
abbrev pub Ends : Bytes → Type 0
Ends [] = Unit {0}
Ends (c ∷ rest) = is_digit c ≡ false

value_from-le : (v : ℕ) (cs : Bytes) → v ≤ value_from v cs
unfolding value_from
value_from-le v [] = omega arith
value_from-le v (c ∷ cs) = omega (arith, value_from-le (v * 10 + (c - b'0')) cs)

is_digit-IsDigit : (c : ℕ) → IsDigit c → is_digit c ≡ true
is_digit-IsDigit c h = ground arith

overflows_cases :
    (v d : ℕ)
    → d ≤ 9
    → ((overflows v d ≡ true) × (2 ^ 64 ≤ v * 10 + d))
      ⊎ ((overflows v d ≡ false) × (v * 10 + d < 2 ^ 64))
overflows_cases v d h = elim (Bool-cases (overflows v d)) [
  | inl over ↦ inl (over, ground arith)
  | inr fits ↦ inr (fits, ground arith)
]

-- The loop over digits, from a value that fits.
loop_cases :
    (ds rest : Bytes) (v count : ℕ)
    → All IsDigit ds
    → Ends rest
    → v < 2 ^ 64
    → ((value_from v ds < 2 ^ 64)
        × (consume_loop v count (ds ++ rest) ≡ (true, value_from v ds, count + length ds, rest)))
      ⊎ ((2 ^ 64 ≤ value_from v ds) × ((consume_loop v count (ds ++ rest)).0 ≡ false))
unfolding consume_loop value_from
loop_cases [] [] v count h ends fits =
    let e : count + 0 ≡ count = omega arith in inl (fits, rw e refl)
loop_cases [] (c ∷ rest) v count h ends fits =
    let e : count + 0 ≡ count = omega arith in inl (fits, rw (ends, e) refl)
loop_cases (d ∷ ds) rest v count h ends fits = elim (overflows_cases v (d - b'0') (omega arith)) [
  | inl (over, big) ↦ inr (
    omega (arith, value_from-le (v * 10 + (d - b'0')) ds),
    rw (is_digit-IsDigit d h.0, over) refl,
  )
  | inr (good, small) ↦ elim (loop_cases ds rest (v * 10 + (d - b'0')) (count + 1) h.1 ends small) [
    | inl (fit, same) ↦
        let e : count + 1 + length ds ≡ count + suc (length ds) = omega arith in
        inl (fit, rw (is_digit-IsDigit d h.0, good, ← e) same)
    | inr (big, bad) ↦ inr (big, rw (is_digit-IsDigit d h.0, good) bad)
  ]
]

-- On one decimal digit at least, followed by what is not a digit, ConsumeDecimalNumber gives the
-- value of the digits and leaves what follows if the value is below 2^64; if it is not, it fails
-- and does not set the value.
pub consume_decimal_number_cases :
    (d : ℕ) (ds rest : Bytes) (val : ℕ)
    → All IsDigit (d ∷ ds)
    → Ends rest
    → ((value_from 0 (d ∷ ds) < 2 ^ 64)
        × (consume_decimal_number ((d ∷ ds) ++ rest) val ≡ (true, value_from 0 (d ∷ ds), rest)))
      ⊎ ((2 ^ 64 ≤ value_from 0 (d ∷ ds))
          × ((consume_decimal_number ((d ∷ ds) ++ rest) val).0 ≡ false)
          × ((consume_decimal_number ((d ∷ ds) ++ rest) val).1 ≡ val))
unfolding consume_decimal_number
consume_decimal_number_cases d ds rest val h ends =
    elim (loop_cases (d ∷ ds) rest 0 0 h ends (omega arith)) [
      | inl (fit, same) ↦
          let counted : ltb 0 (0 + length (d ∷ ds)) ≡ true = ltb-true (omega arith) in
          inl (fit, rw (consume_decimal_number, same, counted) refl)
      | inr (big, bad) ↦
          inr (big, rw (consume_decimal_number, bad) refl, rw (consume_decimal_number, bad) refl)
    ]

digits-IsDigit : (fuel n : ℕ) → All IsDigit (digits fuel n)
unfolding digits
digits-IsDigit zero n = tt
digits-IsDigit (suc fuel) n = elim (Bool-cases (ltb n 10)) [
  | inl small ↦ rw small ((ground arith, ground arith), tt)
  | inr large ↦ rw large (
      All-append IsDigit (digits fuel (n / 10)) ((b'0' + n % 10) ∷ [])
        (digits-IsDigit fuel (n / 10)) ((omega arith, omega arith), tt))
]

value_from-append : (v : ℕ) (a b : Bytes) → value_from v (a ++ b) ≡ value_from (value_from v a) b
unfolding value_from
value_from-append v [] b = refl
value_from-append v (c ∷ a) b = value_from-append (v * 10 + (c - b'0')) a b

value_from-digits : (fuel n : ℕ) → n < 10 ^ fuel → 1 ≤ fuel → value_from 0 (digits fuel n) ≡ n
unfolding digits value_from
value_from-digits zero n h g = absurd (omega arith)
value_from-digits (suc zero) n h g = rw (ltb-true h) (omega arith)
value_from-digits (suc (suc fuel)) n h g = elim (Bool-cases (ltb n 10)) [
  | inl small ↦ rw small (omega arith)
  | inr large ↦
      rw
        (
          large,
          value_from-append 0 (digits (suc fuel) (n / 10)) ((b'0' + n % 10) ∷ []),
          value_from-digits (suc fuel) (n / 10) (omega arith) (omega arith),
        )
        (omega arith)
]

value_from-zeros : (k : ℕ) (cs : Bytes) → value_from 0 (replicate k b'0' ++ cs) ≡ value_from 0 cs
unfolding value_from
value_from-zeros zero cs = refl
value_from-zeros (suc k) cs = value_from-zeros k cs

zeros-IsDigit : (k : ℕ) → All IsDigit (replicate k b'0')
zeros-IsDigit zero = tt
zeros-IsDigit (suc k) = ((omega arith, omega arith), zeros-IsDigit k)

pub padded-IsDigit : (n : ℕ) → All IsDigit (padded n)
unfolding padded decimal
padded-IsDigit n =
    All-append IsDigit (replicate (6 - length (decimal n)) b'0') (decimal n)
      (zeros-IsDigit (6 - length (decimal n))) (digits-IsDigit 20 n)

pub value_from-padded : (n : ℕ) → n < 2 ^ 64 → value_from 0 (padded n) ≡ n
unfolding padded decimal
value_from-padded n h =
    value_from-zeros (6 - length (decimal n)) (decimal n)
    ∙ value_from-digits 20 n (omega arith) (omega arith)

pub value_from-decimal : (n : ℕ) → n < 2 ^ 64 → value_from 0 (decimal n) ≡ n
unfolding decimal
value_from-decimal n h = value_from-digits 20 n (omega arith) (omega arith)
