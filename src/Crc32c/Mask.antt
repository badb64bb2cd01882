-- ===== src/Crc32c/Mask.antt =====
-- `Unmask` takes back `Mask`.
use leveldb_mcpe_dotnet.Common.{ℕ, ◌+◌, ◌-◌, ◌*◌, ◌/◌, ◌%◌, ◌^◌, bit_or, ◌≡◌, arith}
use leveldb_mcpe_dotnet.Common.Bits.{bit_or_shifted}
use leveldb_mcpe_dotnet.Common.Bytes.{IsU32}
use leveldb_mcpe_dotnet.Crc32c.{mask, unmask, mask_delta}

rotate_right :
    (v : ℕ) → IsU32 v → bit_or (v / 2 ^ 15) (v * 2 ^ 17 % 2 ^ 32) ≡ v / 2 ^ 15 + v % 2 ^ 15 * 2 ^ 17
rotate_right v h =
    let e : v * 2 ^ 17 % 2 ^ 32 ≡ v % 2 ^ 15 * 2 ^ 17 = omega arith in
    rw e (bit_or_shifted 17 (v / 2 ^ 15) (v % 2 ^ 15) (omega arith))

rotate_left :
    (v : ℕ) → IsU32 v → bit_or (v / 2 ^ 17) (v * 2 ^ 15 % 2 ^ 32) ≡ v / 2 ^ 17 + v % 2 ^ 17 * 2 ^ 15
rotate_left v h =
    let e : v * 2 ^ 15 % 2 ^ 32 ≡ v % 2 ^ 17 * 2 ^ 15 = omega arith in
    rw e (bit_or_shifted 15 (v / 2 ^ 17) (v % 2 ^ 17) (omega arith))

pub mask-IsU32 : (crc : ℕ) → IsU32 (mask crc)
unfolding mask
mask-IsU32 crc = omega arith

-- Unmask takes back what Mask did to a 32-bit checksum.
pub unmask-mask : (crc : ℕ) → IsU32 crc → unmask (mask crc) ≡ crc
unfolding mask unmask
unmask-mask crc h =
    let rot = crc / 2 ^ 15 + crc % 2 ^ 15 * 2 ^ 17 in
    let back : (((rot + mask_delta) % 2 ^ 32) + 2 ^ 32 - mask_delta) % 2 ^ 32 ≡ rot = omega arith in
    rw (rotate_right crc h, back) (rw (rotate_left rot (omega arith)) (omega arith))
