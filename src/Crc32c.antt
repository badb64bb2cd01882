-- ===== src/Crc32c.antt =====
-- util/crc32c.h: the checksum as an interface, and the masking of stored checksums.
pub mod Mask
use leveldb_mcpe_dotnet.Common.{ℕ, ◌+◌, ◌-◌, ◌/◌, ◌%◌, ◌^◌, ◌<◌, ◌*◌, bit_or, List, [], ◌++◌, ◌≡◌}
use leveldb_mcpe_dotnet.Common.Bytes.{Bytes, IsU32}
use leveldb_mcpe_dotnet.Coding.{shl32, shr}

-- `Extend`, which a processor may provide, with what crc32c.h says of it: from the checksum of a
-- string it gives that of the string with the bytes behind it. The result is a `uint32_t`.
pub record Checksum : Type 0 where
  pub extend : ℕ → Bytes → ℕ
  pub extend_append : (crc : ℕ) (a b : Bytes) → extend (extend crc a) b ≡ extend crc (a ++ b)
  pub extend_u32 : (crc : ℕ) (a : Bytes) → IsU32 (extend crc a)

unfoldable pub value : Checksum → Bytes → ℕ
value c bytes = c.extend 0 bytes

abbrev pub mask_delta : ℕ
mask_delta = 0xa282ead8

unfoldable pub mask : ℕ → ℕ
mask crc = (bit_or (shr crc 15) (shl32 crc 17) + mask_delta) % 2 ^ 32

unfoldable pub unmask : ℕ → ℕ
unmask masked_crc =
    let rot = (masked_crc + 2 ^ 32 - mask_delta) % 2 ^ 32 in bit_or (shr rot 17) (shl32 rot 15)
