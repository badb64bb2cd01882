-- ===== src/Log/Header.antt =====
-- What the reader finds in the header of a fragment that the writer wrote.
use leveldb_mcpe_dotnet.Common.{
  ℕ, suc, ◌+◌, ◌*◌, ◌%◌, ◌/◌, ◌^◌, ◌<◌, bit_and, bit_or, [], ◌∷◌, ◌++◌, length, take, drop, get_or,
  ◌≡◌, refl, arith, take-append_length, drop-append_length,
}
use leveldb_mcpe_dotnet.Common.Bytes.{Bytes}
use leveldb_mcpe_dotnet.Common.Bits.{bit_and_255, bit_or_shifted}
use native.Mathlib.Nat.{mod-eq_of_lt}
use leveldb_mcpe_dotnet.Coding.{encode_fixed32, decode_fixed32, to_byte, shl32, shr}
use leveldb_mcpe_dotnet.Coding.Fixed.{decode_fixed32-encode_fixed32}
use leveldb_mcpe_dotnet.Crc32c.{Checksum, value, mask, unmask}
use leveldb_mcpe_dotnet.Crc32c.Mask.{unmask-mask, mask-IsU32}
use leveldb_mcpe_dotnet.Log.{header_size}
use leveldb_mcpe_dotnet.Log.Writer.{record_header}
use leveldb_mcpe_dotnet.Log.Reader.{sign_extended}
use leveldb_mcpe_dotnet.Log.Layout.{physical}

-- The parts of a fragment's header.
module _ (c : Checksum) (t : ℕ) (fragment rest : Bytes) (small : length fragment < 2 ^ 16)
    (type_lt : t < 128) where
  type_byte : t < 256
  type_byte = omega arith

  header-shape :
      physical c t fragment ++ rest
      ≡ encode_fixed32 (mask (c.extend (value c (t ∷ [])) fragment))
        ++ (to_byte (bit_and (length fragment) 0xff)
            ∷ to_byte (shr (length fragment) 8)
            ∷ to_byte t
            ∷ (fragment ++ rest))
  unfolding record_header encode_fixed32
  header-shape = refl

  pub header-crc : unmask (decode_fixed32 (physical c t fragment ++ rest)) ≡ value c (t ∷ fragment)
  unfolding value
  header-crc =
      let crc = c.extend (c.extend 0 (t ∷ [])) fragment in
      rw
        (
          header-shape,
          decode_fixed32-encode_fixed32 (mask crc) _ (mask-IsU32 crc),
          unmask-mask crc (c.extend_u32 _ fragment),
        )
        (c.extend_append 0 (t ∷ []) fragment)

  pub header-length :
      bit_or
        (bit_and (get_or (physical c t fragment ++ rest) 4 0) 0xff)
        (shl32 (bit_and (get_or (physical c t fragment ++ rest) 5 0) 0xff) 8)
      ≡ length fragment
  unfolding record_header encode_fixed32
  header-length =
      let n = length fragment in
      let low : bit_and (bit_and n 0xff % 256) 0xff ≡ n % 256 =
        rw (bit_and_255 n, bit_and_255 (n % 256 % 256)) (omega arith) in
      let high : shl32 (bit_and (shr n 8 % 256) 0xff) 8 ≡ n / 256 * 2 ^ 8 =
        rw (bit_and_255 (shr n 8 % 256)) (omega (arith, small)) in
      rw (low, high, bit_or_shifted 8 (n % 256) (n / 256) (omega arith)) (omega arith)

  pub header-type : sign_extended (get_or (physical c t fragment ++ rest) 6 0) ≡ t
  unfolding record_header encode_fixed32
  header-type = ground (arith, type_lt)

  pub header-drop : drop (header_size + length fragment) (physical c t fragment ++ rest) ≡ rest
  unfolding record_header encode_fixed32
  header-drop =
      let seven : header_size + length fragment
          ≡ suc (suc (suc (suc (suc (suc (suc (length fragment))))))) =
        omega arith in
      rw seven (drop-append_length fragment rest)

  pub header-checked :
      take (1 + length fragment) (drop 6 (physical c t fragment ++ rest)) ≡ t ∷ fragment
  unfolding record_header encode_fixed32
  header-checked =
      let one : 1 + length fragment ≡ suc (length fragment) = omega arith in
      rw (one, mod-eq_of_lt type_byte, take-append_length fragment rest) refl

  pub header-fragment :
      take (length fragment) (drop header_size (physical c t fragment ++ rest)) ≡ fragment
  unfolding record_header encode_fixed32
  header-fragment = take-append_length fragment rest
