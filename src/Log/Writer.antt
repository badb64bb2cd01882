-- ===== src/Log/Writer.antt =====
-- db/log_writer.cc: records are cut into fragments that do not cross a block of the file.
use leveldb_mcpe_dotnet.Common.{
  ℕ, zero, suc, ◌+◌, ◌-◌, ◌%◌, bit_and, Bool, true, false, Option, none, some, [], ◌∷◌, ◌++◌,
  length, take, drop, replicate, ltb, ◌==◌, ◌&&◌, if◌then◌else◌,
}
use leveldb_mcpe_dotnet.Common.Bytes.{Bytes}
use leveldb_mcpe_dotnet.Coding.{encode_fixed32, shr, to_byte}
use leveldb_mcpe_dotnet.Crc32c.{Checksum, value, mask}
use leveldb_mcpe_dotnet.Log.{full_type, first_type, middle_type, last_type, block_size, header_size}
use leveldb_mcpe_dotnet.Status.{Status, is_ok}

-- The methods of `WritableFile` that the log calls.
pub record WritableFile {ℓ} (F : Type ℓ) : Type ℓ where
  pub append : F → Bytes → F × Status
  pub flush : F → F × Status

pub record Writer {ℓ} (F : Type ℓ) : Type ℓ where
  pub dest : F
  pub block_offset : ℕ

-- The two constructors: on a new file, and behind `dest_length` bytes.
unfoldable pub new_writer {ℓ} : {F : Type ℓ} → F → Writer F
new_writer dest = record { dest = dest; block_offset = 0 }

unfoldable pub reopened_writer {ℓ} : {F : Type ℓ} → F → ℕ → Writer F
reopened_writer dest dest_length = record { dest = dest; block_offset = dest_length % block_size }

-- `type_crc_[t]`, the checksum of the type alone.
abbrev pub type_crc : Checksum → ℕ → ℕ
type_crc c t = value c (t ∷ [])

-- The header of a fragment.
unfoldable pub record_header : Checksum → ℕ → Bytes → Bytes
record_header c t data_ =
    let n = length data_ in
    let crc = mask (c.extend (type_crc c t) data_) in
    encode_fixed32 crc ++ (to_byte (bit_and n 0xff) ∷ to_byte (shr n 8) ∷ to_byte t ∷ [])

unfoldable pub fragment_type : Bool → Bool → ℕ
fragment_type begin end_ =
    if begin && end_
    then full_type
    else if begin
    then first_type
    else if end_
    then last_type
    else middle_type

module _ {ℓ} {F : Type ℓ} (file : WritableFile F) (c : Checksum) where
  unfoldable pub emit_physical_record : Writer F → ℕ → Bytes → Writer F × Status
  emit_physical_record w t data_ =
      let (d1, s1) = file.append w.dest (record_header c t data_) in
      let (d2, s2) = if is_ok s1 then file.append d1 data_ else (d1, s1) in
      let (d3, s3) = if is_ok s1 && is_ok s2 then file.flush d2 else (d2, s2) in
      (record { dest = d3; block_offset = w.block_offset + (header_size + length data_) }, s3)

  -- The switch to a new block, which fills what is left of the old one; the status of that write
  -- is not looked at.
  unfoldable pub switch_block : Writer F → Writer F
  switch_block w =
      let leftover = block_size - w.block_offset in
      let (filled, s) = file.append w.dest (replicate leftover 0) in
      if ltb leftover header_size
      then record { dest = if ltb 0 leftover then filled else w.dest; block_offset = 0 }
      else w

  -- The `do` loop, `none` when the fuel runs out. Only a first fragment can be empty while bytes
  -- are left, so two rounds more than the bytes are enough.
  unfoldable pub add_record_loop : ℕ → Writer F → Bool → Bytes → Option (Writer F × Status)
  add_record_loop zero w begin data_ = none
  add_record_loop (suc fuel) w begin data_ =
      let w1 = switch_block w in
      let avail = block_size - w1.block_offset - header_size in
      let left = length data_ in
      let fragment_length = if ltb left avail then left else avail in
      let t = fragment_type begin (left == fragment_length) in
      let (w2, s) = emit_physical_record w1 t (take fragment_length data_) in
      let more = add_record_loop fuel w2 false (drop fragment_length data_) in
      if is_ok s && ltb 0 (left - fragment_length) then more else some (w2, s)

  unfoldable pub add_record : Writer F → Bytes → Option (Writer F × Status)
  add_record w slice = add_record_loop (suc (suc (length slice))) w true slice
