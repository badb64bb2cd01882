-- ===== src/Log/Reader.antt =====
-- db/log_reader.cc: records are put together from the fragments of a file that is read by blocks.
use Prim.Native.String.{String}
use leveldb_mcpe_dotnet.Common.{
  ℕ, zero, suc, ◌+◌, ◌-◌, ◌%◌, ◌^◌, bit_and, bit_or, Bool, true, false, not, Option, none, some,
  List, [], ◌∷◌, ◌++◌, length, take, drop, get_or, ltb, leb, ◌==◌, ◌&&◌, if◌then◌else◌,
}
use leveldb_mcpe_dotnet.Common.Bytes.{Bytes}
use leveldb_mcpe_dotnet.Coding.{decode_fixed32, shl32}
use leveldb_mcpe_dotnet.Crc32c.{Checksum, value, unmask}
use leveldb_mcpe_dotnet.Log.{
  zero_type, full_type, first_type, middle_type, last_type, block_size, header_size,
}
use leveldb_mcpe_dotnet.Status.{Status, is_ok}

-- The methods of `SequentialFile` that the log calls.
pub record SequentialFile {ℓ} (F : Type ℓ) : Type ℓ where
  pub read : F → ℕ → F × Bytes × Status
  pub skip : F → ℕ → F × Status

-- The reader, with the calls of the reporter's `Corruption` that it made, newest first.
pub record Reader {ℓ} (F : Type ℓ) : Type ℓ where
  pub file : F
  pub has_reporter : Bool
  pub reports : List (ℕ × Status)
  pub checksum : Bool
  pub buffer : Bytes
  pub eof : Bool
  pub last_record_offset : ℕ
  pub end_of_buffer_offset : ℕ
  pub initial_offset : ℕ
  pub resyncing : Bool

unfoldable pub new_reader {ℓ} : {F : Type ℓ} → F → Bool → Bool → ℕ → Reader F
new_reader file has_reporter checksum initial_offset = record {
  file = file;
  has_reporter = has_reporter;
  reports = [];
  checksum = checksum;
  buffer = [];
  eof = false;
  last_record_offset = 0;
  end_of_buffer_offset = 0;
  initial_offset = initial_offset;
  resyncing = ltb 0 initial_offset;
}

-- `eof_` and `bad_record`, the two special record types.
abbrev pub eof_type : ℕ
eof_type = 5

abbrev pub bad_record : ℕ
bad_record = 6

-- Subtraction of `uint64_t`.
abbrev pub sub64 : ℕ → ℕ → ℕ
sub64 a b = (a + 2 ^ 64 - b % 2 ^ 64) % 2 ^ 64

-- A `char` as an `unsigned int`: the sign is extended.
abbrev pub sign_extended : ℕ → ℕ
sign_extended b = if ltb b 128 then b else b + (2 ^ 32 - 256)

-- What a round of the loop of `ReadPhysicalRecord` comes to: another round, or the type and the
-- fragment.
pub data Round {ℓ} (F : Type ℓ) : Type ℓ where
  again : Reader F → Round F
  gives : Reader F → ℕ → Bytes → Round F

-- The variables of `ReadRecord` across its loop.
pub record Progress : Type 0 where
  pub scratch : Bytes
  pub in_fragmented_record : Bool
  pub prospective_record_offset : ℕ

pub data Next {ℓ} (F : Type ℓ) : Type ℓ where
  continue_ : Reader F → Progress → Next F
  finished : Reader F → Option Bytes → Next F

abbrev pub no_progress : Progress
no_progress = record { scratch = []; in_fragmented_record = false; prospective_record_offset = 0 }

module _ {ℓ} {F : Type ℓ} where
  unfoldable pub report_drop : Reader F → ℕ → Status → Reader F
  report_drop r bytes reason =
      if r.has_reporter
        && leb r.initial_offset (sub64 (sub64 r.end_of_buffer_offset (length r.buffer)) bytes)
      then record r { reports = (bytes, reason) ∷ r.reports }
      else r

  unfoldable pub report_corruption : Reader F → ℕ → String → Reader F
  report_corruption r bytes reason = report_drop r bytes (Status.corruption reason)

  unfoldable pub unfinished : Reader F → Progress → String → Reader F
  unfinished r p reason =
      if p.in_fragmented_record && not (length p.scratch == 0)
      then report_corruption r (length p.scratch) reason
      else r

  -- The `switch` on the type of a physical record at `offset`. The message for an unknown type leaves
  -- out the number that the source prints.
  unfoldable pub on_record : Reader F → Progress → ℕ → Bytes → ℕ → Next F
  on_record r p t fragment offset =
      let idle = record p { scratch = []; in_fragmented_record = false } in
      let joined = p.scratch ++ fragment in
      if t == full_type
      then finished
          (record (unfinished r p "partial record without end(1)") { last_record_offset = offset })
          (some fragment)
      else if t == first_type
      then continue_ (unfinished r p "partial record without end(2)") (record {
        scratch = fragment;
        in_fragmented_record = true;
        prospective_record_offset = offset;
      })
      else if t == middle_type
      then if p.in_fragmented_record
        then continue_ r (record p { scratch = joined })
        else continue_
            (report_corruption r (length fragment) "missing start of fragmented record(1)") p
      else if t == last_type
      then if p.in_fragmented_record
        then finished (record r { last_record_offset = p.prospective_record_offset }) (some joined)
        else continue_
            (report_corruption r (length fragment) "missing start of fragmented record(2)") p
      else if t == eof_type
      then finished r none
      else if t == bad_record
      then if p.in_fragmented_record
        then continue_ (report_corruption r (length p.scratch) "error in middle of record") idle
        else continue_ r p
      else continue_
          (report_corruption r
            (length fragment + (if p.in_fragmented_record then length p.scratch else 0))
            "unknown record type")
          idle

  -- `physical_record_offset`.
  abbrev pub record_offset : Reader F → Bytes → ℕ
  record_offset r fragment =
      sub64 (sub64 (sub64 r.end_of_buffer_offset (length r.buffer)) header_size) (length fragment)

  -- While the reader finds its place behind `initial_offset`, the tails of a record are skipped.
  unfoldable pub after_physical : Reader F → Progress → ℕ → Bytes → Next F
  after_physical r p t fragment =
      let offset = record_offset r fragment in
      let settled = record r { resyncing = false } in
      if r.resyncing
      then if t == middle_type
        then continue_ r p
        else if t == last_type
        then continue_ settled p
        else on_record settled p t fragment offset
      else on_record r p t fragment offset

module _ {ℓ} {F : Type ℓ} (file : SequentialFile F) (c : Checksum) where
  unfoldable pub skip_to_initial_block : Reader F → Reader F × Bool
  skip_to_initial_block r =
      let offset_in_block = r.initial_offset % block_size in
      let start = r.initial_offset - offset_in_block in
      let location =
        if ltb (block_size - 6) offset_in_block then (start + block_size) % 2 ^ 64 else start in
      let placed = record r { end_of_buffer_offset = location } in
      let (f, s) = file.skip r.file location in
      let skipped = record placed { file = f } in
      if ltb 0 location
      then if is_ok s then (skipped, true) else (report_drop skipped location s, false)
      else (placed, true)

  -- The branch for a buffer that holds no header.
  unfoldable pub refill : Reader F → Bytes → Round F
  refill r fragment =
      let (f, read_bytes, s) = file.read r.file block_size in
      let got = record r {
        file = f;
        buffer = read_bytes;
        end_of_buffer_offset = (r.end_of_buffer_offset + length read_bytes) % 2 ^ 64;
      } in
      let failed = record (report_drop (record got { buffer = [] }) block_size s) { eof = true } in
      if r.eof
      then gives (record r { buffer = [] }) eof_type fragment
      else if not (is_ok s)
      then gives failed eof_type fragment
      else if ltb (length read_bytes) block_size
      then again (record got { eof = true })
      else again got

  -- The branch that takes a record apart.
  unfoldable pub parse_header : Reader F → Bytes → Round F
  parse_header r fragment =
      let header = r.buffer in
      let a = bit_and (get_or header 4 0) 0xff in
      let b = bit_and (get_or header 5 0) 0xff in
      let t = sign_extended (get_or header 6 0) in
      let n = bit_or a (shl32 b 8) in
      let dropped = record r { buffer = [] } in
      let rest = record r { buffer = drop (header_size + n) r.buffer } in
      let expected_crc = unmask (decode_fixed32 header) in
      let actual_crc = value c (take (1 + n) (drop 6 header)) in
      if ltb (length r.buffer) (header_size + n)
      then if r.eof
        then gives dropped eof_type fragment
        else gives (report_corruption dropped (length r.buffer) "bad record length") bad_record
            fragment
      else if t == zero_type && n == 0
      then gives dropped bad_record fragment
      else if r.checksum && not (actual_crc == expected_crc)
      then gives (report_corruption dropped (length r.buffer) "checksum mismatch") bad_record
          fragment
      else if ltb (sub64 (sub64 (sub64 r.end_of_buffer_offset (length rest.buffer)) header_size) n)
          r.initial_offset
      then gives rest bad_record []
      else gives rest t (take n (drop header_size header))

  unfoldable pub physical_round : Reader F → Bytes → Round F
  physical_round r fragment =
      if ltb (length r.buffer) header_size then refill r fragment else parse_header r fragment

  -- The loop, on fuel: a second round returns, since a block that is read without reaching the end
  -- of the file holds a header. The fragment is the variable that the caller passes in.
  unfoldable pub read_physical_loop : ℕ → Reader F → Bytes → Option (Reader F × ℕ × Bytes)
  read_physical_loop zero r fragment = none
  read_physical_loop (suc fuel) r fragment = elim (physical_round r fragment) [
    | again r' ↦ read_physical_loop fuel r' fragment
    | gives r' t fragment' ↦ some (r', t, fragment')
  ]

  unfoldable pub read_physical_record : Reader F → Bytes → Option (Reader F × ℕ × Bytes)
  read_physical_record r fragment = read_physical_loop 3 r fragment

  -- The loop of `ReadRecord`; `none` when the fuel runs out.
  unfoldable pub read_record_loop :
      ℕ → Reader F → Progress → Bytes → Option (Reader F × Option Bytes)
  read_record_loop zero r p fragment = none
  read_record_loop (suc fuel) r p fragment = elim (read_physical_record r fragment) [
    | none ↦ none
    | some (r1, t, fragment') ↦ elim (after_physical r1 p t fragment') [
      | continue_ r2 p' ↦ read_record_loop fuel r2 p' fragment'
      | finished r2 result ↦ some (r2, result)
    ]
  ]

  -- `ReadRecord`, with the fuel for its loop; the record, or none at the end of the input.
  unfoldable pub read_record : ℕ → Reader F → Option (Reader F × Option Bytes)
  read_record fuel r =
      let (placed, ok) = skip_to_initial_block r in
      if ltb r.last_record_offset r.initial_offset
      then if ok then read_record_loop fuel placed no_progress [] else some (placed, none)
      else read_record_loop fuel r no_progress []
