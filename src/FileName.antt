-- ===== src/FileName.antt =====
-- db/filename.h and db/filename.cc: the names of the files of a database; the decimal numbers of
-- util/logging.cc, and the writing of a small file of util/env.cc. A name is its bytes.
pub mod Decimal
pub mod Parsed
mod Tests
use leveldb_mcpe_dotnet.Common.{
  ℕ, zero, suc, ◌+◌, ◌-◌, ◌*◌, ◌/◌, ◌%◌, ◌^◌, Bool, true, false, Option, none, some, [], ◌∷◌, ◌++◌,
  length, replicate, ltb, leb, ◌==◌, ◌&&◌, ◌||◌, not, if◌then◌else◌,
}
use leveldb_mcpe_dotnet.Common.Bytes.{Bytes}
use leveldb_mcpe_dotnet.Slice.{equals, starts_with, remove_prefix}
use leveldb_mcpe_dotnet.Status.{Status, is_ok}

pub data FileType : Type 0 where
  log_file db_lock_file table_file descriptor_file current_file temp_file info_log_file : FileType

-- The digits of `printf`, the last one for a number below ten; twenty are enough for 64 bits.
unfoldable pub digits : ℕ → ℕ → Bytes
digits zero n = []
digits (suc fuel) n =
    let front = digits fuel (n / 10) in
    if ltb n 10 then (b'0' + n) ∷ [] else front ++ ((b'0' + n % 10) ∷ [])

-- "%llu" and "%06llu".
unfoldable pub decimal : ℕ → Bytes
decimal n = digits 20 n

unfoldable pub padded : ℕ → Bytes
padded n = replicate (6 - length (decimal n)) b'0' ++ decimal n

unfoldable pub append_number_to : Bytes → ℕ → Bytes
append_number_to str num = str ++ decimal num

unfoldable pub number_to_string : ℕ → Bytes
number_to_string num = append_number_to [] num

abbrev pub is_digit : ℕ → Bool
is_digit c = leb b'0' c && leb c b'9'

-- The test for overflow of `v * 10 + delta`.
abbrev pub overflows : ℕ → ℕ → Bool
overflows v delta =
    ltb ((2 ^ 64 - 1) / 10) v || (v == (2 ^ 64 - 1) / 10 && ltb ((2 ^ 64 - 1) % 10) delta)

-- The loop: whether it ended without overflow, the value, the number of digits and the input left.
unfoldable pub consume_loop : ℕ → ℕ → Bytes → Bool × ℕ × ℕ × Bytes
consume_loop v count [] = (true, v, count, [])
consume_loop v count (c ∷ input) =
    let delta = c - b'0' in
    let rest = consume_loop (v * 10 + delta) (count + 1) input in
    if is_digit c
    then if overflows v delta then (false, v, count, c ∷ input) else rest
    else (true, v, count, c ∷ input)

-- The answer, `*val`, which holds `val` before, and the input left.
unfoldable pub consume_decimal_number : Bytes → ℕ → Bool × ℕ × Bytes
consume_decimal_number input val =
    let (fits, v, count, rest) = consume_loop 0 0 input in
    if fits then (ltb 0 count, v, rest) else (false, val, rest)

abbrev pub dot_log : Bytes
dot_log = b'.' ∷ b'l' ∷ b'o' ∷ b'g' ∷ []

abbrev pub dot_ldb : Bytes
dot_ldb = b'.' ∷ b'l' ∷ b'd' ∷ b'b' ∷ []

abbrev pub dot_sst : Bytes
dot_sst = b'.' ∷ b's' ∷ b's' ∷ b't' ∷ []

abbrev pub dot_dbtmp : Bytes
dot_dbtmp = b'.' ∷ b'd' ∷ b'b' ∷ b't' ∷ b'm' ∷ b'p' ∷ []

abbrev pub manifest_dash : Bytes
manifest_dash = b'M' ∷ b'A' ∷ b'N' ∷ b'I' ∷ b'F' ∷ b'E' ∷ b'S' ∷ b'T' ∷ b'-' ∷ []

abbrev pub current : Bytes
current = b'C' ∷ b'U' ∷ b'R' ∷ b'R' ∷ b'E' ∷ b'N' ∷ b'T' ∷ []

abbrev pub lock : Bytes
lock = b'L' ∷ b'O' ∷ b'C' ∷ b'K' ∷ []

abbrev pub info_log : Bytes
info_log = b'L' ∷ b'O' ∷ b'G' ∷ []

abbrev pub old_info_log : Bytes
old_info_log = b'L' ∷ b'O' ∷ b'G' ∷ b'.' ∷ b'o' ∷ b'l' ∷ b'd' ∷ []

-- `suffix` comes with its dot.
unfoldable pub make_file_name : Bytes → ℕ → Bytes → Bytes
make_file_name name number suffix = name ++ (b'/' ∷ (padded number ++ suffix))

unfoldable pub log_file_name : Bytes → ℕ → Bytes
log_file_name name number = make_file_name name number dot_log

unfoldable pub table_file_name : Bytes → ℕ → Bytes
table_file_name name number = make_file_name name number dot_ldb

unfoldable pub sst_table_file_name : Bytes → ℕ → Bytes
sst_table_file_name name number = make_file_name name number dot_sst

unfoldable pub descriptor_file_name : Bytes → ℕ → Bytes
descriptor_file_name dbname number = dbname ++ (b'/' ∷ (manifest_dash ++ padded number))

unfoldable pub current_file_name : Bytes → Bytes
current_file_name dbname = dbname ++ (b'/' ∷ current)

unfoldable pub lock_file_name : Bytes → Bytes
lock_file_name dbname = dbname ++ (b'/' ∷ lock)

unfoldable pub temp_file_name : Bytes → ℕ → Bytes
temp_file_name dbname number = make_file_name dbname number dot_dbtmp

unfoldable pub info_log_file_name : Bytes → Bytes
info_log_file_name dbname = dbname ++ (b'/' ∷ info_log)

unfoldable pub old_info_log_file_name : Bytes → Bytes
old_info_log_file_name dbname = dbname ++ (b'/' ∷ old_info_log)

-- The type that the suffix behind the number says.
unfoldable pub suffix_type : Bytes → Option FileType
suffix_type suffix =
    if equals suffix dot_log
    then some FileType.log_file
    else if equals suffix dot_sst || equals suffix dot_ldb
    then some FileType.table_file
    else if equals suffix dot_dbtmp
    then some FileType.temp_file
    else none

-- The number and the type, or `none` for false, which leaves both alone.
unfoldable pub parse_file_name : Bytes → Option (ℕ × FileType)
parse_file_name fname =
    let (ok, num, rest) = consume_decimal_number (remove_prefix fname (length manifest_dash)) 0 in
    let (ok', num', suffix) = consume_decimal_number fname 0 in
    if equals fname current
    then some (0, FileType.current_file)
    else if equals fname lock
    then some (0, FileType.db_lock_file)
    else if equals fname info_log || equals fname old_info_log
    then some (0, FileType.info_log_file)
    else if starts_with fname manifest_dash
    then if ok && length rest == 0 then some (num, FileType.descriptor_file) else none
    else if ok'
    then elim (suffix_type suffix) [ none ↦ none | some t ↦ some (num', t) ]
    else none

-- The calls of the environment, which has the files; a file that is not opened comes with an error.
pub record Env {ℓ ℓ'} (E : Type ℓ) (W : Type ℓ') : Type (ℓ ⊔ ℓ') where
  pub new_writable_file : E → Bytes → E × Status × W
  pub append_file : E → W → Bytes → E × Status
  pub sync_file : E → W → E × Status
  pub close_file : E → W → E × Status
  pub rename_file : E → Bytes → Bytes → E × Status
  pub delete_file : E → Bytes → E × Status

-- What CURRENT holds.
unfoldable pub current_contents : Bytes → ℕ → Bytes
current_contents dbname descriptor_number =
    remove_prefix (descriptor_file_name dbname descriptor_number) (length dbname + 1)
    ++ (b'\n' ∷ [])

module _ {ℓ ℓ'} {E : Type ℓ} {W : Type ℓ'} (env : Env E W) where
  -- util/env.cc.
  unfoldable pub do_write_string_to_file : E → Bytes → Bytes → Bool → E × Status
  do_write_string_to_file e data_ fname should_sync =
      let (e1, s1, file) = env.new_writable_file e fname in
      let (e2, s2) = env.append_file e1 file data_ in
      let (e3, s3) = if is_ok s2 && should_sync then env.sync_file e2 file else (e2, s2) in
      let (e4, s4) = if is_ok s3 then env.close_file e3 file else (e3, s3) in
      if not (is_ok s1)
      then (e1, s1)
      else if not (is_ok s4)
      then ((env.delete_file e4 fname).0, s4)
      else (e4, s4)

  unfoldable pub write_string_to_file_sync : E → Bytes → Bytes → E × Status
  write_string_to_file_sync e data_ fname = do_write_string_to_file e data_ fname true

  unfoldable pub set_current_file : E → Bytes → ℕ → E × Status
  set_current_file e dbname descriptor_number =
      let tmp = temp_file_name dbname descriptor_number in
      let contents = current_contents dbname descriptor_number in
      let (e1, s1) = write_string_to_file_sync e contents tmp in
      let (e2, s2) =
        if is_ok s1 then env.rename_file e1 tmp (current_file_name dbname) else (e1, s1) in
      if not (is_ok s2) then ((env.delete_file e2 tmp).0, s2) else (e2, s2)
