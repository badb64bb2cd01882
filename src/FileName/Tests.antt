-- ===== src/FileName/Tests.antt =====
-- Names and numbers of a database in the directory "db".
use leveldb_mcpe_dotnet.Common.{
  ◌^◌, ◌≤◌, ◌<◌, true, false, some, [], ◌∷◌, ◌++◌, ◌≡◌, ◌⊎◌, refl, arith, replicate,
}
use leveldb_mcpe_dotnet.Common.Bytes.{Bytes}
use leveldb_mcpe_dotnet.FileName.{
  FileType, consume_decimal_number, consume_loop, parse_file_name, log_file_name, table_file_name,
  sst_table_file_name, temp_file_name, descriptor_file_name, current_file_name, lock_file_name,
  info_log_file_name, old_info_log_file_name, digits, decimal, padded, make_file_name, dot_log,
}
use leveldb_mcpe_dotnet.FileName.Decimal.{value_from, consume_decimal_number_cases}
use leveldb_mcpe_dotnet.FileName.Parsed.{base, parse_file_name-names}

abbrev db : Bytes
db = b'd' ∷ b'b' ∷ []

log_five : log_file_name db 5 ≡ db ++ (b'/' ∷ (replicate 5 b'0' ++ (b'5' ∷ dot_log)))
unfolding log_file_name make_file_name padded decimal digits
log_five = refl

parse_file_name-names_example :
    (parse_file_name (base db (log_file_name db 1234567)) ≡ some (1234567, FileType.log_file))
    × (parse_file_name (base db (table_file_name db 1234567)) ≡ some (1234567, FileType.table_file))
    × (parse_file_name (base db (sst_table_file_name db 1234567))
        ≡ some (1234567, FileType.table_file))
    × (parse_file_name (base db (temp_file_name db 1234567)) ≡ some (1234567, FileType.temp_file))
    × (parse_file_name (base db (descriptor_file_name db 1234567))
        ≡ some (1234567, FileType.descriptor_file))
    × (parse_file_name (base db (current_file_name db)) ≡ some (0, FileType.current_file))
    × (parse_file_name (base db (lock_file_name db)) ≡ some (0, FileType.db_lock_file))
    × (parse_file_name (base db (info_log_file_name db)) ≡ some (0, FileType.info_log_file))
    × (parse_file_name (base db (old_info_log_file_name db)) ≡ some (0, FileType.info_log_file))
parse_file_name-names_example = parse_file_name-names db 1234567 (omega arith)

-- The first number that does not fit.
abbrev past_u64 : Bytes
past_u64 =
    b'8' ∷ b'4' ∷ b'4' ∷ b'6' ∷ b'7' ∷ b'4' ∷ b'4' ∷ b'0' ∷ b'7' ∷ b'3' ∷ b'7' ∷ b'0' ∷ b'9' ∷ b'5'
    ∷ b'5' ∷ b'1' ∷ b'6' ∷ b'1' ∷ b'6' ∷ []

past_u64-fails :
    consume_decimal_number ((b'1' ∷ past_u64) ++ dot_log) 3 ≡ (false, 3, b'6' ∷ dot_log)
unfolding consume_decimal_number consume_loop
past_u64-fails = refl

consume_decimal_number_cases_example :
    ((value_from 0 (b'1' ∷ past_u64) < 2 ^ 64)
      × (consume_decimal_number ((b'1' ∷ past_u64) ++ dot_log) 3
          ≡ (true, value_from 0 (b'1' ∷ past_u64), dot_log)))
    ⊎ ((2 ^ 64 ≤ value_from 0 (b'1' ∷ past_u64))
        × ((consume_decimal_number ((b'1' ∷ past_u64) ++ dot_log) 3).0 ≡ false)
        × ((consume_decimal_number ((b'1' ∷ past_u64) ++ dot_log) 3).1 ≡ 3))
consume_decimal_number_cases_example =
    consume_decimal_number_cases b'1' past_u64 dot_log 3 (ground arith) refl
