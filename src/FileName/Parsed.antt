-- ===== src/FileName/Parsed.antt =====
-- The names are parsed back.
use leveldb_mcpe_dotnet.Common.{
  ℕ, suc, ◌+◌, ◌-◌, ◌≤◌, ◌<◌, true, false, some, [], ◌∷◌, ◌++◌, length, replicate, drop,
  length-append, length-replicate, append-nil, ltb, leb, ◌==◌, &&-false, ◌≡◌, inl, inr, refl, ◌∙◌,
  ap, All, Bool-cases, arith,
}
use leveldb_mcpe_dotnet.Common.Bytes.{Bytes, IsU64}
use leveldb_mcpe_dotnet.Slice.{memcmp, equals, starts_with, remove_prefix}
use leveldb_mcpe_dotnet.FileName.{
  FileType, decimal, padded, consume_decimal_number, suffix_type, parse_file_name, dot_log, dot_ldb,
  dot_sst, dot_dbtmp, manifest_dash, current, lock, info_log, old_info_log, make_file_name,
  log_file_name, table_file_name, sst_table_file_name, temp_file_name, descriptor_file_name,
  current_file_name, lock_file_name, info_log_file_name, old_info_log_file_name, consume_loop,
}
use leveldb_mcpe_dotnet.FileName.Decimal.{
  IsDigit, Ends, value_from, consume_decimal_number_cases, padded-IsDigit, value_from-padded,
}

-- Names with other first bytes are not equal.
head-equals : (x y : ℕ) (a b : Bytes) → (x == y) ≡ false → equals (x ∷ a) (y ∷ b) ≡ false
unfolding equals memcmp
head-equals x y a b differ = elim (Bool-cases (ltb x y)) [
  | inl below ↦ rw below (&&-false (length (x ∷ a) == length (y ∷ b)))
  | inr not_below ↦
      let above : ltb y x ≡ true = ground arith in
      rw (not_below, above) (&&-false (length (x ∷ a) == length (y ∷ b)))
]

digit-equals : (d x : ℕ) (a b : Bytes) → IsDigit d → b'9' < x → equals (d ∷ a) (x ∷ b) ≡ false
digit-equals d x a b h l = head-equals d x a b (ground arith)

digit-starts_with :
    (d x : ℕ) (a b : Bytes) → IsDigit d → b'9' < x → starts_with (d ∷ a) (x ∷ b) ≡ false
unfolding starts_with memcmp
digit-starts_with d x a b h l =
    let below : ltb d x ≡ true = ground arith in
    rw below (&&-false (leb (length (x ∷ b)) (length (d ∷ a))))

parse-numbered :
    (p suffix : Bytes) (n : ℕ) (t : FileType)
    → All IsDigit p
    → value_from 0 p ≡ n
    → IsU64 n
    → 1 ≤ length p
    → Ends suffix
    → suffix_type suffix ≡ some t
    → parse_file_name (p ++ suffix) ≡ some (n, t)
unfolding parse_file_name
parse-numbered [] suffix n t h v small some_digit ends typed = absurd (omega arith)
parse-numbered (d ∷ ds) suffix n t h v small some_digit ends typed =
    elim (consume_decimal_number_cases d ds suffix 0 h ends) [
      | inr (big, bad, kept) ↦ absurd (omega (arith, v))
      | inl (fit, same) ↦
          let answer = ap (λ r. r.0) same in
          let number = ap (λ r. r.1) same ∙ v in
          let left = ap (λ r. r.2) same in
          rw
            (
              parse_file_name,
              digit-equals d b'C' (ds ++ suffix) (drop 1 current) h.0 (omega arith),
              digit-equals d b'L' (ds ++ suffix) (drop 1 lock) h.0 (omega arith),
              digit-equals d b'L' (ds ++ suffix) (drop 1 info_log) h.0 (omega arith),
              digit-equals d b'L' (ds ++ suffix) (drop 1 old_info_log) h.0 (omega arith),
              digit-starts_with d b'M' (ds ++ suffix) (drop 1 manifest_dash) h.0 (omega arith),
              answer,
              left,
              typed,
              number,
            )
            refl
    ]

length-padded : (n : ℕ) → 1 ≤ length (padded n)
unfolding padded
length-padded n = omega (
  arith,
  length-append (replicate (6 - length (decimal n)) b'0') (decimal n),
  length-replicate {A = ℕ} (6 - length (decimal n)) b'0',
)

-- What stands behind the directory and the slash.
base_name :
    (dbname rest : Bytes) → remove_prefix (dbname ++ (b'/' ∷ rest)) (length dbname + 1) ≡ rest
unfolding remove_prefix
base_name [] rest = refl
base_name (c ∷ dbname) rest =
    let e : suc (length dbname) + 1 ≡ suc (length dbname + 1) = omega arith in
    rw e (base_name dbname rest)

parse-made :
    (dbname suffix : Bytes) (n : ℕ) (t : FileType)
    → IsU64 n
    → Ends suffix
    → suffix_type suffix ≡ some t
    → parse_file_name (remove_prefix (make_file_name dbname n suffix) (length dbname + 1))
      ≡ some (n, t)
unfolding make_file_name
parse-made dbname suffix n t small ends typed = rw (base_name dbname (padded n ++ suffix)) (
    parse-numbered (padded n) suffix n t (padded-IsDigit n) (value_from-padded n small) small
      (length-padded n) ends typed)

manifest-number :
    (p : Bytes) (n : ℕ)
    → All IsDigit p
    → value_from 0 p ≡ n
    → IsU64 n
    → 1 ≤ length p
    → parse_file_name (manifest_dash ++ p) ≡ some (n, FileType.descriptor_file)
unfolding parse_file_name starts_with memcmp remove_prefix
manifest-number [] n h v small some_digit = absurd (omega arith)
manifest-number (d ∷ ds) n h v small some_digit =
    elim (consume_decimal_number_cases d ds [] 0 h tt) [
      | inr (big, bad, kept) ↦ absurd (omega (arith, v))
      | inl (fit, same) ↦
          let same' = rw (append-nil ds) at same in
          let answer = ap (λ r. r.0) same' in
          let number = ap (λ r. r.1) same' ∙ v in
          let left = ap (λ r. r.2) same' in
          let long : leb 9 (length (manifest_dash ++ (d ∷ ds))) ≡ true = ground arith in
          let rest = drop 1 manifest_dash ++ (d ∷ ds) in
          rw
            (
              parse_file_name,
              head-equals b'M' b'C' rest (drop 1 current) refl,
              head-equals b'M' b'L' rest (drop 1 lock) refl,
              head-equals b'M' b'L' rest (drop 1 info_log) refl,
              head-equals b'M' b'L' rest (drop 1 old_info_log) refl,
              long,
              answer,
              left,
              number,
            )
            refl
    ]

-- The name without the directory of the database and the slash.
abbrev pub base : Bytes → Bytes → Bytes
base dbname fname = remove_prefix fname (length dbname + 1)

-- Behind the directory and the slash, every name of a file of the database, with any number below
-- 2^64 where it has one, is parsed to that number, or 0, and the type of the file.
pub parse_file_name-names :
    (dbname : Bytes) (n : ℕ)
    → IsU64 n
    → (parse_file_name (base dbname (log_file_name dbname n)) ≡ some (n, FileType.log_file))
      × (parse_file_name (base dbname (table_file_name dbname n)) ≡ some (n, FileType.table_file))
      × (parse_file_name (base dbname (sst_table_file_name dbname n))
          ≡ some (n, FileType.table_file))
      × (parse_file_name (base dbname (temp_file_name dbname n)) ≡ some (n, FileType.temp_file))
      × (parse_file_name (base dbname (descriptor_file_name dbname n))
          ≡ some (n, FileType.descriptor_file))
      × (parse_file_name (base dbname (current_file_name dbname)) ≡ some (0, FileType.current_file))
      × (parse_file_name (base dbname (lock_file_name dbname)) ≡ some (0, FileType.db_lock_file))
      × (parse_file_name (base dbname (info_log_file_name dbname))
          ≡ some (0, FileType.info_log_file))
      × (parse_file_name (base dbname (old_info_log_file_name dbname))
          ≡ some (0, FileType.info_log_file))
unfolding log_file_name table_file_name sst_table_file_name temp_file_name descriptor_file_name
    current_file_name lock_file_name info_log_file_name old_info_log_file_name suffix_type equals
    memcmp parse_file_name consume_decimal_number consume_loop starts_with
parse_file_name-names dbname n small = (
  parse-made dbname dot_log n FileType.log_file small refl refl,
  parse-made dbname dot_ldb n FileType.table_file small refl refl,
  parse-made dbname dot_sst n FileType.table_file small refl refl,
  parse-made dbname dot_dbtmp n FileType.temp_file small refl refl,
  rw (base_name dbname (manifest_dash ++ padded n)) (
      manifest-number (padded n) n (padded-IsDigit n) (value_from-padded n small) small
        (length-padded n)),
  rw (base_name dbname current) refl,
  rw (base_name dbname lock) refl,
  rw (base_name dbname info_log) refl,
  rw (base_name dbname old_info_log) refl,
)
