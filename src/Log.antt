-- ===== src/Log.antt =====
-- db/log_format.h: the blocks and records of the write-ahead log.
pub mod Writer
pub mod Reader
pub mod Layout
pub mod Header
pub mod Physical
pub mod Logical
pub mod RoundTrip
pub mod Totality
mod Tests
use leveldb_mcpe_dotnet.Common.{ℕ}

-- `RecordType`.
abbrev pub zero_type : ℕ
zero_type = 0

abbrev pub full_type : ℕ
full_type = 1

abbrev pub first_type : ℕ
first_type = 2

abbrev pub middle_type : ℕ
middle_type = 3

abbrev pub last_type : ℕ
last_type = 4

abbrev pub block_size : ℕ
block_size = 32768

-- A checksum of 4 bytes, a length of 2 and a type of 1.
abbrev pub header_size : ℕ
header_size = 7
