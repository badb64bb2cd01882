-- ===== src/Samples.antt =====
-- Samples that the tests of several parts use: a sum as the checksum, and files in memory.
use leveldb_mcpe_dotnet.Common.{ℕ, ◌+◌, ◌%◌, ◌^◌, true, [], ◌∷◌, ◌++◌, take, drop, ◌≡◌, refl, arith}
use leveldb_mcpe_dotnet.Common.Bytes.{Bytes}
use leveldb_mcpe_dotnet.Crc32c.{Checksum}
use leveldb_mcpe_dotnet.Log.Writer.{WritableFile}
use leveldb_mcpe_dotnet.Log.Layout.{Accepts}
use leveldb_mcpe_dotnet.Format.{RandomAccessFile}
use leveldb_mcpe_dotnet.Table.ReadBack.{Serves}
use leveldb_mcpe_dotnet.Status.{Status}

abbrev pub sum : Bytes → ℕ
sum [] = 0
sum (x ∷ xs) = x + sum xs

pub sum-append : (a b : Bytes) → sum (a ++ b) ≡ sum a + sum b
sum-append [] b = omega arith
sum-append (x ∷ a) b = omega (arith, sum-append a b)

abbrev pub sum_checksum : Checksum
sum_checksum = record {
  extend = λ crc a. (crc + sum a) % 2 ^ 32;
  extend_append = λ crc a b. omega (arith, sum-append a b);
  extend_u32 = λ crc a. omega arith;
}

abbrev pub memory_out : WritableFile Bytes
memory_out = record { append = λ f bytes. (f ++ bytes, Status.ok); flush = λ f. (f, Status.ok) }

pub memory_out-Accepts : Accepts memory_out (λ f. f)
memory_out-Accepts = record {
  append_contents = λ f bytes. refl;
  append_ok = λ f bytes. refl;
  flush_contents = λ f. refl;
  flush_ok = λ f. refl;
}

abbrev pub memory_file : Bytes → RandomAccessFile
memory_file content = record {
  read = λ offset n. record {
    status = Status.ok;
    contents = take n (drop offset content);
    in_scratch = true;
  };
}

pub memory_file-Serves : (content : Bytes) → Serves (memory_file content) content
memory_file-Serves content = record { read_ok = λ offset n. refl; read_contents = λ offset n. refl }
