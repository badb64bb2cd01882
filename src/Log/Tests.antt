-- ===== src/Log/Tests.antt =====
-- A log in memory, with a sum as its checksum.
use leveldb_mcpe_dotnet.Common.{
  suc, true, List, [], ◌∷◌, length, take, drop, some, none, ◌≡◌, ◌≢◌, refl, arith,
}
use leveldb_mcpe_dotnet.Common.Bytes.{Bytes}
use leveldb_mcpe_dotnet.Crc32c.{mask, unmask}
use leveldb_mcpe_dotnet.Crc32c.Mask.{unmask-mask}
use leveldb_mcpe_dotnet.Log.Writer.{Writer, new_writer, reopened_writer, add_record}
use leveldb_mcpe_dotnet.Log.Reader.{SequentialFile, Reader, new_reader, read_physical_record}
use leveldb_mcpe_dotnet.Log.Layout.{Wrote, add_record-Wrote}
use leveldb_mcpe_dotnet.Log.Physical.{Gives}
use leveldb_mcpe_dotnet.Log.Totality.{read_physical_record_total}
use leveldb_mcpe_dotnet.Log.RoundTrip.{add_records, read_records, read_records-add_records}
use leveldb_mcpe_dotnet.Samples.{sum_checksum, memory_out, memory_out-Accepts}
use leveldb_mcpe_dotnet.Status.{Status}

abbrev memory_in : SequentialFile Bytes
memory_in = record {
  read = λ f n. (drop n f, take n f, Status.ok);
  skip = λ f n. (drop n f, Status.ok);
}

memory_in-Gives : Gives memory_in (λ f. f)
memory_in-Gives = record {
  read_rest = λ f n. refl;
  read_bytes = λ f n. refl;
  read_ok = λ f n. refl;
}

abbrev three_records : List Bytes
three_records = (1 ∷ 2 ∷ 3 ∷ []) ∷ [] ∷ (4 ∷ []) ∷ []

read_records-add_records_example :
    (w : Writer Bytes) × (r : Reader Bytes) × (add_records memory_out sum_checksum
        (new_writer [])
        three_records
      ≡ some w)
    × (read_records memory_in sum_checksum (suc (length w.dest)) 4 (new_reader w.dest true true 0)
        ≡ some (r, three_records))
    × (r.reports ≡ [])
read_records-add_records_example =
    read_records-add_records memory_out memory_in sum_checksum (λ f. f) (λ f. f) memory_out-Accepts
      memory_in-Gives (λ f. f) (λ f. refl) [] refl true true three_records

-- Six bytes are left of the block, and the record goes to the next one.
add_record-Wrote_example :
    Wrote memory_out sum_checksum
      (λ f. f)
      memory_out-Accepts
      (reopened_writer [] 32762)
      true
      (1 ∷ 2 ∷ [])
      (add_record memory_out sum_checksum (reopened_writer [] 32762) (1 ∷ 2 ∷ []))
unfolding reopened_writer
add_record-Wrote_example =
    add_record-Wrote memory_out sum_checksum (λ f. f) memory_out-Accepts (reopened_writer [] 32762)
      (1 ∷ 2 ∷ []) (omega arith)

-- A file that ends in the middle of a header.
read_physical_record_total_example :
    read_physical_record memory_in sum_checksum (new_reader (1 ∷ 2 ∷ []) true true 0) [] ≢ none
read_physical_record_total_example =
    read_physical_record_total memory_in sum_checksum (new_reader (1 ∷ 2 ∷ []) true true 0) []

unmask-mask_example : unmask (mask 12345) ≡ 12345
unmask-mask_example = unmask-mask 12345 (omega arith)
