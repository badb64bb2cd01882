-- ===== src/DbIter/Tests.antt =====
-- A database of two versions of a key, a deleted key and a key that is too new.
use leveldb_mcpe_dotnet.Common.{ℕ, some, List, [], ◌∷◌, ◌≡◌, refl, arith}
use leveldb_mcpe_dotnet.Common.Bytes.{Bytes}
use mathlib.Core.List.{map}
use leveldb_mcpe_dotnet.Comparator.{bytewise}
use leveldb_mcpe_dotnet.Comparator.Bytewise.{bytewise-IsComparator}
use leveldb_mcpe_dotnet.Slice
use leveldb_mcpe_dotnet.Iterator.{Cursor, outside}
use leveldb_mcpe_dotnet.Iterator.Lists.{list_iterator, list_iterator-IsIterator}
use leveldb_mcpe_dotnet.DbIter.{DbIter, new_db_iterator, seek_to_first}
use leveldb_mcpe_dotnet.DbIter.View.{Stored, view, Ascending}
use leveldb_mcpe_dotnet.DbIter.Scan.{raw, shown}
use leveldb_mcpe_dotnet.DbIter.Forward.{forward_pass, seek_to_first-forward_pass}
use leveldb_mcpe_dotnet.DbFormat.{compare}

abbrev stored : Bytes → ℕ → ℕ → Bytes → Stored
stored user_key sequence type value =
    (record { user_key = user_key; sequence = sequence; type = type }, value)

abbrev database : List Stored
database =
    stored (97 ∷ []) 3 1 (1 ∷ [])
    ∷ stored (97 ∷ []) 1 1 (2 ∷ [])
    ∷ stored (98 ∷ []) 2 0 []
    ∷ stored (98 ∷ []) 1 1 (3 ∷ [])
    ∷ stored (99 ∷ []) 5 1 (4 ∷ [])
    ∷ stored (99 ∷ []) 4 1 (5 ∷ [])
    ∷ []

view-database :
    map shown (view bytewise 4 [] database) ≡ ((97 ∷ [], 1 ∷ []) ∷ (99 ∷ [], 5 ∷ []) ∷ [])
unfolding view bytewise Slice.compare Slice.memcmp
view-database = refl

database-Ascending : Ascending bytewise 4 database
unfolding bytewise Slice.compare Slice.memcmp
database-Ascending = ground arith

seek_to_first-forward_pass_example :
    (first : DbIter Cursor) × (seek_to_first
        (list_iterator (compare bytewise) (map raw database))
        bytewise
        4
        6
        (new_db_iterator outside)
      ≡ some first)
    × (forward_pass bytewise 4 (list_iterator (compare bytewise) (map raw database)) 6 7 first
        ≡ some (map shown (view bytewise 4 [] database)))
seek_to_first-forward_pass_example =
    seek_to_first-forward_pass (list_iterator (compare bytewise) (map raw database)) bytewise 4
      (λ s. s) (compare bytewise) database 6 (new_db_iterator outside)
      (list_iterator-IsIterator (compare bytewise) (map raw database)) bytewise-IsComparator.0
      (ground arith) database-Ascending (omega arith)
