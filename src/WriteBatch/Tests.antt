-- ===== src/WriteBatch/Tests.antt =====
-- A batch of two updates.
use leveldb_mcpe_dotnet.Common.{ℕ, List, [], ◌∷◌, ◌++◌, ◌≡◌, ◌≢◌, some, none, refl, arith}
use leveldb_mcpe_dotnet.Common.Bytes.{Bytes}
use leveldb_mcpe_dotnet.Status.{Status}
use leveldb_mcpe_dotnet.WriteBatch.{
  WriteBatch, Handler, clear, put, delete, append, set_sequence, iterate, insert_into,
}
use leveldb_mcpe_dotnet.WriteBatch.Records.{
  Update, stored, deleted, Holds, clear-Holds, put-Holds, delete-Holds, append-Holds,
  set_sequence-Holds,
}
use leveldb_mcpe_dotnet.WriteBatch.Iterate.{
  apply, iterate-Holds, iterate_total, add_all, insert_into-Holds,
}

abbrev batch : WriteBatch
batch = delete (put (set_sequence clear 100) (1 ∷ []) (2 ∷ 3 ∷ [])) (4 ∷ [])

abbrev updates : List Update
updates = stored (1 ∷ []) (2 ∷ 3 ∷ []) ∷ deleted (4 ∷ []) ∷ []

set_sequence-Holds_example : Holds (set_sequence clear 100) 100 []
set_sequence-Holds_example = set_sequence-Holds clear-Holds 100 (omega arith)

put-Holds_example :
    Holds
      (put (set_sequence clear 100) (1 ∷ []) (2 ∷ 3 ∷ []))
      100
      ([] ++ (stored (1 ∷ []) (2 ∷ 3 ∷ []) ∷ []))
put-Holds_example =
    put-Holds set_sequence-Holds_example (1 ∷ []) (2 ∷ 3 ∷ []) (omega arith) (omega arith)

delete-Holds_example : Holds batch 100 updates
delete-Holds_example = delete-Holds put-Holds_example (4 ∷ []) (omega arith) (omega arith)

append-Holds_example : Holds (append batch batch) 100 (updates ++ updates)
append-Holds_example = append-Holds delete-Holds_example delete-Holds_example (omega arith)

-- A handler that writes down what it is told.
abbrev recorder : Handler (List Update)
recorder = record {
  put = λ seen key value. seen ++ (stored key value ∷ []);
  delete = λ seen key. seen ++ (deleted key ∷ []);
}

iterate-Holds_example : iterate recorder batch [] ≡ some (apply recorder [] updates, Status.ok)
iterate-Holds_example =
    iterate-Holds recorder batch 100 updates [] delete-Holds_example (omega arith)

recorded : apply recorder [] updates ≡ updates
unfolding apply
recorded = refl

iterate_total_example : iterate recorder (record { rep = 1 ∷ 2 ∷ [] }) [] ≢ none
iterate_total_example = iterate_total recorder (record { rep = 1 ∷ 2 ∷ [] }) []

abbrev log_adds :
    List (ℕ × ℕ × Bytes × Bytes) → ℕ → ℕ → Bytes → Bytes → List (ℕ × ℕ × Bytes × Bytes)
log_adds calls seq t key value = calls ++ ((seq, t, key, value) ∷ [])

insert_into-Holds_example :
    insert_into log_adds batch [] ≡ some (add_all log_adds [] 100 updates, Status.ok)
insert_into-Holds_example =
    insert_into-Holds log_adds batch 100 updates [] delete-Holds_example (omega arith)
