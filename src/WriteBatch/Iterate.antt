-- ===== src/WriteBatch/Iterate.antt =====
-- `Iterate` on a batch that holds a list of updates, and on any bytes.
use leveldb_mcpe_dotnet.Common.{
  ℕ, zero, suc, ◌+◌, ◌%◌, ◌^◌, ◌≤◌, ◌<◌, none, some, List, [], ◌∷◌, ◌++◌, ◌≡◌, ◌≢◌, length, drop,
  ◌==◌, append_assoc, All, arith, refl, Option-cases, inl, inr, true,
}
use leveldb_mcpe_dotnet.Common.Bytes.{Bytes}
use leveldb_mcpe_dotnet.Coding.Prefixed.{
  prefixed, get_length_prefixed_slice-prefixed, get_length_prefixed_slice_shorter,
}
use leveldb_mcpe_dotnet.DbFormat.{type_value, type_deletion}
use native.Mathlib.Nat.{mod-eq_of_lt}
use leveldb_mcpe_dotnet.Status.{Status}
use leveldb_mcpe_dotnet.WriteBatch.{
  WriteBatch, Handler, header, count, read_put, read_delete, iterate_loop, iterate, inserter,
  insert_into, add_int,
}
use leveldb_mcpe_dotnet.WriteBatch.Records.{
  Update, stored, deleted, Fits, records, length-records, Holds, drop-header, count-Holds,
  sequence-Holds, header-le-length,
}

-- The handler's state after the updates, in order.
unfoldable pub apply {ℓ} : {S : Type ℓ} → Handler S → S → List Update → S
apply h s [] = s
apply h s (stored key value ∷ us) = apply h (h.put s key value) us
apply h s (deleted key ∷ us) = apply h (h.delete s key) us

module _ {ℓ} {S : Type ℓ} (h : Handler S) where
  read_put-record :
      (s : S) (key value rest : Bytes)
      → Fits (stored key value)
      → read_put h s ((prefixed key ++ prefixed value) ++ rest) ≡ some (h.put s key value, rest)
  unfolding read_put
  read_put-record s key value rest fits = rw (
    append_assoc (prefixed key) (prefixed value) rest,
    read_put,
    get_length_prefixed_slice-prefixed key (prefixed value ++ rest) fits.0,
    get_length_prefixed_slice-prefixed value rest fits.1,
  )

  read_delete-record :
      (s : S) (key rest : Bytes)
      → Fits (deleted key)
      → read_delete h s (prefixed key ++ rest) ≡ some (h.delete s key, rest)
  unfolding read_delete
  read_delete-record s key rest fits =
      rw (read_delete, get_length_prefixed_slice-prefixed key rest fits)

  iterate_loop-records :
      (us : List Update) (fuel expected found : ℕ) (s : S)
      → All Fits us
      → length us ≤ fuel
      → found + length us ≡ expected
      → expected < 2 ^ 31
      → iterate_loop h fuel expected s (records us) found ≡ some (apply h s us, Status.ok)
  unfolding iterate_loop apply
  iterate_loop-records [] fuel expected found s fits hf e small = ground arith
  iterate_loop-records (u ∷ us) zero expected found s fits hf e small = absurd (omega arith)
  iterate_loop-records (stored key value ∷ us) (suc fuel) expected found s fits hf e small =
      rw (read_put-record s key value (records us) fits.0) (
        iterate_loop-records us fuel expected (add_int found 1) (h.put s key value) fits.1
          (omega arith) (omega arith) small)
  iterate_loop-records (deleted key ∷ us) (suc fuel) expected found s fits hf e small =
      rw (read_delete-record s key (records us) fits.0) (
        iterate_loop-records us fuel expected (add_int found 1) (h.delete s key) fits.1
          (omega arith) (omega arith) small)

  -- `Iterate` hands the updates to the handler in order, each once, and reports success.
  pub iterate-Holds :
      (b : WriteBatch) (seq : ℕ) (us : List Update) (s : S)
      → Holds b seq us
      → All Fits us
      → iterate h b s ≡ some (apply h s us, Status.ok)
  unfolding iterate
  iterate-Holds b seq us s hold fits = rw (drop-header hold) (
      ground (
        arith,
        header-le-length hold,
        iterate_loop-records us (length (records us)) (count b) 0 s fits (length-records us)
            (omega (arith, count-Holds hold)) (omega (arith, count-Holds hold, hold.counted)),
      ))

  read_put_shorter :
      (s s' : S) (input rest : Bytes)
      → read_put h s input ≡ some (s', rest)
      → length rest < length input
  unfolding read_put
  read_put_shorter s s' input rest e = grind (arith, get_length_prefixed_slice_shorter)

  read_delete_shorter :
      (s s' : S) (input rest : Bytes)
      → read_delete h s input ≡ some (s', rest)
      → length rest < length input
  unfolding read_delete
  read_delete_shorter s s' input rest e = grind (arith, get_length_prefixed_slice_shorter)

  iterate_loop_total :
      (fuel expected found : ℕ) (s : S) (input : Bytes)
      → length input ≤ fuel
      → iterate_loop h fuel expected s input found ≢ none
  unfolding iterate_loop
  iterate_loop_total fuel expected found s [] hf e = ground arith
  iterate_loop_total zero expected found s (tag ∷ input) hf e = absurd (omega arith)
  iterate_loop_total (suc fuel) expected found s (tag ∷ input) hf e =
      let again = iterate_loop_total fuel expected (add_int found 1) in
      let on_put : (tag == type_value ≡ true) → ⊥ = λ t. elim (Option-cases (read_put h s input)) [
        | inl q ↦ ground arith
        | inr ((s', rest), q) ↦ ground (arith, again s' rest, read_put_shorter s s' input rest q)
      ] in
      elim (Option-cases (read_delete h s input)) [
        | inl q ↦ ground (arith, on_put)
        | inr ((s', rest), q) ↦
            ground (arith, on_put, again s' rest, read_delete_shorter s s' input rest q)
      ]

  -- Iterate ends on every batch and handler, well formed or not: its loop never runs out of fuel.
  pub iterate_total : (b : WriteBatch) (s : S) → iterate h b s ≢ none
  unfolding iterate
  iterate_total b s e = ground (
    arith,
    iterate_loop_total (length (drop header b.rep)) (count b) 0 s (drop header b.rep) (omega arith),
  )

-- The calls of the memtable's `Add`, numbered from `seq` on, modulo 2^64.
unfoldable pub add_all {ℓ} :
    {M : Type ℓ} → (M → ℕ → ℕ → Bytes → Bytes → M) → M → ℕ → List Update → M
add_all add mem seq [] = mem
add_all add mem seq (stored key value ∷ us) =
    add_all add (add mem (seq % 2 ^ 64) type_value key value) (seq + 1) us
add_all add mem seq (deleted key ∷ us) =
    add_all add (add mem (seq % 2 ^ 64) type_deletion key []) (seq + 1) us

module _ {ℓ} {M : Type ℓ} (add : M → ℕ → ℕ → Bytes → Bytes → M) where
  apply-inserter :
      (us : List Update) (mem : M) (seq : ℕ)
      → apply (inserter add) (seq % 2 ^ 64, mem) us
        ≡ ((seq + length us) % 2 ^ 64, add_all add mem seq us)
  unfolding apply inserter add_all
  apply-inserter [] mem seq = ground arith
  apply-inserter (stored key value ∷ us) mem seq =
      ground (arith, apply-inserter us (add mem (seq % 2 ^ 64) type_value key value) (seq + 1))
  apply-inserter (deleted key ∷ us) mem seq =
      ground (arith, apply-inserter us (add mem (seq % 2 ^ 64) type_deletion key []) (seq + 1))

  -- For a batch that holds a list of updates (each fitting its length prefixes), InsertInto adds
  -- every update to the memtable in order, with consecutive sequence numbers from the batch's on,
  -- modulo 2^64, and reports success.
  pub insert_into-Holds :
      (b : WriteBatch) (seq : ℕ) (us : List Update) (mem : M)
      → Holds b seq us
      → All Fits us
      → insert_into add b mem ≡ some (add_all add mem seq us, Status.ok)
  unfolding insert_into
  insert_into-Holds b seq us mem hold fits =
      let applied : apply (inserter add) (seq, mem) us
          ≡ ((seq + length us) % 2 ^ 64, add_all add mem seq us) =
        rw (mod-eq_of_lt hold.numbered) at (apply-inserter us mem seq) in
      rw (sequence-Holds hold, iterate-Holds (inserter add) b seq us (seq, mem) hold fits, applied)
        refl
