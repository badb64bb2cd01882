-- ===== src/Table/Invariant.antt =====
-- The invariant that the builder documents, on any file.
use leveldb_mcpe_dotnet.Common.{
  Bool, true, false, List, [], ◌∷◌, ◌≡◌, ◌⊎◌, inl, inr, refl, leb, ◌==◌, ◌∙◌, Bool-cases,
  if◌then◌else◌,
}
use leveldb_mcpe_dotnet.Common.Bytes.{Bytes}
use leveldb_mcpe_dotnet.Crc32c.{Checksum}
use leveldb_mcpe_dotnet.Status.{is_ok}
use leveldb_mcpe_dotnet.Block
use leveldb_mcpe_dotnet.Log.Writer.{WritableFile}
use leveldb_mcpe_dotnet.Table.{
  Options, Rep, new_table_builder, change_options, write_block, write_data_block, flush_file,
  restart_filter, flush, add_pending, add_entry, add_index_entry, add, is_empty,
}

-- The calls of a client before it finishes the table.
pub data Op : Type 0 where
  add_op : Bytes → Bytes → Op
  flush_op : Op
  options_op : Options → Op

-- An index entry waits only while the data block is empty.
abbrev pub IsPendingEmpty {ℓ} : {F : Type ℓ} → Rep F → Type 0
IsPendingEmpty r = (r.pending_index_entry ≡ false) ⊎ (r.data_block.buffer ≡ [])

module _ {ℓ} {F : Type ℓ} (file : WritableFile F) (c : Checksum) where
  unfoldable pub step : Rep F → Op → Rep F
  step r (Op.add_op key value) = add file c r key value
  step r Op.flush_op = flush file c r
  step r (Op.options_op options) = (change_options r options).0

  unfoldable pub run : Rep F → List Op → Rep F
  run r [] = r
  run r (op ∷ ops) = run (step r op) ops

  written-buffer : (r : Rep F) → (write_data_block file c r).data_block.buffer ≡ []
  unfolding write_data_block write_block Block.reset
  written-buffer r = refl

  flushed-buffer :
      (r : Rep F)
      → (restart_filter file c (flush_file file c r)).data_block.buffer ≡ r.data_block.buffer
  unfolding restart_filter flush_file
  flushed-buffer r = elim (Bool-cases (is_ok r.status)) [
    | inl good ↦ rw (flush_file, good) refl
    | inr failed ↦ rw (flush_file, failed) refl
  ]

  flush-IsPendingEmpty : (r : Rep F) → IsPendingEmpty r → IsPendingEmpty (flush file c r)
  unfolding flush
  flush-IsPendingEmpty r h = elim (Bool-cases (is_ok r.status)) [
    | inr failed ↦ rw (flush, failed) h
    | inl good ↦ elim (Bool-cases (is_empty r.data_block)) [
      | inl nothing ↦ rw (flush, good, nothing) h
      | inr block ↦
          rw (flush, good, block)
            (inr (flushed-buffer (write_data_block file c r) ∙ written-buffer r))
    ]
  ]

  chosen-pending :
      (b : Bool) (s r : Rep F)
      → s.pending_index_entry ≡ false
      → r.pending_index_entry ≡ b
      → (if b then s else r).pending_index_entry ≡ false
  chosen-pending true s r hs hr = hs
  chosen-pending false s r hs hr = hr

  added-pending :
      (r : Rep F) (key value : Bytes)
      → (add_entry file c (add_pending file c r key) key value).pending_index_entry ≡ false
  unfolding add_entry add_pending add_index_entry
  added-pending r key value =
      let separator = r.options.comparator.find_shortest_separator r.last_key key in
      chosen-pending r.pending_index_entry (add_index_entry r separator) r refl refl

  add-IsPendingEmpty :
      (r : Rep F) (key value : Bytes) → IsPendingEmpty r → IsPendingEmpty (add file c r key value)
  unfolding add
  add-IsPendingEmpty r key value h =
      let added = add_entry file c (add_pending file c r key) key value in
      let full = leb added.options.block_size (Block.current_size_estimate added.data_block) in
      elim (Bool-cases (is_ok r.status)) [
        | inr failed ↦ rw (add, failed) h
        | inl good ↦ elim (Bool-cases full) [
          | inr more ↦ rw (add, good, more) (inl (added-pending r key value))
          | inl at_limit ↦
              rw (add, good, at_limit)
                (flush-IsPendingEmpty added (inl (added-pending r key value)))
        ]
      ]

  options-IsPendingEmpty :
      (r : Rep F) (options : Options)
      → IsPendingEmpty r
      → IsPendingEmpty (change_options r options).0
  unfolding change_options
  options-IsPendingEmpty r options h =
      elim (Bool-cases (options.comparator_address == r.options.comparator_address)) [
        | inl same ↦ rw (change_options, same) h
        | inr other ↦ rw (change_options, other) h
      ]

  step-IsPendingEmpty : (op : Op) (r : Rep F) → IsPendingEmpty r → IsPendingEmpty (step r op)
  unfolding step
  step-IsPendingEmpty (Op.add_op key value) r h = add-IsPendingEmpty r key value h
  step-IsPendingEmpty Op.flush_op r h = flush-IsPendingEmpty r h
  step-IsPendingEmpty (Op.options_op options) r h = options-IsPendingEmpty r options h

  run-IsPendingEmpty : (ops : List Op) (r : Rep F) → IsPendingEmpty r → IsPendingEmpty (run r ops)
  unfolding run
  run-IsPendingEmpty [] r h = h
  run-IsPendingEmpty (op ∷ ops) r h =
      run-IsPendingEmpty ops (step r op) (step-IsPendingEmpty op r h)

  -- On any file, whatever its writes answer, after any calls of Add, Flush and ChangeOptions on a
  -- new table builder, an index entry is pending only if the data block is empty.
  pub run-new_table_builder :
      (options : Options) (dest : F) (ops : List Op)
      → IsPendingEmpty (run (new_table_builder options dest) ops)
  unfolding new_table_builder
  run-new_table_builder options dest ops =
      run-IsPendingEmpty ops (new_table_builder options dest) (inl refl)
