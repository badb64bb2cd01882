-- ===== src/Log/Totality.antt =====
-- `ReadPhysicalRecord` ends on every file.
use leveldb_mcpe_dotnet.Common.{
  ℕ, ◌≤◌, Bool, true, false, none, some, suc, length, ◌≡◌, ◌≢◌, refl, sym, ◌∙◌, ◌⊎◌, inl, inr,
  arith, ltb, ltb-false, if◌then◌else◌,
}
use leveldb_mcpe_dotnet.Common.Bytes.{Bytes}
use leveldb_mcpe_dotnet.Crc32c.{Checksum}
use leveldb_mcpe_dotnet.Log.{header_size, block_size}
use leveldb_mcpe_dotnet.Log.Reader.{
  SequentialFile, Reader, Round, again, gives, refill, parse_header, physical_round,
  read_physical_loop, read_physical_record,
}

-- A reader that knows the end of its file or has a header in its buffer.
abbrev Ready {ℓ} : {F : Type ℓ} → Reader F → Type 0
Ready r = (r.eof ≡ true) ⊎ (header_size ≤ length r.buffer)

unfoldable Gives {ℓ} : {F : Type ℓ} → Round F → Type 0
Gives (again r) = ⊥
Gives (gives r t fragment) = Unit

unfoldable Progresses {ℓ} : {F : Type ℓ} → Round F → Type 0
Progresses (again r) = Ready r
Progresses (gives r t fragment) = Unit

module _ {ℓ} {F : Type ℓ} where
  Gives-gives : (r : Reader F) (t : ℕ) (fragment : Bytes) → Gives (gives r t fragment)
  unfolding Gives
  Gives-gives r t fragment = tt

  Gives-if : (b : Bool) (x y : Round F) → Gives x → Gives y → Gives (if b then x else y)
  Gives-if true x y p q = p
  Gives-if false x y p q = q

  Progresses-gives : (r : Reader F) (t : ℕ) (fragment : Bytes) → Progresses (gives r t fragment)
  unfolding Progresses
  Progresses-gives r t fragment = tt

  Progresses-again_eof : (r : Reader F) → r.eof ≡ true → Progresses (again r)
  unfolding Progresses
  Progresses-again_eof r known = inl known

  Progresses-again_full : (r : Reader F) → header_size ≤ length r.buffer → Progresses (again r)
  unfolding Progresses
  Progresses-again_full r some_header = inr some_header

  Progresses-if :
      (b : Bool) (x y : Round F)
      → (b ≡ true → Progresses x)
      → (b ≡ false → Progresses y)
      → Progresses (if b then x else y)
  Progresses-if true x y p q = p refl
  Progresses-if false x y p q = q refl

  Gives-Progresses : (x : Round F) → Gives x → Progresses x
  unfolding Gives Progresses
  Gives-Progresses (gives r t fragment) p = tt
  Gives-Progresses (again r) p = elim p [ ]

module _ {ℓ} {F : Type ℓ} (file : SequentialFile F) (c : Checksum) where
  parse_header-Gives : (r : Reader F) (fragment : Bytes) → Gives (parse_header file c r fragment)
  unfolding parse_header
  parse_header-Gives r fragment = search (Gives-if, Gives-gives)

  refill-Gives : (r : Reader F) (fragment : Bytes) → r.eof ≡ true → Gives (refill file c r fragment)
  unfolding refill
  refill-Gives r fragment e = rw e (Gives-gives _ _ _)

  full_block : (n : ℕ) → ltb n block_size ≡ false → header_size ≤ n
  full_block n e = ground (arith, e)

  refill-Progresses : (r : Reader F) (fragment : Bytes) → Progresses (refill file c r fragment)
  unfolding refill
  refill-Progresses r fragment =
      search
        (Progresses-if, Progresses-gives, Progresses-again_eof, Progresses-again_full, full_block)

  round-Progresses :
      (r : Reader F) (fragment : Bytes) → Progresses (physical_round file c r fragment)
  unfolding physical_round
  round-Progresses r fragment =
      Progresses-if _ _ _ (λ _. refill-Progresses r fragment)
        (λ _. Gives-Progresses _ (parse_header-Gives r fragment))

  -- One of the two is all that the loop waits for.
  round-Gives :
      (r : Reader F) (fragment : Bytes) → Ready r → Gives (physical_round file c r fragment)
  unfolding physical_round
  round-Gives r fragment (inl known) =
      Gives-if _ _ _ (refill-Gives r fragment known) (parse_header-Gives r fragment)
  round-Gives r fragment (inr some_header) =
      rw (ltb-false some_header) (parse_header-Gives r fragment)

  Round-cases :
      (x : Round F)
      → ((r : Reader F) × (x ≡ again r))
        ⊎ ((r : Reader F) × (t : ℕ) × (fragment : Bytes) × (x ≡ gives r t fragment))
  Round-cases (again r) = inl (r, refl)
  Round-cases (gives r t fragment) = inr (r, t, fragment, refl)

  pub loop_gives :
      (fuel t : ℕ) (scratch fragment : Bytes) (r r' : Reader F)
      → physical_round file c r scratch ≡ gives r' t fragment
      → read_physical_loop file c (suc fuel) r scratch ≡ some (r', t, fragment)
  unfolding read_physical_loop
  loop_gives fuel t scratch fragment r r' e = rw (read_physical_loop, e) refl

  pub loop_again :
      (fuel : ℕ) (scratch : Bytes) (r r' : Reader F)
      → physical_round file c r scratch ≡ again r'
      → read_physical_loop file c (suc fuel) r scratch ≡ read_physical_loop file c fuel r' scratch
  unfolding read_physical_loop
  loop_again fuel scratch r r' e = rw (read_physical_loop, e) refl

  loop-Ready :
      (fuel : ℕ) (r : Reader F) (fragment : Bytes)
      → Ready r
      → read_physical_loop file c (suc fuel) r fragment ≢ none
  unfolding Gives
  loop-Ready fuel r fragment ready e = elim (Round-cases (physical_round file c r fragment)) [
    | inl (r', more) ↦ rw more at (round-Gives r fragment ready)
    | inr (r', t, fragment', given) ↦ cc (e, loop_gives fuel t fragment fragment' r r' given)
  ]

  -- ReadPhysicalRecord ends on every file, whatever its reads give, and every state of the reader:
  -- its loop never runs out of the fuel of three rounds.
  pub read_physical_record_total :
      (r : Reader F) (fragment : Bytes) → read_physical_record file c r fragment ≢ none
  unfolding read_physical_record Progresses
  read_physical_record_total r fragment e = elim (Round-cases (physical_round file c r fragment)) [
    | inl (r', more) ↦
        let ready : Ready r' = rw more at (round-Progresses r fragment) in
        loop-Ready 1 r' fragment ready (sym (loop_again 2 fragment r r' more) ∙ e)
    | inr (r', t, fragment', given) ↦ cc (e, loop_gives 2 t fragment fragment' r r' given)
  ]
