-- ===== src/Arena/Disjointness.antt =====
-- The pieces that an arena hands out do not overlap.
use leveldb_mcpe_dotnet.Common.{
  ℕ, ◌+◌, ◌%◌, ◌^◌, ◌≤◌, List, [], ◌∷◌, All, ltb, leb, ◌≡◌, inl, inr, refl, Bool-cases, arith,
}
use leveldb_mcpe_dotnet.Common.Bits.{bit_and_7}
use leveldb_mcpe_dotnet.Arena.{
  Arena, new_arena, allocate_new_block, fresh_block, allocate_fallback, take_bytes, allocate,
  slop_of, allocate_aligned,
}
use leveldb_mcpe_dotnet.Arena.Pieces.{
  IsAllocator, IsSound, After, After-eq, take-IsSound, own-IsSound, fresh-IsSound,
}
use leveldb_mcpe_dotnet.Arena.Ranges.{Range, InSome, Apart}

pub data Op : Type 0 where
  allocate_op allocate_aligned_op : ℕ → Op

abbrev pub bytes_of : Op → ℕ
bytes_of (Op.allocate_op n) = n
bytes_of (Op.allocate_aligned_op n) = n

-- Sizes for which `bytes + slop` does not wrap around; the header does not allow 0.
abbrev pub Fits : Op → Type 0
Fits op = (1 ≤ bytes_of op) × (bytes_of op + 8 ≤ 2 ^ 64)

slop_of-le : (p : ℕ) → slop_of p ≤ 7
unfolding slop_of
slop_of-le p = ground arith

slop_of-aligned : (p : ℕ) → (p + slop_of p) % 8 ≡ 0
unfolding slop_of
slop_of-aligned p = ground (arith, bit_and_7 p)

module _ (new_chars : List Range → ℕ → ℕ) where
  abbrev pub step : Arena → Op → Arena × ℕ
  step a (Op.allocate_op n) = allocate new_chars a n
  step a (Op.allocate_aligned_op n) = allocate_aligned new_chars a n

  -- The arena, and the pieces that were handed out, the newest first.
  unfoldable pub run : Arena → List Range → List Op → Arena × List Range
  run a used [] = (a, used)
  run a used (op ∷ ops) = let (a', result) = step a op in run a' ((result, bytes_of op) ∷ used) ops

  module _ (law : IsAllocator new_chars) where
    fallback-IsSound :
        (a : Arena) (used : List Range) (n : ℕ)
        → IsSound a used
        → After used n (allocate_fallback new_chars a n)
    unfolding allocate_fallback
    fallback-IsSound a used n sound = elim (Bool-cases (ltb 1024 n)) [
      | inl large ↦
          After-eq used n (allocate_fallback new_chars a n) (allocate_new_block new_chars a n)
            (rw (allocate_fallback, large) refl) (own-IsSound new_chars law a used n sound)
      | inr small ↦
          After-eq used n (allocate_fallback new_chars a n) (fresh_block new_chars a n)
            (rw (allocate_fallback, small) refl)
            (fresh-IsSound new_chars law a used n (ground arith) sound)
    ]

    step-IsSound :
        (op : Op) (a : Arena) (used : List Range)
        → Fits op
        → IsSound a used
        → After used (bytes_of op) (step a op)
    unfolding allocate allocate_aligned
    step-IsSound (Op.allocate_op n) a used h sound =
        elim (Bool-cases (leb n a.alloc_bytes_remaining)) [
          | inl fits ↦
              After-eq used n (allocate new_chars a n) (take_bytes a 0 n) (rw (allocate, fits) refl)
                (take-IsSound new_chars law a used 0 n n sound h.0 (omega arith) (ground arith))
          | inr more ↦
              After-eq used n (allocate new_chars a n) (allocate_fallback new_chars a n)
                (rw (allocate, more) refl) (fallback-IsSound a used n sound)
        ]
    step-IsSound (Op.allocate_aligned_op n) a used h sound =
        let needed = (n + slop_of a.alloc_ptr) % 2 ^ 64 in
        let no_wrap : needed ≡ n + slop_of a.alloc_ptr = omega (arith, slop_of-le a.alloc_ptr) in
        elim (Bool-cases (leb needed a.alloc_bytes_remaining)) [
          | inl fits ↦
              After-eq used n (allocate_aligned new_chars a n)
                (take_bytes a (slop_of a.alloc_ptr) needed) (rw (allocate_aligned, fits) refl)
                (take-IsSound new_chars law a used (slop_of a.alloc_ptr) n needed sound h.0 no_wrap
                  (ground arith))
          | inr more ↦
              After-eq used n (allocate_aligned new_chars a n) (allocate_fallback new_chars a n)
                (rw (allocate_aligned, more) refl) (fallback-IsSound a used n sound)
        ]

    run-IsSound :
        (ops : List Op) (a : Arena) (used : List Range)
        → All Fits ops
        → IsSound a used
        → IsSound (run a used ops).0 (run a used ops).1
    unfolding run
    run-IsSound [] a used h sound = sound
    run-IsSound (op ∷ ops) a used h sound =
        run-IsSound ops (step a op).0 (((step a op).1, bytes_of op) ∷ used) h.1
          (step-IsSound op a used h.0 sound)

-- Over an allocator whose blocks are apart from those that there are, the pieces that a new arena
-- hands out for any calls of Allocate and AllocateAligned, of one byte at least and of at most
-- 2^64 - 8, do not overlap, and each lies inside one of the blocks of the arena.
pub run-Apart :
    (new_chars : List Range → ℕ → ℕ)
    → IsAllocator new_chars
    → (ops : List Op) → All Fits ops
    → Apart (run new_chars new_arena [] ops).1
      × All (InSome (run new_chars new_arena [] ops).0.blocks) (run new_chars new_arena [] ops).1
unfolding new_arena
run-Apart new_chars law ops h =
    let sound = run-IsSound new_chars law ops new_arena [] h (inl refl, tt, tt) in
    (sound.2, sound.1)

-- An aligned piece begins at a multiple of eight.
pub allocate_aligned-aligned :
    (new_chars : List Range → ℕ → ℕ)
    → IsAllocator new_chars
    → (a : Arena) (n : ℕ) → n + 8 ≤ 2 ^ 64
    → (allocate_aligned new_chars a n).1 % 8 ≡ 0
unfolding allocate_aligned allocate_fallback allocate_new_block fresh_block
allocate_aligned-aligned new_chars law a n h =
    let needed = (n + slop_of a.alloc_ptr) % 2 ^ 64 in
    elim (Bool-cases (leb needed a.alloc_bytes_remaining)) [
      | inl fits ↦ rw (allocate_aligned, fits) (slop_of-aligned a.alloc_ptr)
      | inr more ↦ elim (Bool-cases (ltb 1024 n)) [
        | inl large ↦ rw (allocate_aligned, more, allocate_fallback, large) (law.aligned a.blocks n)
        | inr small ↦
            rw (allocate_aligned, more, allocate_fallback, small) (law.aligned a.blocks 4096)
      ]
    ]
