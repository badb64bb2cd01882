-- ===== src/Arena/Tests.antt =====
-- An allocator that puts each block behind the last one, at a multiple of eight.
use leveldb_mcpe_dotnet.Common.{
  ℕ, ◌+◌, ◌*◌, ◌/◌, ◌≤◌, max, List, [], ◌∷◌, All, ◌≡◌, inr, refl, arith,
}
use leveldb_mcpe_dotnet.Arena.{
  new_arena, allocate_aligned, allocate, allocate_fallback, allocate_new_block, fresh_block,
  slop_of,
}
use leveldb_mcpe_dotnet.Arena.Ranges.{Range, Disjoint, Apart, InSome}
use leveldb_mcpe_dotnet.Arena.Pieces.{IsAllocator}
use leveldb_mcpe_dotnet.Arena.Disjointness.{Op, run, run-Apart}

abbrev end_of : List Range → ℕ
end_of [] = 64
end_of (b ∷ bs) = max (b.0 + b.1) (end_of bs)

abbrev behind : List Range → ℕ → ℕ
behind blocks n = (end_of blocks + 7) / 8 * 8

behind-All : (bs : List Range) (a n : ℕ) → end_of bs ≤ a → All (Disjoint (a, n)) bs
behind-All [] a n h = tt
behind-All (b ∷ bs) a n h = (inr (omega arith), behind-All bs a n (omega arith))

behind-IsAllocator : IsAllocator behind
behind-IsAllocator = record {
  apart = λ blocks n. behind-All blocks (behind blocks n) n (omega arith);
  aligned = λ blocks n. omega arith;
}

abbrev ops : List Op
ops =
    Op.allocate_op 100
    ∷ Op.allocate_aligned_op 24
    ∷ Op.allocate_op 5000
    ∷ Op.allocate_op 3000
    ∷ Op.allocate_op 1024
    ∷ []

run-ops :
    (run behind new_arena [] ops).1
    ≡ (9160, 1024) ∷ (192, 3000) ∷ (4160, 5000) ∷ (168, 24) ∷ (64, 100) ∷ []
unfolding run new_arena allocate allocate_aligned allocate_fallback allocate_new_block fresh_block
    slop_of
run-ops = refl

run-Apart_example :
    Apart (run behind new_arena [] ops).1
    × All (InSome (run behind new_arena [] ops).0.blocks) (run behind new_arena [] ops).1
run-Apart_example = run-Apart behind behind-IsAllocator ops (
  (omega arith, omega arith),
  (
    (omega arith, omega arith),
    ((omega arith, omega arith), ((omega arith, omega arith), ((omega arith, omega arith), tt))),
  ),
)
