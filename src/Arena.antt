-- ===== src/Arena.antt =====
-- util/arena.h and util/arena.cc: the allocator of the memtable, which cuts pieces from blocks.
-- Addresses are numbers, and a block is its address and its size.
pub mod Ranges
pub mod Pieces
pub mod Disjointness
mod Tests
use leveldb_mcpe_dotnet.Common.{
  ℕ, zero, ◌+◌, ◌-◌, ◌/◌, ◌%◌, ◌^◌, bit_and, Bool, List, [], ◌∷◌, ◌++◌, ltb, leb, ◌==◌,
  if◌then◌else◌,
}

abbrev pub block_bytes : ℕ
block_bytes = 4096

pub record Arena : Type 0 where
  pub alloc_ptr : ℕ
  pub alloc_bytes_remaining : ℕ
  pub blocks : List (ℕ × ℕ)
  pub memory_usage : ℕ

unfoldable pub new_arena : Arena
new_arena = record { alloc_ptr = 0; alloc_bytes_remaining = 0; blocks = []; memory_usage = 0 }

-- Takes `needed` bytes, and gives the address behind the first `skip` of them.
abbrev pub take_bytes : Arena → ℕ → ℕ → Arena × ℕ
take_bytes a skip needed = (
  record a {
    alloc_ptr = a.alloc_ptr + needed;
    alloc_bytes_remaining = a.alloc_bytes_remaining - needed;
  },
  a.alloc_ptr + skip,
)

unfoldable pub slop_of : ℕ → ℕ
slop_of alloc_ptr =
    let current_mod = bit_and alloc_ptr 7 in if current_mod == 0 then 0 else 8 - current_mod

-- `new char[n]`: the address of a block of `n` bytes, beside the blocks that there are.
module _ (new_chars : List (ℕ × ℕ) → ℕ → ℕ) where
  unfoldable pub allocate_new_block : Arena → ℕ → Arena × ℕ
  allocate_new_block a n =
      let result = new_chars a.blocks n in
      (
        record a {
          blocks = a.blocks ++ ((result, n) ∷ []);
          memory_usage = (a.memory_usage + n + 8) % 2 ^ 64;
        },
        result,
      )

  -- A new block becomes the current one.
  unfoldable pub fresh_block : Arena → ℕ → Arena × ℕ
  unfolding allocate_new_block
  fresh_block a n =
      let (a1, result) = allocate_new_block a block_bytes in
      (record a1 { alloc_ptr = result + n; alloc_bytes_remaining = block_bytes - n }, result)

  unfoldable pub allocate_fallback : Arena → ℕ → Arena × ℕ
  unfolding allocate_new_block fresh_block
  allocate_fallback a n =
      if ltb (block_bytes / 4) n then allocate_new_block a n else fresh_block a n

  unfoldable pub allocate : Arena → ℕ → Arena × ℕ
  unfolding allocate_fallback
  allocate a n = if leb n a.alloc_bytes_remaining then take_bytes a 0 n else allocate_fallback a n

  -- `bytes + slop` is a `size_t`.
  unfoldable pub allocate_aligned : Arena → ℕ → Arena × ℕ
  unfolding allocate_fallback slop_of
  allocate_aligned a n =
      let slop = slop_of a.alloc_ptr in
      let needed = (n + slop) % 2 ^ 64 in
      if leb needed a.alloc_bytes_remaining then take_bytes a slop needed else allocate_fallback a n
