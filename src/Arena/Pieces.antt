-- ===== src/Arena/Pieces.antt =====
-- One piece more: from the current block, from a block of its own, and from a fresh one.
use leveldb_mcpe_dotnet.Common.{
  ℕ, ◌+◌, ◌-◌, ◌%◌, ◌≤◌, List, [], ◌∷◌, ◌++◌, All, ◌≡◌, ◌⊎◌, inl, inr, sym, arith,
}
use mathlib.Core.Path.{subst}
use leveldb_mcpe_dotnet.Arena.{Arena, allocate_new_block, fresh_block, take_bytes}
use leveldb_mcpe_dotnet.Arena.Ranges.{
  Range, Disjoint, Inside, InSome, Apart, All-Disjoint-sub, Disjoint-swap, InSome-sub, InSome-more,
  InSome-last, All-InSome-more, All-Disjoint-InSome, Disjoint-InSome,
}

-- `new char[n]`: a block apart from those that there are, at an address that is a multiple of eight.
pub record IsAllocator (new_chars : List Range → ℕ → ℕ) : Type 0 where
  pub apart : (blocks : List Range) (n : ℕ) → All (Disjoint (new_chars blocks n, n)) blocks
  pub aligned : (blocks : List Range) (n : ℕ) → new_chars blocks n % 8 ≡ 0

-- The rest of the current block is inside it and apart from all that was handed out; and so are
-- the pieces that were.
abbrev pub IsSound : Arena → List Range → Type 0
IsSound a used =
    ((a.alloc_bytes_remaining ≡ 0)
      ⊎ (InSome a.blocks (a.alloc_ptr, a.alloc_bytes_remaining)
          × All (Disjoint (a.alloc_ptr, a.alloc_bytes_remaining)) used))
    × All (InSome a.blocks) used
    × Apart used

-- After a step that gave `n` bytes.
abbrev pub After : List Range → ℕ → Arena × ℕ → Type 0
After used n p = IsSound p.0 ((p.1, n) ∷ used)

pub After-eq :
    (used : List Range) (n : ℕ) (p q : Arena × ℕ) → p ≡ q → After used n q → After used n p
After-eq used n p q e h = subst (After used n) (sym e) h

module _ (new_chars : List Range → ℕ → ℕ) (law : IsAllocator new_chars) where
  pub take-IsSound :
      (a : Arena) (used : List Range) (skip n needed : ℕ)
      → IsSound a used
      → 1 ≤ n
      → needed ≡ n + skip
      → needed ≤ a.alloc_bytes_remaining
      → IsSound (take_bytes a skip needed).0 (((take_bytes a skip needed).1, n) ∷ used)
  take-IsSound a used skip n needed (inl none_left, inside, apart) some_bytes e fits =
      absurd (omega arith)
  take-IsSound a used skip n needed (inr (region, free), inside, apart) some_bytes e fits =
      let whole : Range = (a.alloc_ptr, a.alloc_bytes_remaining) in
      let piece : Range = (a.alloc_ptr + skip, n) in
      let left : Range = (a.alloc_ptr + needed, a.alloc_bytes_remaining - needed) in
      let piece_in : Inside piece whole = (omega arith, omega arith) in
      let left_in : Inside left whole = (omega arith, omega arith) in
      (
        inr (
          InSome-sub a.blocks whole left left_in region,
          (inr (omega arith), All-Disjoint-sub whole left used left_in free),
        ),
        (InSome-sub a.blocks whole piece piece_in region, inside),
        (All-Disjoint-sub whole piece used piece_in free, apart),
      )

  -- A block of its own, which leaves the current one.
  pub own-IsSound :
      (a : Arena) (used : List Range) (n : ℕ)
      → IsSound a used
      → IsSound
          (allocate_new_block new_chars a n).0
          (((allocate_new_block new_chars a n).1, n) ∷ used)
  unfolding allocate_new_block
  own-IsSound a used n (region, inside, apart) =
      let b : Range = (new_chars a.blocks n, n) in
      let free = law.apart a.blocks n in
      let region' : (a.alloc_bytes_remaining ≡ 0)
          ⊎ (InSome (a.blocks ++ (b ∷ [])) (a.alloc_ptr, a.alloc_bytes_remaining)
              × All (Disjoint (a.alloc_ptr, a.alloc_bytes_remaining)) (b ∷ used)) =
        elim region [
          | inl none_left ↦ inl none_left
          | inr (here, others) ↦ inr (
            InSome-more a.blocks b (a.alloc_ptr, a.alloc_bytes_remaining) here,
            (Disjoint-swap b _ (Disjoint-InSome a.blocks b _ free here), others),
          )
        ] in
      (
        region',
        (
          InSome-last a.blocks b b (omega arith, omega arith),
          All-InSome-more a.blocks b used inside,
        ),
        (All-Disjoint-InSome a.blocks b used free inside, apart),
      )

  -- The first piece of a new block, which becomes the current one.
  pub fresh-IsSound :
      (a : Arena) (used : List Range) (n : ℕ)
      → n ≤ 4096
      → IsSound a used
      → IsSound (fresh_block new_chars a n).0 (((fresh_block new_chars a n).1, n) ∷ used)
  unfolding fresh_block allocate_new_block
  fresh-IsSound a used n small (region, inside, apart) =
      let start = new_chars a.blocks 4096 in
      let b : Range = (start, 4096) in
      let piece : Range = (start, n) in
      let left : Range = (start + n, 4096 - n) in
      let free = All-Disjoint-InSome a.blocks b used (law.apart a.blocks 4096) inside in
      let piece_in : Inside piece b = (omega arith, omega arith) in
      let left_in : Inside left b = (omega arith, omega arith) in
      (
        inr (
          InSome-last a.blocks b left left_in,
          (inr (omega arith), All-Disjoint-sub b left used left_in free),
        ),
        (InSome-last a.blocks b piece piece_in, All-InSome-more a.blocks b used inside),
        (All-Disjoint-sub b piece used piece_in free, apart),
      )
