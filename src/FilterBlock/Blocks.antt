-- ===== src/FilterBlock/Blocks.antt =====
-- The calls `(StartBlock AddKey*)*` of a table, and in which group each key ends up.
use leveldb_mcpe_dotnet.Common.{
  ℕ, zero, suc, ◌+◌, ◌-◌, ◌/◌, ◌≤◌, true, List, [], ◌∷◌, ◌++◌, append_assoc, length, get_or, ltb,
  ltb-true, All, ◌≡◌, refl, arith, length-append, get_or-append_left,
}
use leveldb_mcpe_dotnet.Common.Bytes.{Bytes}
use mathlib.Core.Path.{subst}
use native.Mathlib.Decide.{dec_lt}
use leveldb_mcpe_dotnet.FilterPolicy.{FilterPolicy, IsFilterPolicy}
use leveldb_mcpe_dotnet.FilterBlock.{
  filter_base, FilterBlockBuilder, generate_filter, generate_until, start_block, add_key,
}
use leveldb_mcpe_dotnet.FilterBlock.Builder.{
  Group, Holds, add_key-Holds, generate_filter-Holds, length-offsets,
}

-- The offset of a data block, and its keys.
abbrev pub DataBlock : Type 0
DataBlock = ℕ × List Bytes

abbrev pub add_keys : FilterBlockBuilder → List Bytes → FilterBlockBuilder
add_keys b [] = b
add_keys b (key ∷ keys) = add_keys (add_key b key) keys

unfoldable pub add_blocks : FilterPolicy → FilterBlockBuilder → List DataBlock → FilterBlockBuilder
add_blocks policy b [] = b
add_blocks policy b (block ∷ blocks) =
    add_blocks policy (add_keys (start_block policy b block.0) block.1) blocks

-- The offsets do not fall, which `StartBlock` asserts.
abbrev pub InOrder : ℕ → List DataBlock → Type 0
InOrder index [] = Unit {0}
InOrder index (block ∷ blocks) =
    (index ≤ block.0 / filter_base) × InOrder (block.0 / filter_base) blocks

abbrev pub Has : Group → Bytes → Type 0
Has g key = (before : Group) × (after : Group) × (g ≡ before ++ (key ∷ after))

-- The groups with the one at hand as the last.
abbrev pub group_at : List Group → Group → ℕ → Group
group_at gs g i = get_or (gs ++ (g ∷ [])) i []

pub record Grows (gs : List Group) (g : Group) (gs' : List Group) (g' : Group) : Type 0 where
  pub longer : length gs ≤ length gs'
  pub keeps :
      (i : ℕ) (key : Bytes)
      → i ≤ length gs
      → Has (group_at gs g i) key
      → Has (group_at gs' g' i) key

Grows-refl : (gs : List Group) (g : Group) → Grows gs g gs g
Grows-refl gs g = record { longer = omega arith; keeps = λ i key hi has. has }

Grows-trans :
    (gs gs' gs'' : List Group) (g g' g'' : Group)
    → Grows gs g gs' g'
    → Grows gs' g' gs'' g''
    → Grows gs g gs'' g''
Grows-trans gs gs' gs'' g g' g'' h k = record {
  longer = omega (arith, h.longer, k.longer);
  keeps = λ i key hi has. k.keeps i key (omega (arith, h.longer)) (h.keeps i key hi has);
}

Grows-close : (gs : List Group) (g : Group) → Grows gs g (gs ++ (g ∷ [])) []
Grows-close gs g =
    let n = length-append gs (g ∷ []) in
    record {
      longer = omega (arith, n);
      keeps = λ i key hi has.
          rw (get_or-append_left (gs ++ (g ∷ [])) ([] ∷ []) i [] (omega (arith, n))) has;
    }

pub at_hand : (gs : List Group) (g : Group) → group_at gs g (length gs) ≡ g
at_hand [] g = refl
at_hand (h ∷ gs) g = at_hand gs g

Has-snoc : (g : Group) (key k : Bytes) → Has g k → Has (g ++ (key ∷ [])) k
Has-snoc g key k (before, after, e) =
    (before, after ++ (key ∷ []), rw e (append_assoc before (k ∷ after) (key ∷ [])))

Grows-add : (gs : List Group) (g : Group) (key : Bytes) → Grows gs g gs (g ++ (key ∷ []))
Grows-add gs g key = record {
  longer = omega arith;
  keeps = λ i k hi has. elim (dec_lt i (length gs)) [
    | yes lower ↦
        rw (get_or-append_left gs ((g ++ (key ∷ [])) ∷ []) i [] lower)
          (rw (get_or-append_left gs (g ∷ []) i [] lower) at has)
    | no later ↦
        let e : i ≡ length gs = omega arith in
        rw (e, at_hand gs (g ++ (key ∷ []))) (Has-snoc g key k (rw (e, at_hand gs g) at has))
  ];
}

-- What holds after some calls, from what held before them.
pub record After (policy : FilterPolicy) (law : IsFilterPolicy policy) (gs : List Group) (g : Group)
    (b : FilterBlockBuilder) : Type 0 where
  pub groups : List Group
  pub open_ : Group
  pub holds : Holds policy law groups open_ b
  pub grows : Grows gs g groups open_

module _ (policy : FilterPolicy) (law : IsFilterPolicy policy) where
  generate_until-After :
      (fuel index : ℕ) (gs : List Group) (g : Group) (b : FilterBlockBuilder)
      → Holds policy law gs g b
      → fuel + length gs ≡ index
      → (a : After policy law gs g (generate_until policy fuel index b)) × (length a.groups ≡ index)
  unfolding generate_until
  generate_until-After zero index gs g b h e =
      (record { groups = gs; open_ = g; holds = h; grows = Grows-refl gs g }, omega arith)
  generate_until-After (suc fuel) index gs g b h e =
      let n = length-append gs (g ∷ []) in
      let (a, filled) =
        generate_until-After fuel index (gs ++ (g ∷ [])) [] (generate_filter policy b)
          (generate_filter-Holds policy law gs g b h) (omega (arith, n)) in
      let missing : ltb (length b.filter_offsets) index ≡ true =
        rw h.offsets_of (ltb-true (omega (arith, length-offsets policy law 0 gs))) in
      (
        record {
          groups = a.groups;
          open_ = a.open_;
          holds = rw missing a.holds;
          grows = Grows-trans gs (gs ++ (g ∷ [])) a.groups g [] a.open_ (Grows-close gs g) a.grows;
        },
        filled,
      )

  -- `StartBlock` makes the group of the block the one at hand.
  start_block-After :
      (block_offset : ℕ) (gs : List Group) (g : Group) (b : FilterBlockBuilder)
      → Holds policy law gs g b
      → length gs ≤ block_offset / filter_base
      → (a : After policy law gs g (start_block policy b block_offset)) × (length a.groups
          ≡ block_offset / filter_base)
  unfolding start_block
  start_block-After block_offset gs g b h hn =
      generate_until-After (block_offset / filter_base - length b.filter_offsets)
        (block_offset / filter_base) gs g b h
        (rw h.offsets_of (omega (arith, length-offsets policy law 0 gs)))

  -- The keys that are added are all in the group at hand.
  add_keys-After :
      (keys : List Bytes) (gs : List Group) (g : Group) (b : FilterBlockBuilder)
      → Holds policy law gs g b
      → (g' : Group) × Holds policy law gs g' (add_keys b keys)
        × Grows gs g gs g'
        × All (Has g') keys
  add_keys-After [] gs g b h = (g, h, Grows-refl gs g, tt)
  add_keys-After (key ∷ keys) gs g b h =
      let next = g ++ (key ∷ []) in
      let (g', holds, grows, all) =
        add_keys-After keys gs next (add_key b key) (add_key-Holds policy law gs g b key h) in
      let own = grows.keeps (length gs) key (omega arith) (rw (at_hand gs next) (g, [], refl)) in
      (
        g',
        holds,
        Grows-trans gs gs gs g next g' (Grows-add gs g key) grows,
        (rw (at_hand gs g') at own, all),
      )

  abbrev pub Covered : List Group → Group → DataBlock → Type 0
  Covered gs g block =
      (block.0 / filter_base ≤ length gs)
      × All (Has (group_at gs g (block.0 / filter_base))) block.1

  Covered-Grows :
      (gs : List Group) (g : Group) (gs' : List Group) (g' : Group) (i : ℕ) (keys : List Bytes)
      → Grows gs g gs' g'
      → i ≤ length gs
      → All (Has (group_at gs g i)) keys
      → All (Has (group_at gs' g' i)) keys
  Covered-Grows gs g gs' g' i [] grows hi all = tt
  Covered-Grows gs g gs' g' i (key ∷ keys) grows hi all =
      (grows.keeps i key hi all.0, Covered-Grows gs g gs' g' i keys grows hi all.1)

  pub add_blocks-After :
      (blocks : List DataBlock) (index : ℕ) (gs : List Group) (g : Group) (b : FilterBlockBuilder)
      → Holds policy law gs g b
      → length gs ≤ index
      → InOrder index blocks
      → (a : After policy law gs g (add_blocks policy b blocks)) × All
          (Covered a.groups a.open_)
          blocks
  unfolding add_blocks
  add_blocks-After [] index gs g b h hn ordered =
      (record { groups = gs; open_ = g; holds = h; grows = Grows-refl gs g }, tt)
  add_blocks-After (block ∷ blocks) index gs g b h hn ordered =
      let at_block = block.0 / filter_base in
      let (s, here) = start_block-After block.0 gs g b h (omega (arith, ordered.0)) in
      let (g', holds, grows, all) =
        add_keys-After block.1 s.groups s.open_ (start_block policy b block.0) s.holds in
      let (a, covered) =
        add_blocks-After blocks at_block s.groups g'
          (add_keys (start_block policy b block.0) block.1) holds (omega (arith, here)) ordered.1 in
      let own : All (Has (group_at s.groups g' at_block)) block.1 =
        subst (λ i. All (Has (group_at s.groups g' i)) block.1) here
          (rw (at_hand s.groups g') all) in
      (
        record {
          groups = a.groups;
          open_ = a.open_;
          holds = a.holds;
          grows =
              Grows-trans gs s.groups a.groups g s.open_ a.open_ s.grows
                (Grows-trans s.groups s.groups a.groups s.open_ g' a.open_ grows a.grows);
        },
        (
          (
            omega (arith, here, grows.longer, a.grows.longer),
            Covered-Grows s.groups g' a.groups a.open_ at_block block.1 a.grows
                (omega (arith, here)) own,
          ),
          covered,
        ),
      )
