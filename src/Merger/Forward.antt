-- ===== src/Merger/Forward.antt =====
-- A pass forward over the merging iterator gives the entries of all the children in order.
use leveldb_mcpe_dotnet.Common.{
  ℕ, zero, suc, ◌+◌, ◌≤◌, Bool, true, false, Option, none, some, List, [], ◌∷◌, ◌++◌, length,
  get_elem?, All, ◌≡◌, inl, inr, refl, sym, ◌∙◌, ap, arith,
}
use leveldb_mcpe_dotnet.Common.Bytes.{Bytes}
use mathlib.Core.List.{map, Perm}
use mathlib.Core.List.Perm
use mathlib.Core.Path.{subst}
use leveldb_mcpe_dotnet.Comparator.{Comparator, IsComparator}
use leveldb_mcpe_dotnet.Iterator.{Iterator, Entry, Cursor, is_at, onward}
use leveldb_mcpe_dotnet.Merger.{
  MergingIterator, Direction, smallest_loop, smaller, index_of, modify_at, find_smallest, valid,
  current_child, key, value, next, seek_to_first,
}
use leveldb_mcpe_dotnet.Merger.Pass.{IsChildren, merged_pass}
use leveldb_mcpe_dotnet.Merger.Popped.{concat-Perm, length-concat, Ascending-pop, All-pop}
use leveldb_mcpe_dotnet.Merger.Pick.{
  concat, NotBelow, pick, HeadsAbove, Picked, pick-Picked, Ascending, HeadsAbove-All,
}

module _ {ℓ} {S : Type ℓ} (it : Iterator S) (cmp : Comparator) (law : IsComparator cmp)
    {source : S → List Entry} {place : S → Cursor} (children_law : IsChildren it source place) where
  -- Each child stands at the first of its remaining entries.
  abbrev At : List S → List (List Entry) → Type 0
  At [] [] = Unit {0}
  At (s ∷ ss) (l ∷ ls) = ((before : List Entry) × (place s ≡ onward before l)) × At ss ls
  At _ _ = Path Bool true false

  loop-pick :
      (ss : List S) (ls : List (List Entry)) (i : ℕ) (best : Option (ℕ × Bytes))
      → At ss ls
      → smallest_loop it cmp ss i best ≡ pick cmp law ls i best
  unfolding smallest_loop pick
  loop-pick [] [] i best h = refl
  loop-pick [] (l ∷ ls) i best h = absurd (cc h)
  loop-pick (s ∷ ss) [] i best h = absurd (cc h)
  loop-pick (s ∷ ss) ([] ∷ ls) i best ((before, at), h) =
      let ended : it.valid s ≡ false = children_law.valid_at s ∙ ap is_at at in
      rw ended (loop-pick ss ls (i + 1) best h)
  loop-pick (s ∷ ss) ((e ∷ l) ∷ ls) i best ((before, at), h) =
      let here : it.valid s ≡ true = children_law.valid_at s ∙ ap is_at at in
      rw (here, children_law.key_at s before e l at)
        (loop-pick ss ls (i + 1) (smaller cmp i e.0 best) h)

  child-At :
      (ss : List S) (front : List (List Entry)) (e : Entry) (tail : List Entry)
      (back : List (List Entry))
      → At ss (front ++ ((e ∷ tail) ∷ back))
      → (s : S) × (get_elem? ss (length front) ≡ some s)
        × (it.key s ≡ e.0)
        × (it.value s ≡ e.1)
        × At (modify_at it.next (length front) ss) (front ++ (tail ∷ back))
  unfolding modify_at
  child-At [] [] e tail back h = absurd (cc h)
  child-At [] (f ∷ front) e tail back h = absurd (cc h)
  child-At (s ∷ ss) [] e tail back ((before, at), h) = (
    s,
    refl,
    children_law.key_at s before e tail at,
    children_law.value_at s before e tail at,
    ((e ∷ before, children_law.next_at s before e tail at), h),
  )
  child-At (s ∷ ss) (f ∷ front) e tail back (here, h) =
      let (c, found, is_key, is_value, more) = child-At ss front e tail back h in
      (c, found, is_key, is_value, (here, more))

  abbrev standing : List S → Option (ℕ × Bytes) → MergingIterator S
  standing ss best = record {
    children = ss;
    current = index_of best;
    direction = Direction.forward;
  }

  -- What a pass gives: the entries that remain, in order.
  abbrev Merged : List (List Entry) → List Entry → Type 0
  Merged ls out =
      Perm out (concat ls)
      × Ascending cmp law out
      × ((k : Bytes)
          → All (λ (f : Entry). NotBelow cmp law k f.0) (concat ls)
          → All (λ (f : Entry). NotBelow cmp law k f.0) out)

  abbrev Passes : ℕ → List S → List (List Entry) → Option (ℕ × Bytes) → Type 0
  Passes limit ss ls best =
      (out : List Entry) × (merged_pass it cmp limit (standing ss best) ≡ some out) × Merged ls out

  pass-ended :
      (limit : ℕ) (ss : List S) (ls : List (List Entry))
      → concat ls ≡ []
      → Passes (suc limit) ss ls none
  unfolding merged_pass valid
  pass-ended limit ss ls empty = ([], refl, (rw empty Perm.rfl, tt, λ k h. tt))

  pass-step :
      (limit : ℕ) (ss : List S) (front : List (List Entry)) (e : Entry) (tail : List Entry)
      (back : List (List Entry)) (k : Bytes)
      → At ss (front ++ ((e ∷ tail) ∷ back))
      → All (λ (f : Entry). NotBelow cmp law e.0 f.0) (concat (front ++ ((e ∷ tail) ∷ back)))
      → Passes limit
          (modify_at it.next (length front) ss)
          (front ++ (tail ∷ back))
          (pick cmp law (front ++ (tail ∷ back)) 0 none)
      → Passes (suc limit) ss (front ++ ((e ∷ tail) ∷ back)) (some (length front, k))
  unfolding merged_pass valid next find_smallest key value current_child
  pass-step limit ss front e tail back k at above (out, passed, merged) =
      let ls = front ++ ((e ∷ tail) ∷ back) in
      let ls' = front ++ (tail ∷ back) in
      let ss' = modify_at it.next (length front) ss in
      let (c, found, is_key, is_value, at') = child-At ss front e tail back at in
      let m = standing ss (some (length front, k)) in
      let moved : next it cmp m ≡ standing ss' (pick cmp law ls' 0 none) =
        ap (λ b. standing ss' b) (loop-pick ss' ls' 0 none at') in
      let key_e : key it cmp m ≡ e.0 = rw (key, found) is_key in
      let value_e : value it cmp m ≡ e.1 = rw (value, found) is_value in
      let (perm, sorted, bound) = merged in
      (
        e ∷ out,
        rw (merged_pass, moved, passed, key_e, value_e) refl,
        (
          Perm.trans (Perm.cons e perm) (concat-Perm front e tail back),
          (
            bound e.0 (All-pop (λ (f : Entry). NotBelow cmp law e.0 f.0) front e tail back above).1,
            sorted,
          ),
          λ k' h.
              let popped = All-pop (λ (f : Entry). NotBelow cmp law k' f.0) front e tail back h in
              (popped.0, bound k' popped.1),
        ),
      )

  -- A pass from a picked child, given passes over one entry less.
  pass-case :
      (n : ℕ) (ss : List S) (ls : List (List Entry)) (best : Option (ℕ × Bytes))
      → At ss ls
      → All (Ascending cmp law) ls
      → length (concat ls) ≤ n
      → ((ss' : List S) (ls' : List (List Entry)) (n' : ℕ)
          → n ≡ suc n'
          → At ss' ls'
          → All (Ascending cmp law) ls'
          → length (concat ls') ≤ n'
          → Passes n ss' ls' (pick cmp law ls' 0 none))
      → Picked cmp law ls 0 none best
      → Passes (suc n) ss ls best
  pass-case n ss ls none at sorted fuel rest (same, empty) = pass-ended n ss ls empty
  pass-case n ss ls (some (j, k)) at sorted fuel rest (heads, above, inl bad) = absurd (cc bad)
  pass-case zero ss ls (some (j, k)) at sorted fuel rest
        (heads, above, inr (front, e, tail, back, same, at_j, is_key)) =
      absurd (omega (arith, ap (λ x. length (concat x)) same, length-concat front e tail back))
  pass-case (suc n) ss ls (some (j, k)) at sorted fuel rest
        (heads, above, inr (front, e, tail, back, same, at_j, is_key)) =
      let ls' = front ++ (tail ∷ back) in
      let index : j ≡ length front = omega (arith, at_j) in
      let at' = subst (At ss) same at in
      let sorted' = subst (All (Ascending cmp law)) same sorted in
      let heads' = subst (λ x. HeadsAbove cmp law k x) same heads in
      let bound =
        subst
          (λ x. All (λ (f : Entry). NotBelow cmp law x f.0) (concat (front ++ ((e ∷ tail) ∷ back))))
          (sym is_key) (HeadsAbove-All cmp law k (front ++ ((e ∷ tail) ∷ back)) heads' sorted') in
      let (c, found, is_k, is_v, at_next) = child-At ss front e tail back at' in
      let less : length (concat ls') ≤ n =
        omega (arith, ap (λ x. length (concat x)) same, length-concat front e tail back) in
      let passes =
        rest (modify_at it.next (length front) ss) ls' n refl at_next
          (Ascending-pop cmp law front e tail back sorted') less in
      rw (same, index) (pass-step (suc n) ss front e tail back k at' bound passes)

  pass-Merged :
      (n : ℕ) (ss : List S) (ls : List (List Entry))
      → At ss ls
      → All (Ascending cmp law) ls
      → length (concat ls) ≤ n
      → Passes (suc n) ss ls (pick cmp law ls 0 none)
  pass-Merged zero ss ls at sorted fuel =
      pass-case zero ss ls (pick cmp law ls 0 none) at sorted fuel
        (λ ss' ls' n' bad. absurd (omega (arith, bad))) (pick-Picked cmp law ls 0 none)
  pass-Merged (suc n) ss ls at sorted fuel =
      pass-case (suc n) ss ls (pick cmp law ls 0 none) at sorted fuel
        (λ ss' ls' n' same at' sorted' less.
          pass-Merged n ss' ls' at' sorted' (omega (arith, same)))
        (pick-Picked cmp law ls 0 none)

  first-At : (ss : List S) → At (map it.seek_to_first ss) (map source ss)
  first-At [] = tt
  first-At (s ∷ ss) = (([], children_law.first_at s), first-At ss)

  -- Over a comparator that keeps its contract and any number of children, each of which walks over
  -- a list of entries in which no key is below one in front of it, SeekToFirst, and Next until the
  -- merging iterator is not valid, which it is after as many steps as there are entries, give the
  -- entries of all the children, each as often as they have it, in an order in which no key is
  -- below one in front of it.
  pub seek_to_first-merged_pass :
      (m : MergingIterator S)
      → All (Ascending cmp law) (map source m.children)
      → (out : List Entry) × (merged_pass it cmp
            (suc (length (concat (map source m.children))))
            (seek_to_first it cmp m)
          ≡ some out)
        × Perm out (concat (map source m.children))
        × Ascending cmp law out
  unfolding seek_to_first find_smallest
  seek_to_first-merged_pass m sorted =
      let ss = map it.seek_to_first m.children in
      let ls = map source m.children in
      let start : seek_to_first it cmp m ≡ standing ss (pick cmp law ls 0 none) =
        ap (λ b. standing ss b) (loop-pick ss ls 0 none (first-At m.children)) in
      let (out, passed, merged) =
        pass-Merged (length (concat ls)) ss ls (first-At m.children) sorted (omega arith) in
      (out, ap (merged_pass it cmp (suc (length (concat ls)))) start ∙ passed, merged.0, merged.1)
