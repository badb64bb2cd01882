-- ===== src/Merger/Pick.antt =====
-- The smallest of the first entries of several lists.
use leveldb_mcpe_dotnet.Common.{
  ℕ, ◌+◌, true, false, Option, none, some, List, [], ◌∷◌, ◌++◌, length, All, All-append, ◌≡◌, ◌⊎◌,
  ◌≢◌, inl, inr, refl, sym, ◌∙◌, ap, Bool-cases, arith,
}
use leveldb_mcpe_dotnet.Common.Bytes.{Bytes}
use leveldb_mcpe_dotnet.Comparator.{Comparator, IsComparator, is_lt}
use leveldb_mcpe_dotnet.Slice.Order.{swap}
use leveldb_mcpe_dotnet.Iterator.{Entry}
use leveldb_mcpe_dotnet.Merger.{smaller}
use Prim.Native.Nat.{Ordering}

abbrev pub concat : List (List Entry) → List Entry
concat [] = []
concat (l ∷ ls) = l ++ concat ls

-- The list at `j`, counted from `i`, begins with an entry of the key.
abbrev pub Selected : List (List Entry) → ℕ → ℕ → Bytes → Type 0
Selected lists i j key =
    (front : List (List Entry)) × (e : Entry) × (tail : List Entry) × (back : List (List Entry))
    × (lists ≡ front ++ ((e ∷ tail) ∷ back))
    × (j ≡ i + length front)
    × (e.0 ≡ key)

true-ne-false : true ≢ false
true-ne-false e = absurd (cc e)

is_lt-lt : (o : Ordering) → is_lt o ≡ true → o ≡ Ordering.lt
is_lt-lt Ordering.lt e = refl
is_lt-lt Ordering.eq e = absurd (true-ne-false (sym e))
is_lt-lt Ordering.gt e = absurd (true-ne-false (sym e))

not_lt_cases : (o : Ordering) → is_lt o ≡ false → (o ≡ Ordering.eq) ⊎ (o ≡ Ordering.gt)
not_lt_cases Ordering.lt e = absurd (true-ne-false e)
not_lt_cases Ordering.eq e = inl refl
not_lt_cases Ordering.gt e = inr refl

module _ (cmp : Comparator) (law : IsComparator cmp) where
  -- `b` is not below `a`.
  abbrev pub NotBelow : Bytes → Bytes → Type 0
  NotBelow a b = is_lt (cmp.compare b a) ≡ false

  not_self : (key : Bytes) → NotBelow key key
  not_self key = ap is_lt (law.compare_refl key)

  NotBelow-of_lt : (a b d : Bytes) → NotBelow a b → is_lt (cmp.compare b d) ≡ true → NotBelow a d
  NotBelow-of_lt a b d hab hbd = elim (Bool-cases (is_lt (cmp.compare d a))) [
    | inr good ↦ good
    | inl below ↦
        let through =
          law.compare_trans b d a (is_lt-lt (cmp.compare b d) hbd)
            (is_lt-lt (cmp.compare d a) below) in
        absurd (true-ne-false (sym (ap is_lt through) ∙ hab))
  ]

  NotBelow-trans : (a b d : Bytes) → NotBelow a b → NotBelow b d → NotBelow a d
  NotBelow-trans a b d hab hbd = elim (Bool-cases (is_lt (cmp.compare d a))) [
    | inr good ↦ good
    | inl below ↦
        let d_a = is_lt-lt (cmp.compare d a) below in
        elim (not_lt_cases (cmp.compare b a) hab) [
          | inl same ↦
              let b_d : cmp.compare b d ≡ Ordering.gt =
                law.compare_congr b a d same ∙ (law.compare_swap d a ∙ ap swap d_a) in
              let d_b : cmp.compare d b ≡ Ordering.lt = law.compare_swap b d ∙ ap swap b_d in
              absurd (true-ne-false (sym (ap is_lt d_b) ∙ hbd))
          | inr above ↦
              let a_b : cmp.compare a b ≡ Ordering.lt = law.compare_swap b a ∙ ap swap above in
              let through = law.compare_trans d a b d_a a_b in
              absurd (true-ne-false (sym (ap is_lt through) ∙ hbd))
        ]
  ]

  unfoldable pub pick : List (List Entry) → ℕ → Option (ℕ × Bytes) → Option (ℕ × Bytes)
  pick [] i best = best
  pick ([] ∷ ls) i best = pick ls (i + 1) best
  pick ((e ∷ l) ∷ ls) i best = pick ls (i + 1) (smaller cmp i e.0 best)

  abbrev pub HeadsAbove : Bytes → List (List Entry) → Type 0
  HeadsAbove key [] = Unit {0}
  HeadsAbove key ([] ∷ ls) = HeadsAbove key ls
  HeadsAbove key ((e ∷ l) ∷ ls) = NotBelow key e.0 × HeadsAbove key ls

  abbrev pub BestAbove : Bytes → Option (ℕ × Bytes) → Type 0
  BestAbove key none = Unit {0}
  BestAbove key (some (j, best)) = NotBelow key best

  abbrev pub Picked : List (List Entry) → ℕ → Option (ℕ × Bytes) → Option (ℕ × Bytes) → Type 0
  Picked lists i best none = (best ≡ none) × (concat lists ≡ [])
  Picked lists i best (some (j, key)) =
      HeadsAbove key lists × BestAbove key best × ((best ≡ some (j, key)) ⊎ Selected lists i j key)

  Selected-shift :
      (l : List Entry) (ls : List (List Entry)) (i j : ℕ) (key : Bytes)
      → Selected ls (i + 1) j key
      → Selected (l ∷ ls) i j key
  Selected-shift l ls i j key (front, e, tail, back, same, at, is_key) =
      (l ∷ front, e, tail, back, ap (λ x. l ∷ x) same, omega (arith, at), is_key)

  Selected-first :
      (e : Entry) (l : List Entry) (ls : List (List Entry)) (i j : ℕ) (key : Bytes)
      → Path (Option (ℕ × Bytes)) (some (i, e.0)) (some (j, key))
      → Selected ((e ∷ l) ∷ ls) i j key
  Selected-first e l ls i j key same =
      let index : i ≡ j = ap (λ o. elim o [ none ↦ i | some p ↦ p.0 ]) same in
      let is_key : e.0 ≡ key = ap (λ o. elim o [ none ↦ e.0 | some p ↦ p.1 ]) same in
      ([], e, l, ls, refl, omega (arith, index), is_key)

  Picked-empty :
      (ls : List (List Entry)) (i : ℕ) (best r : Option (ℕ × Bytes))
      → Picked ls (i + 1) best r
      → Picked ([] ∷ ls) i best r
  Picked-empty ls i best none h = h
  Picked-empty ls i best (some (j, key)) (heads, above, inl same) = (heads, above, inl same)
  Picked-empty ls i best (some (j, key)) (heads, above, inr sel) =
      (heads, above, inr (Selected-shift [] ls i j key sel))

  -- The first entry of a list is the smallest so far.
  Picked-better :
      (e : Entry) (l : List Entry) (ls : List (List Entry)) (i : ℕ) (best r : Option (ℕ × Bytes))
      → ((key : Bytes) → NotBelow key e.0 → BestAbove key best)
      → Picked ls (i + 1) (some (i, e.0)) r
      → Picked ((e ∷ l) ∷ ls) i best r
  Picked-better e l ls i best none under (bad, h) = absurd (cc bad)
  Picked-better e l ls i best (some (j, key)) under (heads, above, inl same) =
      ((above, heads), under key above, inr (Selected-first e l ls i j key same))
  Picked-better e l ls i best (some (j, key)) under (heads, above, inr sel) =
      ((above, heads), under key above, inr (Selected-shift (e ∷ l) ls i j key sel))

  -- It is not.
  Picked-same :
      (e : Entry) (l : List Entry) (ls : List (List Entry)) (i k : ℕ) (b : Bytes)
      (r : Option (ℕ × Bytes))
      → NotBelow b e.0
      → Picked ls (i + 1) (some (k, b)) r
      → Picked ((e ∷ l) ∷ ls) i (some (k, b)) r
  Picked-same e l ls i k b none over (bad, h) = absurd (cc bad)
  Picked-same e l ls i k b (some (j, key)) over (heads, above, inl same) =
      ((NotBelow-trans key b e.0 above over, heads), above, inl same)
  Picked-same e l ls i k b (some (j, key)) over (heads, above, inr sel) = (
    (NotBelow-trans key b e.0 above over, heads),
    above,
    inr (Selected-shift (e ∷ l) ls i j key sel),
  )

  pub pick-Picked :
      (lists : List (List Entry)) (i : ℕ) (best : Option (ℕ × Bytes))
      → Picked lists i best (pick lists i best)
  unfolding pick smaller
  pick-Picked [] i none = (refl, refl)
  pick-Picked [] i (some (j, key)) = (tt, not_self key, inl refl)
  pick-Picked ([] ∷ ls) i best =
      Picked-empty ls i best (pick ls (i + 1) best) (pick-Picked ls (i + 1) best)
  pick-Picked ((e ∷ l) ∷ ls) i none =
      Picked-better e l ls i none (pick ls (i + 1) (some (i, e.0))) (λ key above. tt)
        (pick-Picked ls (i + 1) (some (i, e.0)))
  pick-Picked ((e ∷ l) ∷ ls) i (some (k, b)) = elim (Bool-cases (is_lt (cmp.compare e.0 b))) [
    | inl less ↦ rw less (
        Picked-better e l ls i (some (k, b)) (pick ls (i + 1) (some (i, e.0)))
          (λ key above. NotBelow-of_lt key e.0 b above less)
          (pick-Picked ls (i + 1) (some (i, e.0))))
    | inr not_less ↦ rw not_less (
        Picked-same e l ls i k b (pick ls (i + 1) (some (k, b))) not_less
          (pick-Picked ls (i + 1) (some (k, b))))
  ]

  -- In order, where keys that are equal for the comparator stand in any order.
  abbrev pub Ascending : List Entry → Type 0
  Ascending [] = Unit {0}
  Ascending (e ∷ es) = All (λ (f : Entry). NotBelow e.0 f.0) es × Ascending es

  All-NotBelow :
      (a b : Bytes) (es : List Entry)
      → NotBelow a b
      → All (λ (f : Entry). NotBelow b f.0) es
      → All (λ (f : Entry). NotBelow a f.0) es
  All-NotBelow a b [] h all = tt
  All-NotBelow a b (f ∷ es) h all = (NotBelow-trans a b f.0 h all.0, All-NotBelow a b es h all.1)

  -- A key with no first entry below it has no entry below it.
  pub HeadsAbove-All :
      (key : Bytes) (lists : List (List Entry))
      → HeadsAbove key lists
      → All Ascending lists
      → All (λ (f : Entry). NotBelow key f.0) (concat lists)
  HeadsAbove-All key [] heads sorted = tt
  HeadsAbove-All key ([] ∷ ls) heads sorted = HeadsAbove-All key ls heads sorted.1
  HeadsAbove-All key ((e ∷ l) ∷ ls) heads sorted =
      All-append (λ (f : Entry). NotBelow key f.0) (e ∷ l) (concat ls)
        (heads.0, All-NotBelow key e.0 l heads.0 sorted.0.0)
        (HeadsAbove-All key ls heads.1 sorted.1)
