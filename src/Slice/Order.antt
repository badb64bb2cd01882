-- ===== src/Slice/Order.antt =====
-- `Slice::compare` is the lexicographic order, and a total one.
use leveldb_mcpe_dotnet.Common.{true, [], ◌∷◌, ◌++◌, ltb, if◌then◌else◌, ◌≡◌, refl, ◌↔◌, arith}
use leveldb_mcpe_dotnet.Common.Bytes.{Bytes}
use leveldb_mcpe_dotnet.Slice.{memcmp, compare, is_eq, equals, starts_with}
use Prim.Native.Nat.{Ordering}

-- The dictionary order: the first difference decides, and a proper prefix comes first.
unfoldable pub lexicographic : Bytes → Bytes → Ordering
lexicographic [] [] = Ordering.eq
lexicographic [] (y ∷ b) = Ordering.lt
lexicographic (x ∷ a) [] = Ordering.gt
lexicographic (x ∷ a) (y ∷ b) =
    if ltb x y then Ordering.lt else if ltb y x then Ordering.gt else lexicographic a b

abbrev pub swap : Ordering → Ordering
swap Ordering.lt = Ordering.gt
swap Ordering.eq = Ordering.eq
swap Ordering.gt = Ordering.lt

-- Slice::compare is the dictionary order of byte strings.
pub compare-lexicographic : (a b : Bytes) → compare a b ≡ lexicographic a b
unfolding compare lexicographic
compare-lexicographic [] [] = refl
compare-lexicographic [] (y ∷ b) = ground arith
compare-lexicographic (x ∷ a) [] = ground arith
compare-lexicographic (x ∷ a) (y ∷ b) = ground (arith, compare-lexicographic a b)

pub lexicographic_refl : (a : Bytes) → lexicographic a a ≡ Ordering.eq
unfolding lexicographic
lexicographic_refl [] = refl
lexicographic_refl (x ∷ a) = ground (arith, lexicographic_refl a)

pub lexicographic-swap : (a b : Bytes) → lexicographic b a ≡ swap (lexicographic a b)
unfolding lexicographic
lexicographic-swap [] [] = refl
lexicographic-swap [] (y ∷ b) = refl
lexicographic-swap (x ∷ a) [] = refl
lexicographic-swap (x ∷ a) (y ∷ b) = ground (arith, lexicographic-swap a b)

pub eq_of_lexicographic : (a b : Bytes) → lexicographic a b ≡ Ordering.eq → a ≡ b
unfolding lexicographic
eq_of_lexicographic [] [] e = refl
eq_of_lexicographic [] (y ∷ b) e = cc
eq_of_lexicographic (x ∷ a) [] e = cc
eq_of_lexicographic (x ∷ a) (y ∷ b) e = ground (arith, eq_of_lexicographic a b)

pub lexicographic_trans :
    (a b c : Bytes)
    → lexicographic a b ≡ Ordering.lt
    → lexicographic b c ≡ Ordering.lt
    → lexicographic a c ≡ Ordering.lt
unfolding lexicographic
lexicographic_trans [] b [] e f = ground arith
lexicographic_trans [] b (z ∷ c) e f = refl
lexicographic_trans (x ∷ a) [] c e f = cc
lexicographic_trans (x ∷ a) (y ∷ b) [] e f = cc
lexicographic_trans (x ∷ a) (y ∷ b) (z ∷ c) e f = ground (arith, lexicographic_trans a b c)

-- `compare` answers equal exactly on equal strings, and `operator==` does too.
pub compare_eq_iff : (a b : Bytes) → (compare a b ≡ Ordering.eq) ↔ (a ≡ b)
compare_eq_iff a b = (
  (λ e. eq_of_lexicographic a b (rw (compare-lexicographic a b) at e)),
  (λ e. rw (compare-lexicographic a b, e) (lexicographic_refl b)),
)

equals-lexicographic : (a b : Bytes) → equals a b ≡ is_eq (lexicographic a b)
unfolding equals lexicographic
equals-lexicographic [] [] = refl
equals-lexicographic [] (y ∷ b) = ground arith
equals-lexicographic (x ∷ a) [] = ground arith
equals-lexicographic (x ∷ a) (y ∷ b) = ground (arith, equals-lexicographic a b)

-- `operator==` and `compare` agree with equality of byte strings.
pub equals_iff : (a b : Bytes) → (equals a b ≡ true) ↔ (a ≡ b)
unfolding is_eq
equals_iff a b = (
  (λ e. eq_of_lexicographic a b (ground (arith, equals-lexicographic a b))),
  (λ e. ground (arith, equals-lexicographic a b, e, lexicographic_refl b)),
)

starts_with-append : (x r : Bytes) → starts_with (x ++ r) x ≡ true
unfolding starts_with is_eq memcmp
starts_with-append [] [] = ground arith
starts_with-append [] (b ∷ r) = ground arith
starts_with-append (x ∷ xs) r = ground (arith, starts_with-append xs r)

prefix_of_starts_with : (a x : Bytes) → starts_with a x ≡ true → (r : Bytes) × (a ≡ x ++ r)
unfolding starts_with is_eq memcmp
prefix_of_starts_with a [] e = (a, refl)
prefix_of_starts_with [] (y ∷ x) e = ground arith
prefix_of_starts_with (b ∷ a) (y ∷ x) e =
    let (r, h) = prefix_of_starts_with a x (ground arith) in (r, ground arith)

-- `starts_with` is true exactly of the strings that continue the prefix.
pub starts_with_iff : (a x : Bytes) → (starts_with a x ≡ true) ↔ ((r : Bytes) × (a ≡ x ++ r))
starts_with_iff a x = (prefix_of_starts_with a x, λ (r, e). rw e (starts_with-append x r))
