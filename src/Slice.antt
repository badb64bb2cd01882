-- ===== src/Slice.antt =====
-- include/leveldb/slice.h: comparing byte strings. What a C++ comparison returns, an `int` whose
-- sign alone is read, is an `Ordering`.
pub mod Order
mod Tests
use leveldb_mcpe_dotnet.Common.{
  ℕ, zero, suc, ◌-◌, Bool, true, false, not, List, [], ◌∷◌, length, take, drop, ltb, leb, ◌==◌,
  ◌&&◌, if◌then◌else◌,
}
use leveldb_mcpe_dotnet.Common.Bytes.{Bytes}
use Prim.Native.Nat.{Ordering}

-- `memcmp` on the first `n` bytes, as unsigned numbers; both arguments have them wherever it is
-- called.
unfoldable pub memcmp : Bytes → Bytes → ℕ → Ordering
memcmp (x ∷ a) (y ∷ b) (suc n) =
    let rest = memcmp a b n in
    if ltb x y then Ordering.lt else if ltb y x then Ordering.gt else rest
memcmp _ _ _ = Ordering.eq

unfoldable pub compare : Bytes → Bytes → Ordering
unfolding memcmp
compare a b =
    let min_len = if ltb (length a) (length b) then length a else length b in
    elim (memcmp a b min_len) [
      | Ordering.eq ↦
          if ltb (length a) (length b)
          then Ordering.lt
          else if ltb (length b) (length a)
          then Ordering.gt
          else Ordering.eq
      | r ↦ r
    ]

is_eq : Ordering → Bool
is_eq Ordering.eq = true
is_eq _ = false

-- `operator==`, `operator!=` and `starts_with`.
unfoldable pub equals : Bytes → Bytes → Bool
unfolding memcmp is_eq
equals x y = length x == length y && is_eq (memcmp x y (length x))

unfoldable pub differs : Bytes → Bytes → Bool
unfolding equals
differs x y = not (equals x y)

unfoldable pub starts_with : Bytes → Bytes → Bool
unfolding memcmp is_eq
starts_with a x = leb (length x) (length a) && is_eq (memcmp a x (length x))

unfoldable pub remove_prefix : Bytes → ℕ → Bytes
remove_prefix a n = drop n a
