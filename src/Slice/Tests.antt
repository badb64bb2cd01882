-- ===== src/Slice/Tests.antt =====
-- Comparisons at concrete inputs.
use leveldb_mcpe_dotnet.Common.{[], ◌∷◌, ◌≡◌}
use leveldb_mcpe_dotnet.Slice.{compare}
use leveldb_mcpe_dotnet.Slice.Order.{lexicographic, compare-lexicographic}

compare_example : compare (1 ∷ 2 ∷ []) (1 ∷ 3 ∷ []) ≡ lexicographic (1 ∷ 2 ∷ []) (1 ∷ 3 ∷ [])
compare_example = compare-lexicographic (1 ∷ 2 ∷ []) (1 ∷ 3 ∷ [])
