-- ===== src/DbFormat/Tests.antt =====
-- Internal keys at concrete inputs.
use leveldb_mcpe_dotnet.FilterPolicy.{FilterPolicy, IsFilterPolicy}
use leveldb_mcpe_dotnet.DbFormat.Filter.{internal_filter_policy, key_may_match-version}
use leveldb_mcpe_dotnet.Common.Bytes.{Bytes}
use leveldb_mcpe_dotnet.Common.{
  ℕ, suc, true, All, List, ◌++◌, refl, length, ltb, get_or, ◌≤◌, [], ◌∷◌, ◌≡◌, ◌≢◌, ◌↔◌, some, none,
  inl, arith,
}
use leveldb_mcpe_dotnet.Coding.Prefixed.{prefixed}
use leveldb_mcpe_dotnet.Comparator.{IsComparator, KeepsEqual, bytewise}
use leveldb_mcpe_dotnet.Comparator.Bytewise.{bytewise-IsComparator}
use leveldb_mcpe_dotnet.DbFormat.{
  extract_user_key, ParsedInternalKey, append_internal_key, parse_internal_key, internal_comparator,
  compare, lookup_key, internal_key, user_key, memtable_key, type_value,
}
use leveldb_mcpe_dotnet.DbFormat.Codec.{
  parse_internal_key-append_internal_key, parse_internal_key_refuses,
}
use leveldb_mcpe_dotnet.DbFormat.Order.{internal_comparator-IsComparator}
use leveldb_mcpe_dotnet.DbFormat.Lookup.{lookup_key_views, lookup_key_visible}
use Prim.Native.Nat.{Ordering}

abbrev entry : ParsedInternalKey
entry = record { user_key = 97 ∷ 98 ∷ []; sequence = 7; type = 1 }

parse_internal_key-append_internal_key_example :
    parse_internal_key (append_internal_key [] entry) ≡ some entry
parse_internal_key-append_internal_key_example =
    parse_internal_key-append_internal_key entry (omega arith) (omega arith)

parse_internal_key_refuses_example : parse_internal_key (1 ∷ 2 ∷ []) ≡ none
parse_internal_key_refuses_example = parse_internal_key_refuses (1 ∷ 2 ∷ []) (inl (omega arith))

internal_comparator-IsComparator_example :
    IsComparator (internal_comparator bytewise) × KeepsEqual (internal_comparator bytewise)
internal_comparator-IsComparator_example =
    internal_comparator-IsComparator bytewise bytewise-IsComparator.0 bytewise-IsComparator.1

lookup_key_views_example :
    (user_key (lookup_key (97 ∷ []) 5) ≡ 97 ∷ [])
    × (internal_key (lookup_key (97 ∷ []) 5)
        ≡ append_internal_key [] (record { user_key = 97 ∷ []; sequence = 5; type = type_value }))
    × (memtable_key (lookup_key (97 ∷ []) 5) ≡ prefixed (internal_key (lookup_key (97 ∷ []) 5)))
lookup_key_views_example = lookup_key_views (97 ∷ []) 5 (omega arith)

same_user_key : bytewise.compare (97 ∷ 98 ∷ []) (97 ∷ 98 ∷ []) ≡ Ordering.eq
same_user_key = bytewise-IsComparator.0.compare_refl (97 ∷ 98 ∷ [])

lookup_key_visible_example :
    (compare bytewise (internal_key (lookup_key (97 ∷ 98 ∷ []) 9)) (append_internal_key [] entry)
      ≢ Ordering.gt)
    ↔ (7 ≤ 9)
lookup_key_visible_example =
    lookup_key_visible bytewise (97 ∷ 98 ∷ []) 9 entry (omega arith) (omega arith) (omega arith)
      same_user_key

-- A filter that holds how many keys it was made of.
abbrev counting : FilterPolicy
counting = record {
  name = "counting";
  create_filter = λ keys dst. dst ++ (length keys ∷ []);
  key_may_match = λ key f. ltb 0 (get_or f 0 0);
}

All-counted : (n : ℕ) (keys : List Bytes) → All (λ key. ltb 0 (suc n) ≡ true) keys
All-counted n [] = tt
All-counted n (key ∷ keys) = (ground arith, All-counted n keys)

counting-may_match :
    (keys : List Bytes) → All (λ key. counting.key_may_match key (length keys ∷ []) ≡ true) keys
counting-may_match [] = tt
counting-may_match (key ∷ keys) = All-counted (length keys) (key ∷ keys)

counting-IsFilterPolicy : IsFilterPolicy counting
counting-IsFilterPolicy = record {
  appended = λ keys. length keys ∷ [];
  create-append = λ keys dst. refl;
  may_match = counting-may_match;
}

-- The key 7 at sequence number 1 and at 2.
abbrev older : Bytes
older = 7 ∷ 1 ∷ 1 ∷ 0 ∷ 0 ∷ 0 ∷ 0 ∷ 0 ∷ 0 ∷ []

abbrev newer : Bytes
newer = 7 ∷ 1 ∷ 2 ∷ 0 ∷ 0 ∷ 0 ∷ 0 ∷ 0 ∷ 0 ∷ []

one_user_key : extract_user_key newer ≡ extract_user_key older
unfolding extract_user_key
one_user_key = refl

key_may_match-version_example :
    (filter : Bytes) × ((internal_filter_policy counting).create_filter (older ∷ []) []
      ≡ [] ++ filter)
    × ((internal_filter_policy counting).key_may_match newer filter ≡ true)
key_may_match-version_example =
    key_may_match-version counting-IsFilterPolicy older newer [] [] [] one_user_key
