-- ===== src/DbFormat/Filter.antt =====
-- The filter policy over internal keys, and the class that wraps an internal key.
use leveldb_mcpe_dotnet.Common.{ℕ, true, List, [], ◌∷◌, ◌++◌, ◌≡◌, All}
use leveldb_mcpe_dotnet.Common.Bytes.{Bytes}
use leveldb_mcpe_dotnet.FilterPolicy.{FilterPolicy, IsFilterPolicy}
use leveldb_mcpe_dotnet.DbFormat.{ParsedInternalKey, append_internal_key, extract_user_key}

-- The loop that puts the user keys in place of the internal keys.
unfoldable pub user_keys : List Bytes → List Bytes
user_keys [] = []
user_keys (key ∷ keys) = extract_user_key key ∷ user_keys keys

unfoldable pub internal_filter_policy : FilterPolicy → FilterPolicy
internal_filter_policy user_policy = record {
  name = user_policy.name;
  create_filter = λ keys dst. user_policy.create_filter (user_keys keys) dst;
  key_may_match = λ key f. user_policy.key_may_match (extract_user_key key) f;
}

-- `InternalKey`, a string that is empty while the key is not valid.
pub record InternalKey : Type 0 where
  pub rep : Bytes

unfoldable pub invalid_key : InternalKey
invalid_key = record { rep = [] }

unfoldable pub new_internal_key : Bytes → ℕ → ℕ → InternalKey
new_internal_key user_key s t = record {
  rep = append_internal_key [] (record { user_key = user_key; sequence = s; type = t });
}

unfoldable pub set_from : InternalKey → ParsedInternalKey → InternalKey
set_from k p = record { rep = append_internal_key [] p }

unfoldable pub decode_internal_key : InternalKey → Bytes → InternalKey
decode_internal_key k s = record { rep = s }

unfoldable pub encode_internal_key : InternalKey → Bytes
encode_internal_key k = k.rep

unfoldable pub user_key_of : InternalKey → Bytes
user_key_of k = extract_user_key k.rep

unfoldable pub clear_internal_key : InternalKey → InternalKey
clear_internal_key k = record { rep = [] }

All-user_keys :
    (P : Bytes → Type 0) (keys : List Bytes)
    → All P (user_keys keys)
    → All (λ key. P (extract_user_key key)) keys
unfolding user_keys
All-user_keys P [] all = tt
All-user_keys P (key ∷ keys) all = (all.0, All-user_keys P keys all.1)

All-same :
    (P : Bytes → Type 0) (key key' : Bytes) (before after : List Bytes)
    → extract_user_key key' ≡ extract_user_key key
    → All (λ k. P (extract_user_key k)) (before ++ (key ∷ after))
    → P (extract_user_key key')
All-same P key key' [] after same all = rw same all.0
All-same P key key' (k ∷ before) after same all = All-same P key key' before after same all.1

-- Over a user policy that keeps the contract of a filter policy, the internal policy keeps it too.
pub internal_filter_policy-IsFilterPolicy :
    {user_policy : FilterPolicy}
    → IsFilterPolicy user_policy
    → IsFilterPolicy (internal_filter_policy user_policy)
unfolding internal_filter_policy
internal_filter_policy-IsFilterPolicy {user_policy} h = record {
  appended = λ keys. h.appended (user_keys keys);
  create-append = λ keys dst. h.create-append (user_keys keys) dst;
  may_match = λ keys.
      All-user_keys (λ key. user_policy.key_may_match key (h.appended (user_keys keys)) ≡ true) keys
        (h.may_match (user_keys keys));
}

-- Over a user policy that keeps the contract of a filter policy, what CreateFilter of the internal
-- policy appends for a list of internal keys lets every internal key pass whose user key is that
-- of one in the list, whatever its sequence number and type.
pub key_may_match-version :
    {user_policy : FilterPolicy}
    → IsFilterPolicy user_policy
    → (key key' dst : Bytes) (before after : List Bytes)
    → extract_user_key key' ≡ extract_user_key key
    → (filter : Bytes) × ((internal_filter_policy user_policy).create_filter
          (before ++ (key ∷ after))
          dst
        ≡ dst ++ filter)
      × ((internal_filter_policy user_policy).key_may_match key' filter ≡ true)
unfolding internal_filter_policy
key_may_match-version {user_policy} h key key' dst before after same =
    let keys = before ++ (key ∷ after) in
    let filter = h.appended (user_keys keys) in
    (
      filter,
      h.create-append (user_keys keys) dst,
      All-same (λ k. user_policy.key_may_match k filter ≡ true) key key' before after same
          (All-user_keys (λ k. user_policy.key_may_match k filter ≡ true) keys
            (h.may_match (user_keys keys))),
    )
