-- ===== src/FilterPolicy.antt =====
-- include/leveldb/filter_policy.h: the interface of filters.
use Prim.Native.String.{String}
use leveldb_mcpe_dotnet.Common.{Bool, true, List, ◌++◌, ◌≡◌, All}
use leveldb_mcpe_dotnet.Common.Bytes.{Bytes}

-- `create_filter` takes the string that it extends last, and returns it.
pub record FilterPolicy : Type 0 where
  pub name : String
  pub create_filter : List Bytes → Bytes → Bytes
  pub key_may_match : Bytes → Bytes → Bool

-- What the header asks of a policy: a filter is appended, and every key that it was made of may
-- match.
pub record IsFilterPolicy (p : FilterPolicy) : Type 0 where
  pub appended : List Bytes → Bytes
  pub create-append :
      (keys : List Bytes) (dst : Bytes) → p.create_filter keys dst ≡ dst ++ appended keys
  pub may_match : (keys : List Bytes) → All (λ key. p.key_may_match key (appended keys) ≡ true) keys
