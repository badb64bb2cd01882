-- ===== src/Hash/Tests.antt =====
-- Values of util/hash_test.cc, up to four bytes.
use leveldb_mcpe_dotnet.Common.{[], ◌∷◌, ◌≡◌, refl}
use leveldb_mcpe_dotnet.Hash.{hash}

hash_none : hash [] 0xbc9f1d34 ≡ 0xbc9f1d34
unfolding hash
hash_none = refl

hash_one : hash (0x62 ∷ []) 0xbc9f1d34 ≡ 0xef1345c4
unfolding hash
hash_one = refl

hash_two : hash (0xc3 ∷ 0x97 ∷ []) 0xbc9f1d34 ≡ 0x5b663814
unfolding hash
hash_two = refl

hash_three : hash (0xe2 ∷ 0x99 ∷ 0xa5 ∷ []) 0xbc9f1d34 ≡ 0x323c078f
unfolding hash
hash_three = refl

hash_four : hash (0xe1 ∷ 0x80 ∷ 0xb9 ∷ 0x32 ∷ []) 0xbc9f1d34 ≡ 0xed21633a
unfolding hash
hash_four = refl
