-- ===== src/FilterBlock/Builder.antt =====
-- What the builder of filter blocks holds after each call: the filters of the finished groups of
-- keys, and the keys of the group at hand.
use leveldb_mcpe_dotnet.Common.{
  ℕ, suc, ◌+◌, ◌-◌, ◌%◌, ◌^◌, List, [], ◌∷◌, ◌++◌, append-nil, append_assoc, length, ◌≡◌, refl, sym,
  ap, arith, length-append, take-append_length, take-length, drop-append_length,
}
use leveldb_mcpe_dotnet.Common.Bytes.{Bytes}
use leveldb_mcpe_dotnet.FilterPolicy.{FilterPolicy, IsFilterPolicy}
use leveldb_mcpe_dotnet.FilterBlock.{
  FilterBlockBuilder, new_filter_block_builder, key_slices, generate_filter, add_key,
}

abbrev pub Group : Type 0
Group = List Bytes

abbrev pub flat : Group → Bytes
flat [] = []
flat (key ∷ keys) = key ++ flat keys

abbrev starts : ℕ → Group → List ℕ
starts base [] = []
starts base (key ∷ keys) = base ∷ starts (base + length key) keys

flat-snoc : (keys : Group) (key : Bytes) → flat (keys ++ (key ∷ [])) ≡ flat keys ++ key
flat-snoc [] key = append-nil key
flat-snoc (k ∷ keys) key = rw (flat-snoc keys key) (sym (append_assoc k (flat keys) key))

starts-snoc :
    (base : ℕ) (keys : Group) (key : Bytes)
    → starts base (keys ++ (key ∷ [])) ≡ starts base keys ++ ((base + length (flat keys)) ∷ [])
starts-snoc base [] key = let e : base + 0 ≡ base = omega arith in rw e refl
starts-snoc base (k ∷ keys) key =
    let e : base + length (k ++ flat keys) ≡ base + length k + length (flat keys) =
      omega (arith, length-append k (flat keys)) in
    rw (e, starts-snoc (base + length k) keys key) refl

at_length :
    (before key next : Bytes) (keys : Group)
    → key_slices ((before ++ key) ++ (next ++ flat keys)) (length (before ++ key)) (
        starts (length (before ++ key) + length next) keys
        ++ (length ((before ++ key) ++ (next ++ flat keys)) ∷ []))
      ≡ (next ∷ keys)
    → key_slices (before ++ (key ++ (next ++ flat keys))) (length before + length key) (
        starts (length before + length key + length next) keys
        ++ (length (before ++ (key ++ (next ++ flat keys))) ∷ []))
      ≡ (next ∷ keys)
at_length before key next keys h =
    rw (sym (length-append before key), sym (append_assoc before key (next ++ flat keys))) h

-- The slices between the starts are the keys that were added.
key_slices-starts :
    (before : Bytes) (key : Bytes) (keys : Group)
    → key_slices
        (before ++ (key ++ flat keys))
        (length before)
        (starts (length before + length key) keys ++ (length (before ++ (key ++ flat keys)) ∷ []))
      ≡ (key ∷ keys)
unfolding key_slices
key_slices-starts before key [] =
    let e : length (before ++ key) - length before ≡ length key =
      omega (arith, length-append before key) in
    rw (append-nil key, e, drop-append_length before key, take-length key) refl
key_slices-starts before key (next ∷ keys) =
    let e : length before + length key - length before ≡ length key = omega arith in
    let later = key_slices-starts (before ++ key) next keys in
    let later_ = at_length before key next keys later in
    rw
      (
        e,
        drop-append_length before (key ++ (next ++ flat keys)),
        take-append_length key (next ++ flat keys),
        later_,
      )
      refl

module _ (policy : FilterPolicy) (law : IsFilterPolicy policy) where
  -- A group without keys has an empty filter.
  abbrev pub filter_of : Group → Bytes
  filter_of [] = []
  filter_of (key ∷ keys) = law.appended (key ∷ keys)

  abbrev pub filters : List Group → Bytes
  filters [] = []
  filters (g ∷ gs) = filter_of g ++ filters gs

  abbrev pub offsets : ℕ → List Group → List ℕ
  offsets base [] = []
  offsets base (g ∷ gs) = base % 2 ^ 32 ∷ offsets (base + length (filter_of g)) gs

  filters-snoc :
      (gs : List Group) (g : Group) → filters (gs ++ (g ∷ [])) ≡ filters gs ++ filter_of g
  filters-snoc [] g = append-nil (filter_of g)
  filters-snoc (h ∷ gs) g =
      rw (filters-snoc gs g) (sym (append_assoc (filter_of h) (filters gs) (filter_of g)))

  offsets-snoc :
      (base : ℕ) (gs : List Group) (g : Group)
      → offsets base (gs ++ (g ∷ []))
        ≡ offsets base gs ++ ((base + length (filters gs)) % 2 ^ 32 ∷ [])
  offsets-snoc base [] g = let e : base + 0 ≡ base = omega arith in rw e refl
  offsets-snoc base (h ∷ gs) g =
      let e : base + length (filter_of h ++ filters gs)
          ≡ base + length (filter_of h) + length (filters gs) =
        omega (arith, length-append (filter_of h) (filters gs)) in
      rw (e, offsets-snoc (base + length (filter_of h)) gs g) refl

  pub length-offsets : (base : ℕ) (gs : List Group) → length (offsets base gs) ≡ length gs
  length-offsets base [] = refl
  length-offsets base (g ∷ gs) = ap suc (length-offsets (base + length (filter_of g)) gs)

  -- The finished groups and the group at hand.
  pub record Holds (gs : List Group) (g : Group) (b : FilterBlockBuilder) : Type 0 where
    pub result_of : b.result ≡ filters gs
    pub offsets_of : b.filter_offsets ≡ offsets 0 gs
    pub keys_of : b.keys ≡ flat g
    pub start_of : b.start ≡ starts 0 g

  pub new-Holds : Holds [] [] new_filter_block_builder
  unfolding new_filter_block_builder
  new-Holds = record { result_of = refl; offsets_of = refl; keys_of = refl; start_of = refl }

  zero_add : (n : ℕ) → n ≡ 0 + n
  zero_add n = omega arith

  pub add_key-Holds :
      (gs : List Group) (g : Group) (b : FilterBlockBuilder) (key : Bytes)
      → Holds gs g b
      → Holds gs (g ++ (key ∷ [])) (add_key b key)
  unfolding add_key
  add_key-Holds gs g b key h = record {
    result_of = h.result_of;
    offsets_of = h.offsets_of;
    keys_of = rw (h.keys_of, flat-snoc g key) refl;
    start_of =
        rw (h.start_of, h.keys_of, starts-snoc 0 g key)
          (ap (λ n. starts 0 g ++ (n ∷ [])) (zero_add (length (flat g))));
  }

  pub generate_filter-Holds :
      (gs : List Group) (g : Group) (b : FilterBlockBuilder)
      → Holds gs g b
      → Holds (gs ++ (g ∷ [])) [] (generate_filter policy b)
  unfolding generate_filter
  generate_filter-Holds gs [] b h = record {
    result_of = rw (h.start_of, h.result_of, filters-snoc gs []) (sym (append-nil (filters gs)));
    offsets_of =
        rw (h.start_of, h.result_of, h.offsets_of, offsets-snoc 0 gs [])
          (ap (λ n. offsets 0 gs ++ (n % 2 ^ 32 ∷ [])) (zero_add (length (filters gs))));
    keys_of = rw (h.start_of, h.keys_of) refl;
    start_of = rw h.start_of refl;
  }
  generate_filter-Holds gs (key ∷ g) b h = record {
    result_of =
        rw (h.start_of, h.keys_of, h.result_of, filters-snoc gs (key ∷ g))
          (rw (key_slices-starts [] key g) (law.create-append (key ∷ g) (filters gs)));
    offsets_of =
        rw (h.start_of, h.result_of, h.offsets_of, offsets-snoc 0 gs (key ∷ g))
          (ap (λ n. offsets 0 gs ++ (n % 2 ^ 32 ∷ [])) (zero_add (length (filters gs))));
    keys_of = rw h.start_of refl;
    start_of = rw h.start_of refl;
  }
