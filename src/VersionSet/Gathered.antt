-- ===== src/VersionSet/Gathered.antt =====
-- The rounds of the loop of GetOverlappingInputs, from the first to the last.
use leveldb_mcpe_dotnet.Common.{
  ℕ, zero, suc, ◌+◌, ◌*◌, ◌++◌, ◌≤◌, ◌<◌, Bool, true, false, Option, some, List, [], ◌∷◌,
  append-nil, append_assoc, length, All, All-append, ◌||◌, ◌&&◌, ◌==◌, Bool-cases, inl, inr, ◌≡◌,
  refl, sym, ap, ◌∙◌, arith,
}
use leveldb_mcpe_dotnet.Common.Bytes.{Bytes}
use native.Mathlib.Nat.{suc-mul}
use leveldb_mcpe_dotnet.Comparator.{Comparator, IsComparator}
use leveldb_mcpe_dotnet.DbFormat.{extract_user_key}
use leveldb_mcpe_dotnet.VersionEdit.{FileMetaData}
use leveldb_mcpe_dotnet.VersionSet.{
  Gather, before_range, after_range, begins_before, ends_after, gather_step, gather,
  get_overlapping_inputs,
}
use leveldb_mcpe_dotnet.VersionSet.Inputs.{
  count, count-length, overlaps, overlapping, overlapping-snoc, before_range-wider,
  after_range-wider, restarts, begin-lt, end-lt,
}

mul-room : (a b m : ℕ) → a < b → a * m + m ≤ b * m
mul-room a zero m h = absurd (omega arith)
mul-room zero (suc b) m h = omega (arith, suc-mul b m)
mul-room (suc a) (suc b) m h = omega (arith, suc-mul a m, suc-mul b m, mul-room a b m (omega arith))

-- A file that does not reach out of a range.
abbrev pub Inside : Comparator → Option Bytes → Option Bytes → FileMetaData → Type 0
Inside user user_begin user_end f =
    (begins_before user user_begin f ≡ false) × (ends_after user user_end f ≡ false)

module _ (user : Comparator) (laws : IsComparator user) (level_zero : Bool)
    (files : List FileMetaData) (begin_ end_ : Option Bytes) where
  -- What holds after the files `seen` of this pass.
  record Holds (seen : List FileMetaData) (g : Gather) : Type 0 where
    split : files ≡ seen ++ g.rest
    gathered : g.inputs ≡ overlapping user g.user_begin g.user_end seen
    inside : level_zero ≡ true → All (Inside user g.user_begin g.user_end) g.inputs
    begin_wider :
        (f : FileMetaData)
        → before_range user g.user_begin f ≡ true
        → before_range user begin_ f ≡ true
    end_wider :
        (f : FileMetaData) → after_range user g.user_end f ≡ true → after_range user end_ f ≡ true
    fixed : level_zero ≡ false → (g.user_begin ≡ begin_) × (g.user_end ≡ end_)

  measure : Gather → ℕ
  measure g = restarts user files g * (length files + 1) + length g.rest

  module _ (seen : List FileMetaData) (f : FileMetaData) (rest : List FileMetaData)
      (ub ue : Option Bytes) (inputs : List FileMetaData)
      (h : Holds seen
        (record { rest = f ∷ rest; user_begin = ub; user_end = ue; inputs = inputs })) where
    next_split : files ≡ (seen ++ (f ∷ [])) ++ rest
    next_split = h.split ∙ sym (append_assoc seen (f ∷ []) rest)

    skip-Holds :
        (before_range user ub f || after_range user ue f) ≡ true
        → Holds
            (seen ++ (f ∷ []))
            (record { rest = rest; user_begin = ub; user_end = ue; inputs = inputs })
    skip-Holds out = record {
      split = next_split;
      gathered =
          rw (overlapping-snoc user ub ue seen f, out, append-nil (overlapping user ub ue seen))
            h.gathered;
      inside = h.inside;
      begin_wider = h.begin_wider;
      end_wider = h.end_wider;
      fixed = h.fixed;
    }

    push-Holds :
        (before_range user ub f || after_range user ue f) ≡ false
        → (level_zero && begins_before user ub f) ≡ false
        → (level_zero && ends_after user ue f) ≡ false
        → Holds
            (seen ++ (f ∷ []))
            (record { rest = rest; user_begin = ub; user_end = ue; inputs = inputs ++ (f ∷ []) })
    push-Holds out b e = record {
      split = next_split;
      gathered = rw (overlapping-snoc user ub ue seen f, out) (ap (λ l. l ++ (f ∷ [])) h.gathered);
      inside =
          λ zero_. All-append _ inputs (f ∷ []) (h.inside zero_) ((ground arith, ground arith), tt);
      begin_wider = h.begin_wider;
      end_wider = h.end_wider;
      fixed = h.fixed;
    }

    begin-Holds :
        (level_zero && begins_before user ub f) ≡ true
        → Holds [] (record {
          rest = files;
          user_begin = some (extract_user_key f.smallest);
          user_end = ue;
          inputs = [];
        })
    begin-Holds b = record {
      split = refl;
      gathered = refl;
      inside = λ zero_. tt;
      begin_wider = λ g k. h.begin_wider g (before_range-wider user laws ub f g (ground arith) k);
      end_wider = h.end_wider;
      fixed = λ zero_. absurd (ground arith);
    }

    end-Holds :
        (level_zero && ends_after user ue f) ≡ true
        → Holds [] (record {
          rest = files;
          user_begin = ub;
          user_end = some (extract_user_key f.largest);
          inputs = [];
        })
    end-Holds e = record {
      split = refl;
      gathered = refl;
      inside = λ zero_. tt;
      begin_wider = h.begin_wider;
      end_wider = λ g k. h.end_wider g (after_range-wider user laws ue f g (ground arith) k);
      fixed = λ zero_. absurd (ground arith);
    }

  -- With fuel above the measure the loop ends, with what its last pass holds.
  gather-Holds :
      (fuel : ℕ) (seen rest : List FileMetaData) (ub ue : Option Bytes) (inputs : List FileMetaData)
      → Holds seen (record { rest = rest; user_begin = ub; user_end = ue; inputs = inputs })
      → measure (record { rest = rest; user_begin = ub; user_end = ue; inputs = inputs }) < fuel
      → (all : List FileMetaData) × (g : Gather) × (gather user fuel level_zero files
            (record { rest = rest; user_begin = ub; user_end = ue; inputs = inputs })
          ≡ some g.inputs)
        × (g.rest ≡ [])
        × Holds all g
  unfolding gather gather_step measure
  gather-Holds zero seen rest ub ue inputs h hm = absurd (omega arith)
  gather-Holds (suc fuel) seen [] ub ue inputs h hm =
      (seen, record { rest = []; user_begin = ub; user_end = ue; inputs = inputs }, refl, refl, h)
  gather-Holds (suc fuel) seen (f ∷ rest) ub ue inputs h hm =
      elim (Bool-cases (before_range user ub f || after_range user ue f)) [
        | inl out ↦ rw out (
            gather-Holds fuel (seen ++ (f ∷ [])) rest ub ue inputs
              (skip-Holds seen f rest ub ue inputs h out) (omega arith))
        | inr near ↦ elim (Bool-cases (level_zero && begins_before user ub f)) [
          | inl b ↦
              let fewer : count (begins_before user (some (extract_user_key f.smallest))) files
                  < count (begins_before user ub) files =
                rw h.split (begin-lt user laws seen f rest ub (ground arith)) in
              rw (near, b)
                (gather-Holds fuel [] files (some (extract_user_key f.smallest)) ue []
                  (begin-Holds seen f rest ub ue inputs h b)
                  (let fewer_ =
                      mul-room
                        (count (begins_before user (some (extract_user_key f.smallest))) files
                          + count (ends_after user ue) files)
                        (count (begins_before user ub) files + count (ends_after user ue) files)
                        (length files + 1) (omega (arith, fewer)) in
                    omega (arith, fewer_)))
          | inr nb ↦ elim (Bool-cases (level_zero && ends_after user ue f)) [
            | inl e ↦
                let fewer : count (ends_after user (some (extract_user_key f.largest))) files
                    < count (ends_after user ue) files =
                  rw h.split (end-lt user laws seen f rest ue (ground arith)) in
                rw (near, nb, e)
                  (gather-Holds fuel [] files ub (some (extract_user_key f.largest)) []
                    (end-Holds seen f rest ub ue inputs h e)
                    (let fewer_ =
                        mul-room
                          (count (begins_before user ub) files
                            + count (ends_after user (some (extract_user_key f.largest))) files)
                          (count (begins_before user ub) files + count (ends_after user ue) files)
                          (length files + 1) (omega (arith, fewer)) in
                      omega (arith, fewer_)))
            | inr ne ↦
                rw (near, nb, ne)
                  (gather-Holds fuel (seen ++ (f ∷ [])) rest ub ue (inputs ++ (f ∷ []))
                    (push-Holds seen f rest ub ue inputs h near nb ne) (omega arith))
          ]
        ]
      ]

  -- Enough fuel for every list of files.
  abbrev pub enough : ℕ
  enough = (length files + length files + 1) * (length files + 1)

  measure-enough :
      measure (record { rest = files; user_begin = begin_; user_end = end_; inputs = [] }) < enough
  unfolding measure
  measure-enough =
      let b = count-length (begins_before user begin_) files in
      let e = count-length (ends_after user end_) files in
      let r = count (begins_before user begin_) files + count (ends_after user end_) files in
      omega (arith, mul-room r (length files + length files + 1) (length files + 1) (omega arith))

  gathered_all :
      (all : List FileMetaData) × (g : Gather) × (gather user enough level_zero files
          (record { rest = files; user_begin = begin_; user_end = end_; inputs = [] })
        ≡ some g.inputs)
      × (g.rest ≡ [])
      × Holds all g
  gathered_all =
      gather-Holds enough [] files begin_ end_ []
        (record {
          split = refl;
          gathered = refl;
          inside = λ z. tt;
          begin_wider = λ f k. k;
          end_wider = λ f k. k;
          fixed = λ z. (refl, refl);
        })
        measure-enough

-- The files that overlap a range are among those that overlap a larger one.
overlapping-overlapping :
    (user : Comparator) (begin_ end_ ub ue : Option Bytes) (files : List FileMetaData)
    → ((f : FileMetaData) → overlaps user begin_ end_ f ≡ true → overlaps user ub ue f ≡ true)
    → overlapping user begin_ end_ (overlapping user ub ue files)
      ≡ overlapping user begin_ end_ files
overlapping-overlapping user begin_ end_ ub ue [] h = refl
overlapping-overlapping user begin_ end_ ub ue (f ∷ files) h =
    ground (arith, h f, overlapping-overlapping user begin_ end_ ub ue files h)

-- Below level 0 GetOverlappingInputs ends, and gives exactly the files that overlap the range, in
-- their order.
pub get_overlapping_inputs-deeper :
    (user : Comparator) (level : ℕ) (files : List FileMetaData) (begin_ end_ : Option Bytes)
    → IsComparator user
    → 1 ≤ level
    → get_overlapping_inputs user
        ((length files + length files + 1) * (length files + 1))
        level
        files
        begin_
        end_
      ≡ some (overlapping user begin_ end_ files)
unfolding get_overlapping_inputs
get_overlapping_inputs-deeper user level files begin_ end_ laws hl =
    let deep : (level == 0) ≡ false = ground arith in
    let (all, g, run, done, h) = gathered_all user laws false files begin_ end_ in
    let (same_begin, same_end) = h.fixed refl in
    let flat : all ++ g.rest ≡ all = rw done (append-nil all) in
    let seen : all ≡ files = sym (h.split ∙ flat) in
    rw deep (run ∙ ap some (h.gathered ∙ rw (same_begin, same_end, seen) refl))

-- With fuel that is quadratic in the number of files, GetOverlappingInputs on level 0 ends in
-- spite of its restarts; it gives the files that overlap some range, none of which reaches out of
-- that range, and those of them that overlap the range asked for are all the files of the level
-- that overlap it.
pub get_overlapping_inputs-zero :
    (user : Comparator) (files : List FileMetaData) (begin_ end_ : Option Bytes)
    → IsComparator user
    → (inputs : List FileMetaData) × (user_begin : Option Bytes) × (user_end : Option Bytes)
      × (get_overlapping_inputs user
            ((length files + length files + 1) * (length files + 1))
            0
            files
            begin_
            end_
          ≡ some inputs)
      × (inputs ≡ overlapping user user_begin user_end files)
      × All (Inside user user_begin user_end) inputs
      × (overlapping user begin_ end_ inputs ≡ overlapping user begin_ end_ files)
unfolding get_overlapping_inputs
get_overlapping_inputs-zero user files begin_ end_ laws =
    let (all, g, run, done, h) = gathered_all user laws true files begin_ end_ in
    let flat : all ++ g.rest ≡ all = rw done (append-nil all) in
    let seen : all ≡ files = sym (h.split ∙ flat) in
    let gathered : g.inputs ≡ overlapping user g.user_begin g.user_end files =
      h.gathered ∙ ap (overlapping user g.user_begin g.user_end) seen in
    let kept =
      overlapping-overlapping user begin_ end_ g.user_begin g.user_end files
        (λ f k. ground (arith, h.begin_wider f, h.end_wider f)) in
    (g.inputs, g.user_begin, g.user_end, run, gathered, h.inside refl, rw gathered kept)
