-- ===== src/Arena/Ranges.antt =====
-- Ranges of addresses: an address and a length.
use leveldb_mcpe_dotnet.Common.{
  ℕ, ◌+◌, ◌≤◌, Bool, true, false, List, [], ◌∷◌, ◌++◌, All, ◌⊎◌, inl, inr, arith,
}

abbrev pub Range : Type 0
Range = ℕ × ℕ

abbrev pub Disjoint : Range → Range → Type 0
Disjoint r s = (r.0 + r.1 ≤ s.0) ⊎ (s.0 + s.1 ≤ r.0)

abbrev pub Inside : Range → Range → Type 0
Inside r s = (s.0 ≤ r.0) × (r.0 + r.1 ≤ s.0 + s.1)

-- Inside one of the ranges.
abbrev pub InSome : List Range → Range → Type 0
InSome [] r = Path Bool true false
InSome (b ∷ bs) r = Inside r b ⊎ InSome bs r

abbrev pub Apart : List Range → Type 0
Apart [] = Unit {0}
Apart (r ∷ rs) = All (Disjoint r) rs × Apart rs

pub Disjoint-sub : (r r' s : Range) → Inside r' r → Disjoint r s → Disjoint r' s
Disjoint-sub r r' s inside (inl below) = inl (omega arith)
Disjoint-sub r r' s inside (inr above) = inr (omega arith)

pub Disjoint-swap : (r s : Range) → Disjoint r s → Disjoint s r
Disjoint-swap r s (inl below) = inr below
Disjoint-swap r s (inr above) = inl above

pub All-Disjoint-sub :
    (r r' : Range) (ss : List Range) → Inside r' r → All (Disjoint r) ss → All (Disjoint r') ss
All-Disjoint-sub r r' [] inside h = tt
All-Disjoint-sub r r' (s ∷ ss) inside h =
    (Disjoint-sub r r' s inside h.0, All-Disjoint-sub r r' ss inside h.1)

pub InSome-sub : (bs : List Range) (r r' : Range) → Inside r' r → InSome bs r → InSome bs r'
InSome-sub [] r r' inside h = h
InSome-sub (b ∷ bs) r r' inside (inl here) = inl (omega arith, omega arith)
InSome-sub (b ∷ bs) r r' inside (inr there) = inr (InSome-sub bs r r' inside there)

pub InSome-more : (bs : List Range) (b r : Range) → InSome bs r → InSome (bs ++ (b ∷ [])) r
InSome-more [] b r h = absurd (cc h)
InSome-more (c ∷ bs) b r (inl here) = inl here
InSome-more (c ∷ bs) b r (inr there) = inr (InSome-more bs b r there)

pub InSome-last : (bs : List Range) (b r : Range) → Inside r b → InSome (bs ++ (b ∷ [])) r
InSome-last [] b r h = inl h
InSome-last (c ∷ bs) b r h = inr (InSome-last bs b r h)

pub All-InSome-more :
    (bs : List Range) (b : Range) (rs : List Range)
    → All (InSome bs) rs
    → All (InSome (bs ++ (b ∷ []))) rs
All-InSome-more bs b [] h = tt
All-InSome-more bs b (r ∷ rs) h = (InSome-more bs b r h.0, All-InSome-more bs b rs h.1)

-- What is apart from all blocks is apart from what is inside one.
pub Disjoint-InSome :
    (bs : List Range) (b r : Range) → All (Disjoint b) bs → InSome bs r → Disjoint b r
Disjoint-InSome [] b r apart h = absurd (cc h)
Disjoint-InSome (c ∷ bs) b r apart (inl here) =
    Disjoint-swap r b (Disjoint-sub c r b here (Disjoint-swap b c apart.0))
Disjoint-InSome (c ∷ bs) b r apart (inr there) = Disjoint-InSome bs b r apart.1 there

pub All-Disjoint-InSome :
    (bs : List Range) (b : Range) (rs : List Range)
    → All (Disjoint b) bs
    → All (InSome bs) rs
    → All (Disjoint b) rs
All-Disjoint-InSome bs b [] apart h = tt
All-Disjoint-InSome bs b (r ∷ rs) apart h =
    (Disjoint-InSome bs b r apart h.0, All-Disjoint-InSome bs b rs apart h.1)
