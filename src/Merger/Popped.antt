-- ===== src/Merger/Popped.antt =====
-- What taking the first entry of one of several lists leaves of them.
use leveldb_mcpe_dotnet.Common.{
  suc, List, [], ◌∷◌, ◌++◌, append_assoc, length, length-append, All, ◌≡◌, refl, sym, ◌∙◌, ap,
  arith,
}
use mathlib.Core.List.{Perm, perm_middle}
use mathlib.Core.List.Perm
use mathlib.Core.Path.{subst}
use leveldb_mcpe_dotnet.Comparator.{Comparator, IsComparator}
use leveldb_mcpe_dotnet.Iterator.{Entry}
use leveldb_mcpe_dotnet.Merger.Pick.{concat, Ascending}

concat-middle :
    (front : List (List Entry)) (l : List Entry) (back : List (List Entry))
    → concat (front ++ (l ∷ back)) ≡ concat front ++ (l ++ concat back)
concat-middle [] l back = refl
concat-middle (f ∷ front) l back =
    ap (λ x. f ++ x) (concat-middle front l back)
    ∙ sym (append_assoc f (concat front) (l ++ concat back))

pub concat-Perm :
    (front : List (List Entry)) (e : Entry) (tail : List Entry) (back : List (List Entry))
    → Perm (e ∷ concat (front ++ (tail ∷ back))) (concat (front ++ ((e ∷ tail) ∷ back)))
concat-Perm front e tail back =
    rw (concat-middle front tail back, concat-middle front (e ∷ tail) back)
      (Perm.symm (perm_middle (concat front) (tail ++ concat back)))

pub length-concat :
    (front : List (List Entry)) (e : Entry) (tail : List Entry) (back : List (List Entry))
    → length (concat (front ++ ((e ∷ tail) ∷ back)))
      ≡ suc (length (concat (front ++ (tail ∷ back))))
length-concat [] e tail back = refl
length-concat (f ∷ front) e tail back =
    rw
      (
        length-append f (concat (front ++ ((e ∷ tail) ∷ back))),
        length-append f (concat (front ++ (tail ∷ back))),
      )
      (omega (arith, length-concat front e tail back))

module _ (cmp : Comparator) (law : IsComparator cmp) where
  pub Ascending-pop :
      (front : List (List Entry)) (e : Entry) (tail : List Entry) (back : List (List Entry))
      → All (Ascending cmp law) (front ++ ((e ∷ tail) ∷ back))
      → All (Ascending cmp law) (front ++ (tail ∷ back))
  Ascending-pop [] e tail back h = (h.0.1, h.1)
  Ascending-pop (f ∷ front) e tail back h = (h.0, Ascending-pop front e tail back h.1)

All-unmiddle {κ} :
    (P : Entry → Type κ) (a : List Entry) (e : Entry) (b : List Entry)
    → All P (a ++ (e ∷ b))
    → P e × All P (a ++ b)
All-unmiddle P [] e b h = h
All-unmiddle P (x ∷ a) e b h = let q = All-unmiddle P a e b h.1 in (q.0, (h.0, q.1))

pub All-pop {κ} :
    (P : Entry → Type κ) (front : List (List Entry)) (e : Entry) (tail : List Entry)
    (back : List (List Entry))
    → All P (concat (front ++ ((e ∷ tail) ∷ back)))
    → P e × All P (concat (front ++ (tail ∷ back)))
All-pop P front e tail back h =
    let split =
      All-unmiddle P (concat front) e (tail ++ concat back)
        (subst (All P) (concat-middle front (e ∷ tail) back) h) in
    (split.0, subst (All P) (sym (concat-middle front tail back)) split.1)
