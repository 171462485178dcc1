-- ===== src/Lru/Remove.antt =====
-- `LRURemove` keeps the invariant.
use mathlib.Core.List.{append_assoc, head-eq_of_cons-eq, tail-eq_of_cons-eq}
use dvb_vulture.Prelude.{
  ℕ, ◌+◌, ◌≤◌, ◌≡◌, refl, ap, ap₂, sym, subst, subst₂, ◌∙◌, List, [], ◌∷◌, ◌++◌, some, length,
  length-append, arith, inl, inr,
}
use dvb_vulture.Lru.{Lru, remove}
use dvb_vulture.Lru.Split.{IsSplit}
use dvb_vulture.Lru.Balance.{IsLru, snoc-cases}
use dvb_vulture.Lru.Leave.{
  Removes, left-Removes, right-Removes, mid-Removes, first-Removes, only-Removes,
}

-- Where an element of a list stands, of which another is known.
pub data Place (front : List ℕ) (e : ℕ) (bs ys : List ℕ) (m : ℕ) (zs : List ℕ) : Type 0 where
  before_it :
      (cs : List ℕ) → ys ≡ front ++ (e ∷ cs) → bs ≡ cs ++ (m ∷ zs) → Place front e bs ys m zs
  at_it : front ≡ ys → e ≡ m → bs ≡ zs → Place front e bs ys m zs
  behind_it :
      (cs : List ℕ) → zs ≡ cs ++ (e ∷ bs) → front ≡ ys ++ (m ∷ cs) → Place front e bs ys m zs

pub place :
    (front : List ℕ) (e : ℕ) (bs ys : List ℕ) (m : ℕ) (zs : List ℕ)
    → front ++ (e ∷ bs) ≡ ys ++ (m ∷ zs)
    → Place front e bs ys m zs
place [] e bs [] m zs same = at_it refl (head-eq_of_cons-eq same) (tail-eq_of_cons-eq same)
place [] e bs (y ∷ ys) m zs same =
    before_it ys (ap (λ a. a ∷ ys) (sym (head-eq_of_cons-eq same))) (tail-eq_of_cons-eq same)
place (a ∷ front) e bs [] m zs same =
    behind_it front (sym (tail-eq_of_cons-eq same)) (ap (λ b. b ∷ front) (head-eq_of_cons-eq same))
place (a ∷ front) e bs (y ∷ ys) m zs same =
    elim (place front e bs ys m zs (tail-eq_of_cons-eq same)) [
      | before_it cs l r ↦ before_it cs (ap₂ (λ b t. b ∷ t) (sym (head-eq_of_cons-eq same)) l) r
      | at_it l n r ↦ at_it (ap₂ (λ b t. b ∷ t) (head-eq_of_cons-eq same) l) n r
      | behind_it cs l r ↦ behind_it cs l (ap₂ (λ b t. b ∷ t) (head-eq_of_cons-eq same) r)
    ]

no_left-Removes :
    (s : Lru) (e : ℕ) (bs : List ℕ) → IsSplit s [] e bs → length bs ≤ 1 → Removes s e bs
no_left-Removes s e [] split le = only-Removes s e split
no_left-Removes s e (q ∷ zs) split le = first-Removes s e q zs split (omega arith)

own-Removes :
    (s : Lru) (front : List ℕ) (e : ℕ) (bs : List ℕ)
    → IsSplit s front e bs
    → length front ≤ length bs
    → length bs ≤ length front + 1
    → Removes s e (front ++ bs)
own-Removes s front e bs split le le' = elim (snoc-cases front) [
  | inl e' ↦
      let n : length front ≡ 0 = ap length e' in
      subst (λ xs. Removes s e (xs ++ bs)) (sym e')
        (no_left-Removes s e bs (subst (λ xs. IsSplit s xs e bs) e' split) (omega arith))
  | inr (rest, p, e') ↦
      let n : length front ≡ length (rest ++ (p ∷ [])) = ap length e' in
      subst (λ xs. Removes s e (xs ++ bs)) (sym e')
        (mid-Removes s rest p e bs (subst (λ xs. IsSplit s xs e bs) e' split) (omega arith)
          (omega arith))
]

-- `LRURemove` of an element of a list that has the invariant returns 0 and keeps the invariant: the
-- other elements are the list, in their order, `before` and `behind` count those on the sides of
-- the middle element, and each `where` tells the side.
pub remove-IsLru :
    (s : Lru) (front : List ℕ) (e : ℕ) (bs : List ℕ)
    → IsLru s (front ++ (e ∷ bs))
    → (s' : Lru) × (remove s e ≡ some (0, s')) × IsLru s' (front ++ bs)
remove-IsLru s front e bs (inl (empty, none_there)) =
    let n : length (front ++ (e ∷ bs)) ≡ 0 = ap length none_there in
    absurd (omega (arith, length-append front (e ∷ bs)))
remove-IsLru s front e bs (inr (ys, m, zs, at, split, le, le')) =
    elim (place front e bs ys m zs at) [
      | before_it cs l r ↦
          let n : length ys ≡ length (front ++ (e ∷ cs)) = ap length l in
          subst (Removes s e) (append_assoc front cs (m ∷ zs) ∙ ap (λ t. front ++ t) (sym r)) (
            left-Removes s front e cs m zs (subst (λ xs. IsSplit s xs m zs) l split) (omega arith)
              (omega arith))
      | at_it l same r ↦
          let n : length front ≡ length ys = ap length l in
          let n' : length bs ≡ length zs = ap length r in
          own-Removes s front e bs
            (subst₂ (λ xs a. IsSplit s xs a bs) (sym l) (sym same)
              (subst (IsSplit s ys m) (sym r) split))
            (omega arith) (omega arith)
      | behind_it cs l r ↦
          let n : length zs ≡ length (cs ++ (e ∷ bs)) = ap length l in
          subst (Removes s e) (sym (ap (λ t. t ++ bs) r ∙ append_assoc ys (m ∷ cs) bs)) (
            right-Removes s ys m cs e bs (subst (IsSplit s ys m) l split) (omega arith)
              (omega arith))
    ]
