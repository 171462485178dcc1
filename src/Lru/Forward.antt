-- ===== src/Lru/Forward.antt =====
-- `LRUFwd` keeps the invariant.
use mathlib.Core.List.{append_assoc}
use dvb_vulture.Prelude.{
  ℕ, suc, ◌+◌, ◌≤◌, ◌≡◌, refl, ap, sym, subst, subst₂, ◌∙◌, List, [], ◌∷◌, ◌++◌, none, some, length,
  length-append, arith, ◌⊎◌, inl, inr,
}
use dvb_vulture.DList.Seg.{last-append, last_or}
use dvb_vulture.DList.Join.{Holds}
use dvb_vulture.Lru.{Lru, fwd}
use dvb_vulture.Lru.Split.{IsSplit, next-apart}
use dvb_vulture.Lru.Balance.{IsLru, snoc-cases}
use dvb_vulture.Lru.Remove.{place, before_it, at_it, behind_it}
use dvb_vulture.Lru.Turn.{Turns, fwd-steps, left-Turns, right-Turns, mid-Turns, next-Turns}

behind-Turns :
    (s : Lru) (rest : List ℕ) (p e : ℕ) (bs ys : List ℕ) (m : ℕ) (zs cs : List ℕ)
    → IsSplit s ys m zs
    → length ys ≤ length zs
    → length zs ≤ length ys + 1
    → zs ≡ cs ++ (e ∷ bs)
    → rest ++ (p ∷ []) ≡ ys ++ (m ∷ cs)
    → Turns s e p (rest ++ (e ∷ p ∷ bs))
behind-Turns s rest p e bs ys m zs cs split le le' at same = elim (place rest p [] ys m cs same) [
  | before_it cs' l r ↦
      let n : 0 ≡ length (cs' ++ (m ∷ cs)) = ap length r in
      absurd (omega (arith, length-append cs' (m ∷ cs)))
  | at_it l is_p r ↦
      let at' : zs ≡ e ∷ bs = at ∙ ap (λ t. t ++ (e ∷ bs)) (sym r) in
      let n : length zs ≡ suc (length bs) = ap length at' in
      subst (λ xs. Turns s e p (xs ++ (e ∷ p ∷ bs))) (sym l)
        (next-Turns s ys p e bs (subst₂ (λ a xs. IsSplit s ys a xs) (sym is_p) at' split)
          (omega arith) (omega arith))
  | behind_it cs' l r ↦
      let at' : zs ≡ cs' ++ (p ∷ e ∷ bs) =
        at ∙ ap (λ t. t ++ (e ∷ bs)) l ∙ append_assoc cs' (p ∷ []) (e ∷ bs) in
      let n : length zs ≡ length (cs' ++ (p ∷ e ∷ bs)) = ap length at' in
      subst (Turns s e p)
        (sym (ap (λ t. t ++ (e ∷ p ∷ bs)) r ∙ append_assoc ys (m ∷ cs') (e ∷ p ∷ bs)))
        (right-Turns s ys m cs' p e bs (subst (IsSplit s ys m) at' split) (omega arith)
          (omega arith))
]

any-Turns :
    (s : Lru) (rest : List ℕ) (p e : ℕ) (bs ys : List ℕ) (m : ℕ) (zs : List ℕ)
    → IsSplit s ys m zs
    → length ys ≤ length zs
    → length zs ≤ length ys + 1
    → (rest ++ (p ∷ [])) ++ (e ∷ bs) ≡ ys ++ (m ∷ zs)
    → Turns s e p (rest ++ (e ∷ p ∷ bs))
any-Turns s rest p e bs ys m zs split le le' same =
    elim (place (rest ++ (p ∷ [])) e bs ys m zs same) [
      | before_it cs l r ↦
          let at' : ys ≡ rest ++ (p ∷ e ∷ cs) = l ∙ append_assoc rest (p ∷ []) (e ∷ cs) in
          let n : length ys ≡ length (rest ++ (p ∷ e ∷ cs)) = ap length at' in
          subst (Turns s e p)
            (append_assoc rest (e ∷ p ∷ cs) (m ∷ zs) ∙ ap (λ t. rest ++ (e ∷ p ∷ t)) (sym r))
            (left-Turns s rest p e cs m zs (subst (λ xs. IsSplit s xs m zs) at' split) (omega arith)
              (omega arith))
      | at_it l is_e r ↦
          let n : length (rest ++ (p ∷ [])) ≡ length ys = ap length l in
          let n' : length bs ≡ length zs = ap length r in
          mid-Turns s rest p e bs
            (subst₂ (λ xs a. IsSplit s xs a bs) (sym l) (sym is_e)
              (subst (IsSplit s ys m) (sym r) split))
            (omega arith) (omega arith)
      | behind_it cs l r ↦ behind-Turns s rest p e bs ys m zs cs split le le' l r
    ]

-- `LRUFwd` of an element of a list that has the invariant changes nothing where the element is the
-- first, and else keeps the invariant: the element and the one before it have changed places.
pub fwd-IsLru :
    (s : Lru) (front : List ℕ) (e : ℕ) (bs : List ℕ)
    → IsLru s (front ++ (e ∷ bs))
    → ((front ≡ []) × (fwd s e ≡ s))
      ⊎ ((rest : List ℕ) × (p : ℕ) × (front ≡ rest ++ (p ∷ []))
          × IsLru (fwd s e) (rest ++ (e ∷ p ∷ bs)))
unfolding fwd
fwd-IsLru s front e bs (inl (empty, none_there)) =
    let n : length (front ++ (e ∷ bs)) ≡ 0 = ap length none_there in
    absurd (omega (arith, length-append front (e ∷ bs)))
fwd-IsLru s front e bs (inr (ys, m, zs, at, split, le, le')) =
    let back = (next-apart s.l front e bs (subst (Holds s.l) (sym at) split.holds)).0 in
    elim (snoc-cases front) [
      | inl nil ↦
          let first : s.l.prev e ≡ none = back ∙ ap (last_or none) nil in
          inl (nil, simp (first, fwd) refl)
      | inr (rest, p, snoc) ↦
          let before : s.l.prev e ≡ some p =
            back ∙ ap (last_or none) snoc ∙ last-append none rest (p ∷ []) in
          inr (
            rest,
            p,
            snoc,
            subst (λ r. IsLru r (rest ++ (e ∷ p ∷ bs))) (sym (fwd-steps s e p before))
                (any-Turns s rest p e bs ys m zs split le le'
                  (ap (λ t. t ++ (e ∷ bs)) (sym snoc) ∙ at)),
          )
    ]
