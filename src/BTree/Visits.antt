-- ===== src/BTree/Visits.antt =====
-- The calls of `visit` that a walk over a tree makes.
use dvb_vulture.Prelude.{
  ◌++◌, ◌||◌, if◌then◌else◌, ℕ, ◌+◌, ◌≡◌, ap, ap₂, sym, ◌∙◌, subst, refl, List, [], ◌∷◌, ◌==◌, Bool,
  true, false, Bool-cases, inl, inr,
}
use mathlib.Core.List.{append_assoc, append-nil}
use dvb_vulture.BTree.{walk, Tree, empty, node}
use dvb_vulture.BTree.InOrder.{flat, flat-append}

module _ {ℓ} {A : Type ℓ} where
  -- the payloads of the visits whose `which` passes a test
  abbrev pub picked : (ℕ → Bool) → List (A × ℕ × ℕ) → List A
  picked test [] = []
  picked test ((v, which, depth) ∷ visits) =
      let rest = picked test visits in if test which then v ∷ rest else rest

  abbrev pub childless : Tree A → Tree A → Bool
  childless empty empty = true
  childless empty (node k a x b) = false
  childless (node h l v r) t = false

  abbrev pub pre_order : Tree A → List A
  pre_order empty = []
  pre_order (node h l v r) = v ∷ (pre_order l ++ pre_order r)

  abbrev pub post_order : Tree A → List A
  post_order empty = []
  post_order (node h l v r) = post_order l ++ (post_order r ++ (v ∷ []))

  -- the payloads of the nodes without children, from the left to the right
  abbrev pub leaves : Tree A → List A
  leaves empty = []
  leaves (node h l v r) = if childless l r then v ∷ [] else leaves l ++ leaves r

  -- Calls that are properly nested: `depth` nodes are being visited, and the innermost ones of
  -- them that these calls are to finish are on the list, each with whether its left is done. A call
  -- with 0 opens a node, one with 1 goes from its left to its right, and one with 2 closes it,
  -- each at the node's own depth.
  pub data Nested : (depth : ℕ) → List (A × Bool) → List (A × ℕ × ℕ) → Type ℓ where
    done : {d : ℕ} → Nested d [] []
    leaf :
        {d : ℕ} {opened : List (A × Bool)} {v : A} {visits : List (A × ℕ × ℕ)}
        → Nested d opened visits
        → Nested d opened ((v, 3, d) ∷ visits)
    enter :
        {d : ℕ} {opened : List (A × Bool)} {v : A} {visits : List (A × ℕ × ℕ)}
        → Nested (d + 1) ((v, false) ∷ opened) visits
        → Nested d opened ((v, 0, d) ∷ visits)
    turn :
        {d : ℕ} {opened : List (A × Bool)} {v : A} {visits : List (A × ℕ × ℕ)}
        → Nested (d + 1) ((v, true) ∷ opened) visits
        → Nested (d + 1) ((v, false) ∷ opened) ((v, 1, d) ∷ visits)
    exit :
        {d : ℕ} {opened : List (A × Bool)} {v : A} {visits : List (A × ℕ × ℕ)}
        → Nested d opened visits
        → Nested (d + 1) ((v, true) ∷ opened) ((v, 2, d) ∷ visits)

  -- The visits of a tree's traversal.
  pub record IsTraversal (t : Tree A) (depth : ℕ) (visits : List (A × ℕ × ℕ)) : Type ℓ where
    pub first : picked (λ w. (w == 0) || (w == 3)) visits ≡ pre_order t
    pub between : picked (λ w. (w == 1) || (w == 3)) visits ≡ flat t []
    pub last : picked (λ w. (w == 2) || (w == 3)) visits ≡ post_order t
    pub leafs : picked (λ w. w == 3) visits ≡ leaves t
    pub nested :
        (opened : List (A × Bool)) (more : List (A × ℕ × ℕ))
        → Nested depth opened more
        → Nested depth opened (visits ++ more)

  picked-append :
      (test : ℕ → Bool) (xs ys : List (A × ℕ × ℕ))
      → picked test (xs ++ ys) ≡ picked test xs ++ picked test ys
  picked-append test [] ys = refl
  picked-append test ((v, which, depth) ∷ xs) ys = elim (Bool-cases (test which)) [
    | inl e ↦ rw e (ap (λ rest. v ∷ rest) (picked-append test xs ys))
    | inr e ↦ rw e (picked-append test xs ys)
  ]

  -- the calls for a node with a child, from those for its children
  abbrev around : A → (depth : ℕ) → (xs ys : List (A × ℕ × ℕ)) → List (A × ℕ × ℕ)
  around v depth xs ys = (v, 0, depth) ∷ (xs ++ ((v, 1, depth) ∷ (ys ++ ((v, 2, depth) ∷ []))))

  picked-cons :
      (test : ℕ → Bool) (v : A) (which depth : ℕ) (rest : List (A × ℕ × ℕ))
      → picked test ((v, which, depth) ∷ rest)
        ≡ (if test which then v ∷ [] else []) ++ picked test rest
  picked-cons test v which depth rest = elim (Bool-cases (test which)) [
    | inl e ↦ rw e refl
    | inr e ↦ rw e refl
  ]

  picked-around :
      (test : ℕ → Bool) (v : A) (depth : ℕ) (xs ys : List (A × ℕ × ℕ))
      → picked test (around v depth xs ys)
        ≡ (if test 0 then v ∷ [] else [])
          ++ (picked test xs
              ++ ((if test 1 then v ∷ [] else [])
                  ++ (picked test ys ++ (if test 2 then v ∷ [] else []))))
  picked-around test v depth xs ys =
      let end : List (A × ℕ × ℕ) = (v, 2, depth) ∷ [] in
      let right : List (A × ℕ × ℕ) = (v, 1, depth) ∷ (ys ++ end) in
      picked-cons test v 0 depth (xs ++ right)
      ∙ ap (λ rest. (if test 0 then v ∷ [] else []) ++ rest)
          (picked-append test xs right
            ∙ ap (λ rest. picked test xs ++ rest)
                (picked-cons test v 1 depth (ys ++ end)
                  ∙ ap (λ rest. (if test 1 then v ∷ [] else []) ++ rest)
                      (picked-append test ys end)))

  nested-around :
      (v : A) (depth : ℕ) (xs ys : List (A × ℕ × ℕ))
      → ((opened : List (A × Bool)) (more : List (A × ℕ × ℕ))
          → Nested (depth + 1) opened more
          → Nested (depth + 1) opened (xs ++ more))
      → ((opened : List (A × Bool)) (more : List (A × ℕ × ℕ))
          → Nested (depth + 1) opened more
          → Nested (depth + 1) opened (ys ++ more))
      → (opened : List (A × Bool)) (more : List (A × ℕ × ℕ)) → Nested depth opened more
      → Nested depth opened (around v depth xs ys ++ more)
  nested-around v depth xs ys on_left on_right opened more n =
      let end : List (A × ℕ × ℕ) = (v, 2, depth) ∷ [] in
      subst (Nested depth opened)
        (ap (λ rest. (v, 0, depth) ∷ rest)
          (ap (λ rest. xs ++ ((v, 1, depth) ∷ rest)) (sym (append_assoc ys end more))
            ∙ sym (append_assoc xs ((v, 1, depth) ∷ (ys ++ end)) more)))
        (enter (
          on_left ((v, false) ∷ opened) ((v, 1, depth) ∷ (ys ++ (end ++ more)))
            (turn (on_right ((v, true) ∷ opened) (end ++ more) (exit n)))))

  -- a node with a child, from what holds of its children
  around-IsTraversal :
      (h : ℕ) (l : Tree A) (v : A) (r : Tree A) (depth : ℕ) (xs ys : List (A × ℕ × ℕ))
      → childless l r ≡ false
      → IsTraversal l (depth + 1) xs
      → IsTraversal r (depth + 1) ys
      → IsTraversal (node h l v r) depth (around v depth xs ys)
  around-IsTraversal h l v r depth xs ys parent on_left on_right = record {
    first =
        picked-around (λ w. (w == 0) || (w == 3)) v depth xs ys
        ∙ ap (λ rest. v ∷ rest)
            (ap₂ (λ a b. a ++ b) on_left.first
              (append-nil (picked (λ w. (w == 0) || (w == 3)) ys) ∙ on_right.first));
    between =
        picked-around (λ w. (w == 1) || (w == 3)) v depth xs ys
        ∙ ap₂ (λ a b. a ++ (v ∷ b)) on_left.between
            (append-nil (picked (λ w. (w == 1) || (w == 3)) ys) ∙ on_right.between)
        ∙ sym (flat-append l [] (v ∷ flat r []));
    last =
        picked-around (λ w. (w == 2) || (w == 3)) v depth xs ys
        ∙ ap₂ (λ a b. a ++ (b ++ (v ∷ []))) on_left.last on_right.last;
    leafs =
        picked-around (λ w. w == 3) v depth xs ys
        ∙ ap₂ (λ a b. a ++ b) on_left.leafs (append-nil (picked (λ w. w == 3) ys) ∙ on_right.leafs)
        ∙ rw parent refl;
    nested = nested-around v depth xs ys on_left.nested on_right.nested;
  }

  -- A walk over a tree at some depth calls `visit` for each node without children once, with
  -- `which` 3, and for every other node with 0, 1 and 2: the visits with 0 or 3 are in preorder,
  -- those with 1 or 3 in order, those with 2 or 3 in postorder, and those with 3 are the leaves from
  -- the left to the right. The calls are properly nested: a call with 0 opens a node, 1 and 2 are
  -- for the innermost node that is open, first 1 and then 2, which closes it, and `depth` is
  -- at each call the depth of its node.
  pub walk-IsTraversal : (t : Tree A) (depth : ℕ) → IsTraversal t depth (walk t depth)
  unfolding walk
  walk-IsTraversal empty depth = record {
    first = refl;
    between = refl;
    last = refl;
    leafs = refl;
    nested = λ opened more n. n;
  }
  walk-IsTraversal (node h empty v empty) depth = record {
    first = refl;
    between = refl;
    last = refl;
    leafs = refl;
    nested = λ opened more n. leaf n;
  }
  walk-IsTraversal (node h empty v (node k a x b)) depth =
      around-IsTraversal h empty v (node k a x b) depth [] (walk (node k a x b) (depth + 1)) refl
        (walk-IsTraversal empty (depth + 1)) (walk-IsTraversal (node k a x b) (depth + 1))
  walk-IsTraversal (node h (node k a x b) v empty) depth =
      around-IsTraversal h (node k a x b) v empty depth (walk (node k a x b) (depth + 1)) [] refl
        (walk-IsTraversal (node k a x b) (depth + 1)) (walk-IsTraversal empty (depth + 1))
  walk-IsTraversal (node h (node k a x b) v (node j c y d)) depth =
      around-IsTraversal h (node k a x b) v (node j c y d) depth (walk (node k a x b) (depth + 1))
        (walk (node j c y d) (depth + 1)) refl (walk-IsTraversal (node k a x b) (depth + 1))
        (walk-IsTraversal (node j c y d) (depth + 1))
