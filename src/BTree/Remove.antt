-- ===== src/BTree/Remove.antt =====
-- What is removed is gone from the list of the payloads, the others stay, and the tree is balanced.
use dvb_vulture.Prelude.{
  AllIn, ℕ, ◌≡◌, refl, ap, sym, subst, ◌∙◌, List, [], ◌∷◌, ◌++◌, map, some, Bool, true, false,
  if◌then◌else◌, arith,
}
use dvb_vulture.BTree.{
  Tree, empty, node, Way, top, left_of, right_of, height_of, rise, take_pre, put_at, remove,
}
use dvb_vulture.BTree.Balance.{IsAvl, IsAvlPath, rise-IsAvl}
use dvb_vulture.BTree.InOrder.{flat, flat-append, before, after, flat-rise}

module _ {ℓ} {A : Type ℓ} where
  before-append : (path : Way A) (xs ys : List A) → before path (xs ++ ys) ≡ before path xs ++ ys
  before-append top xs ys = refl
  before-append (left_of h v r path) xs ys = before-append path xs ys
  before-append (right_of h l v path) xs ys =
      ap (before path) (flat-append l (v ∷ xs) ys) ∙ before-append path (flat l (v ∷ xs)) ys

  -- the node before is found, its payload was the last, and what is left is a balanced tree of the
  -- others
  abbrev Taken : Tree A → Way A → Type ℓ
  Taken t path =
      (rest : Tree A) × (w : A) × (front : List A) × (take_pre t path ≡ some (rest, w))
      × ((acc : List A) → flat t acc ≡ front ++ (w ∷ acc))
      × (flat rest [] ≡ before path (front ++ after path))
      × IsAvl rest

  take_pre-Taken :
      (h : ℕ) (l : Tree A) (v : A) (r : Tree A) (path : Way A)
      → IsAvl (node h l v r)
      → IsAvlPath path h
      → Taken (node h l v r) path
  unfolding take_pre
  take_pre-Taken h l v empty path w p = (
    rise l path,
    v,
    flat l [],
    refl,
    λ acc. flat-append l [] (v ∷ acc),
    flat-rise l path ∙ ap (before path) (flat-append l [] (after path)),
    rise-IsAvl l path h w.0 (omega arith, omega arith) p,
  )
  take_pre-Taken h l v (node k a x b) path w p =
      let t = take_pre-Taken k a x b (right_of h l v path) w.1 (w.0, w.2, w.3, p) in
      (
        t.0,
        t.1,
        flat l (v ∷ t.2),
        t.3,
        λ acc. ap (λ rest. flat l (v ∷ rest)) (t.4 acc) ∙ flat-append l (v ∷ t.2) (t.1 ∷ acc),
        t.5 ∙ ap (before path) (flat-append l (v ∷ t.2) (after path)),
        t.6,
      )

  module _ (is_e : A → Bool) (w : A) where
    abbrev other_or : A → A
    other_or v = if is_e v then w else v

    put_at-height : (t : Tree A) → height_of (put_at is_e w t) ≡ height_of t
    unfolding put_at
    put_at-height empty = refl
    put_at-height (node h l v r) = refl

    put_at-IsAvl : (t : Tree A) → IsAvl t → IsAvl (put_at is_e w t)
    unfolding put_at
    put_at-IsAvl empty avl = avl
    put_at-IsAvl (node h l v r) avl =
        rw (put_at-height l, put_at-height r)
          (put_at-IsAvl l avl.0, put_at-IsAvl r avl.1, avl.2, avl.3)

    put_at-map :
        (t : Tree A) (acc : List A)
        → flat (put_at is_e w t) (map other_or acc) ≡ map other_or (flat t acc)
    unfolding put_at
    put_at-map empty acc = refl
    put_at-map (node h l v r) acc =
        ap (λ rest. flat (put_at is_e w l) (other_or v ∷ rest)) (put_at-map r acc)
        ∙ put_at-map l (v ∷ flat r acc)

    map-others : (xs : List A) → AllIn (λ a. is_e a ≡ false) xs → map other_or xs ≡ xs
    map-others [] all = refl
    map-others (x ∷ xs) all = rw (all.0, map) (ap (λ rest. x ∷ rest) (map-others xs all.1))

    -- where `e` stands between others
    map-between :
        (xs : List A) (v : A) (ys : List A)
        → AllIn (λ a. is_e a ≡ false) (xs ++ (w ∷ ys))
        → is_e v ≡ true
        → map other_or (xs ++ (v ∷ ys)) ≡ xs ++ (w ∷ ys)
    map-between [] v ys all e = rw e (ap (λ rest. w ∷ rest) (map-others ys all.1))
    map-between (x ∷ xs) v ys all e = rw all.0 (ap (λ rest. x ∷ rest) (map-between xs v ys all.1 e))

  -- `btreeNodeRemove` of the node with these parts, anywhere in an AVL tree: where the node is told
  -- from all others by its address, the payloads afterwards are those of the others, in their
  -- order, and the tree is an AVL tree again.
  pub remove-others :
      (is_e : A → Bool) (h : ℕ) (l : Tree A) (v : A) (r : Tree A) (path : Way A)
      → IsAvl (node h l v r)
      → IsAvlPath path h
      → is_e v ≡ true
      → AllIn (λ a. is_e a ≡ false) (before path (flat l (flat r (after path))))
      → (flat (remove is_e h l v r path) [] ≡ before path (flat l (flat r (after path))))
        × IsAvl (remove is_e h l v r path)
  unfolding remove
  remove-others is_e h empty v r path avl p e others =
      (flat-rise r path, rise-IsAvl r path h avl.1 (omega arith, omega arith) p)
  remove-others is_e h (node j a x b) v empty path avl p e others = (
    flat-rise (node j a x b) path,
    rise-IsAvl (node j a x b) path h avl.0 (omega arith, omega arith) p,
  )
  remove-others is_e h (node j a x b) v (node k c y d) path avl p e others =
      let l : Tree A = node j a x b in
      let r : Tree A = node k c y d in
      let t = take_pre-Taken j a x b (left_of h v r path) avl.0 (avl.1, avl.2, avl.3, p) in
      let tail = flat r (after path) in
      let kept : before path (flat l tail) ≡ before path t.2 ++ (t.1 ∷ tail) =
        ap (before path) (t.4 tail) ∙ before-append path t.2 (t.1 ∷ tail) in
      rw (t.3, remove)
        (
          put_at-map is_e t.1 t.0 []
              ∙ ap (map (other_or is_e t.1)) (t.5 ∙ before-append path t.2 (v ∷ tail))
              ∙ map-between is_e t.1 (before path t.2) v tail
                  (subst (AllIn (λ a. is_e a ≡ false)) kept others) e
              ∙ sym kept,
          put_at-IsAvl is_e t.1 t.0 t.6,
        )
