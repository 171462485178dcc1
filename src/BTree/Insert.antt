-- ===== src/BTree/Insert.antt =====
-- What is put in gets its place in the sorted list, and the tree stays balanced.
use dvb_vulture.Prelude.Sign.{Sign, same, more, flip, Sign-cases, IsComparison}
use dvb_vulture.Prelude.{
  AllIn, ◌≡◌, ◌≢◌, refl, ap, sym, subst, ◌∙◌, List, [], ◌∷◌, Option, none, some, inl, inr, arith,
}
use dvb_vulture.BTree.{
  Tree, empty, node, Way, top, left_of, right_of, height_of, find, insert_at, insert,
}
use dvb_vulture.BTree.Balance.{IsAvl, IsAvlPath, plug-IsAvl, rise-IsAvl}
use dvb_vulture.BTree.InOrder.{flat, before, after, flat-plug, flat-rise}
use dvb_vulture.BTree.Order.{
  IsSorted, IsSorted-rest, pick, place, status_of, more_down, below, above, place-flat, find-pick,
}

-- the payload that a tree keeps where `e` is put in
abbrev pub kept {ℓ} : {A : Type ℓ} → A → Option A → A
kept e none = e
kept e (some v) = v

module _ {ℓ} {A : Type ℓ} (cmp : A → A → Sign) where
  insert_at-IsAvl :
      (e : A) (t : Tree A) (path : Way A)
      → IsAvl t
      → IsAvlPath path (height_of t)
      → IsAvl (insert_at cmp e t path).1
  unfolding insert_at
  insert_at-IsAvl e empty path w p =
      rise-IsAvl (node 1 empty e empty) path 0 (tt, tt, omega arith, (omega arith, omega arith))
        (omega arith, omega arith) p
  insert_at-IsAvl e (node h l v r) path w p = elim (Sign-cases (cmp v e)) [
    | inl lt ↦ rw (lt, insert_at) (insert_at-IsAvl e l (left_of h v r path) w.0 (w.1, w.2, w.3, p))
    | inr (inl eq) ↦ rw (eq, insert_at) (plug-IsAvl (node h l v r) path w p)
    | inr (inr gt) ↦
        rw (gt, insert_at) (insert_at-IsAvl e r (right_of h l v path) w.1 (w.0, w.2, w.3, p))
  ]

  insert_at-find :
      (e : A) (t : Tree A) (path : Way A)
      → (insert_at cmp e t path).0 ≡ status_of cmp (find cmp t e)
  unfolding insert_at find
  insert_at-find e empty path = refl
  insert_at-find e (node h l v r) path = elim (Sign-cases (cmp v e)) [
    | inl lt ↦ rw (lt, insert_at, find) (insert_at-find e l (left_of h v r path))
    | inr (inl eq) ↦ rw (eq, insert_at, find) refl
    | inr (inr gt) ↦ rw (gt, insert_at, find) (insert_at-find e r (right_of h l v path))
  ]

  module _ (law : IsComparison cmp) where
    insert_at-place :
        (e : A) (t : Tree A) (path : Way A)
        → IsSorted cmp (flat t (after path))
        → place cmp e (after path) ≡ e ∷ after path
        → flat (insert_at cmp e t path).1 [] ≡ before path (place cmp e (flat t (after path)))
    unfolding insert_at
    insert_at-place e empty path sorted stops =
        flat-rise (node 1 empty e empty) path ∙ ap (before path) (sym stops)
    insert_at-place e (node h l v r) path sorted stops = elim (Sign-cases (cmp v e)) [
      | inl lt ↦
          rw (lt, insert_at) (insert_at-place e l (left_of h v r path) sorted (rw (lt, place) refl))
      | inr (inl eq) ↦
          rw (eq, insert_at)
            (flat-plug (node h l v r) path
              ∙ ap (before path) (
                  sym (
                    place-flat cmp e l (v ∷ flat r (after path))
                      (below cmp law l v e (flat r (after path)) (λ n. (cc)) sorted)
                    ∙ rw (eq, place) refl)))
      | inr (inr gt) ↦
          rw (gt, insert_at)
            (insert_at-place e r (right_of h l v path)
                (IsSorted-rest cmp l (v ∷ flat r (after path)) sorted).1 stops
              ∙ ap (before path) (
                  sym (
                    place-flat cmp e l (v ∷ flat r (after path))
                      (below cmp law l v e (flat r (after path)) (λ n. (cc)) sorted)
                    ∙ rw (gt, place) refl)))
    ]

    place-AllIn :
        (P : A → Type 0) (e : A) (vs : List A) → P e → AllIn P vs → AllIn P (place cmp e vs)
    place-AllIn P e [] pe all = (pe, tt)
    place-AllIn P e (v ∷ vs) pe all = elim (Sign-cases (cmp v e)) [
      | inl lt ↦ rw (lt, place) (pe, all)
      | inr (inl eq) ↦ rw (eq, place) all
      | inr (inr gt) ↦ rw (gt, place) (all.0, place-AllIn P e vs pe all.1)
    ]

    more_all :
        (e v : A) (vs : List A)
        → cmp e v ≡ more
        → AllIn (λ w. cmp v w ≡ more) vs
        → AllIn (λ w. cmp e w ≡ more) vs
    more_all e v [] ev all = tt
    more_all e v (w ∷ vs) ev all = (more_down cmp law e v w ev all.0, more_all e v vs ev all.1)

    place-IsSorted : (e : A) (vs : List A) → IsSorted cmp vs → IsSorted cmp (place cmp e vs)
    place-IsSorted e [] sorted = (tt, tt)
    place-IsSorted e (v ∷ vs) sorted = elim (Sign-cases (cmp v e)) [
      | inl lt ↦
          let ev : cmp e v ≡ more = law.flipped v e ∙ ap flip lt in
          rw (lt, place) ((ev, more_all e v vs ev sorted.0), sorted)
      | inr (inl eq) ↦ rw (eq, place) sorted
      | inr (inr gt) ↦
          rw (gt, place)
            (place-AllIn (λ w. cmp v w ≡ more) e vs gt sorted.0, place-IsSorted e vs sorted.1)
    ]

    same_self : (e : A) → cmp e e ≡ same
    same_self e = elim (Sign-cases (cmp e e)) [
      | inl lt ↦ absurd (let f = law.flipped e e ∙ ap flip lt in cc)
      | inr (inl eq) ↦ eq
      | inr (inr gt) ↦ absurd (let f = law.flipped e e ∙ ap flip gt in cc)
    ]

    pick-place_self :
        (e : A) (vs : List A)
        → IsSorted cmp vs
        → pick cmp e (place cmp e vs) ≡ some (kept e (pick cmp e vs))
    pick-place_self e [] sorted = rw (same_self e, pick) refl
    pick-place_self e (v ∷ vs) sorted = elim (Sign-cases (cmp v e)) [
      | inl lt ↦ rw (lt, place, pick, same_self e, above cmp law v e vs lt sorted.0) refl
      | inr (inl eq) ↦
          let stays : place cmp e (v ∷ vs) ≡ v ∷ vs = rw (eq, place) refl in
          let found : pick cmp e (v ∷ vs) ≡ some v = rw (eq, pick) refl in
          ap (pick cmp e) stays ∙ found ∙ ap (λ o. some (kept e o)) (sym found)
      | inr (inr gt) ↦ rw (gt, place) (rw (gt, pick) (pick-place_self e vs sorted.1))
    ]

    pick-other : (e x : A) (vs : List A) → cmp e x ≢ same → pick cmp x (e ∷ vs) ≡ pick cmp x vs
    pick-other e x vs other = elim (Sign-cases (cmp e x)) [
      | inl lt ↦ rw (lt, pick) refl
      | inr (inl eq) ↦ absurd (other eq)
      | inr (inr gt) ↦ rw (gt, pick) refl
    ]

    pick-place_other :
        (e x : A) (vs : List A) → cmp e x ≢ same → pick cmp x (place cmp e vs) ≡ pick cmp x vs
    pick-place_other e x [] other = pick-other e x [] other
    pick-place_other e x (v ∷ vs) other = elim (Sign-cases (cmp v e)) [
      | inl lt ↦ rw (lt, place) (pick-other e x (v ∷ vs) other)
      | inr (inl eq) ↦ rw (eq, place) refl
      | inr (inr gt) ↦
          rw (gt, place)
            (elim (Sign-cases (cmp v x)) [
              | inl lt' ↦ rw (lt', pick) (pick-place_other e x vs other)
              | inr (inl eq') ↦ rw (eq', pick) refl
              | inr (inr gt') ↦ rw (gt', pick) (pick-place_other e x vs other)
            ])
    ]

    -- Into an AVL tree that is sorted, `btreeNodeInsert` puts the payload in its place in the sorted
    -- list of the payloads, unless one that compares the same is there. It returns 2 in that case and
    -- 0 in the other, and the tree is an AVL tree, and sorted, afterwards.
    pub insert-place :
        (t : Tree A) (e : A)
        → IsAvl t
        → IsSorted cmp (flat t [])
        → (flat (insert cmp t e).1 [] ≡ place cmp e (flat t []))
          × ((insert cmp t e).0 ≡ status_of cmp (pick cmp e (flat t [])))
          × IsAvl (insert cmp t e).1
          × IsSorted cmp (flat (insert cmp t e).1 [])
    unfolding insert
    insert-place t e avl sorted =
        let placed = insert_at-place e t top sorted refl in
        (
          placed,
          insert_at-find e t top ∙ ap (status_of cmp) (find-pick cmp law t e [] sorted refl),
          insert_at-IsAvl e t top avl tt,
          subst (IsSorted cmp) (sym placed) (place-IsSorted e (flat t []) sorted),
        )

    -- In a sorted AVL tree, after `btreeNodeInsert` a search for the payload that was put in finds
    -- it, or the one that was there and compares the same, and a search for any payload that it
    -- does not compare the same as finds what it found before.
    pub find-insert :
        (t : Tree A) (e : A)
        → IsAvl t
        → IsSorted cmp (flat t [])
        → (find cmp (insert cmp t e).1 e ≡ some (kept e (find cmp t e)))
          × ((x : A) → cmp e x ≢ same → find cmp (insert cmp t e).1 x ≡ find cmp t x)
    find-insert t e avl sorted =
        let put = insert-place t e avl sorted in
        let seen : (x : A) → find cmp (insert cmp t e).1 x ≡ pick cmp x (place cmp e (flat t [])) =
          λ x. find-pick cmp law (insert cmp t e).1 x [] put.3 refl ∙ ap (pick cmp x) put.0 in
        (
          seen e
              ∙ pick-place_self e (flat t []) sorted
              ∙ ap (λ found. some (kept e found)) (sym (find-pick cmp law t e [] sorted refl)),
          λ x other.
              seen x
              ∙ pick-place_other e x (flat t []) other
              ∙ sym (find-pick cmp law t x [] sorted refl),
        )
