-- ===== src/BTree/Balance.antt =====
-- The tree stays an AVL tree, whatever is put in or taken out.
use Prim.Native.Nat.{max}
use dvb_vulture.Prelude.{
  ℕ, ◌+◌, ◌≤◌, ◌<◌, ◌≡◌, refl, sym, subst, false, ltb, ◌==◌, arith, inl, inr, Bool-cases, ltb→lt,
  ltb→le, ==_iff,
}
use dvb_vulture.BTree.{
  Tree, empty, node, Way, top, left_of, right_of, height_of, plug, height_fix, balance_left,
  balance_right, round, rise,
}

-- at most one apart
abbrev pub Near : ℕ → ℕ → Type 0
Near a b = (a ≤ b + 1) × (b ≤ a + 1)

-- What a change of one height by one leaves of the relation between the heights at a node.
abbrev Loose : (h hl hr : ℕ) → Type 0
Loose h hl hr =
    (hl ≤ hr + 2)
    × (hr ≤ hl + 2)
    × (max hl hr ≤ h)
    × (h ≤ max hl hr + 2)
    × (h ≤ hl + 3)
    × (h ≤ hr + 3)

module _ {ℓ} {A : Type ℓ} where
  -- The height that is noted is the height, and the subtrees' heights are at most one apart.
  abbrev pub IsAvl : Tree A → Type 0
  IsAvl empty = Unit {0}
  IsAvl (node h l v r) =
      IsAvl l
      × IsAvl r
      × (h ≡ max (height_of l) (height_of r) + 1)
      × Near (height_of l) (height_of r)

  -- So with a tree of height `k` at the end of the path.
  abbrev pub IsAvlPath : Way A → (k : ℕ) → Type 0
  IsAvlPath top k = Unit {0}
  IsAvlPath (left_of h v r path) k =
      IsAvl r × (h ≡ max k (height_of r) + 1) × Near k (height_of r) × IsAvlPath path h
  IsAvlPath (right_of h l v path) k =
      IsAvl l × (h ≡ max (height_of l) k + 1) × Near (height_of l) k × IsAvlPath path h

  pub plug-IsAvl :
      (t : Tree A) (path : Way A) → IsAvl t → IsAvlPath path (height_of t) → IsAvl (plug t path)
  unfolding plug
  plug-IsAvl t top w p = w
  plug-IsAvl t (left_of h v r path) w p = plug-IsAvl (node h t v r) path (w, p.0, p.1, p.2) p.3
  plug-IsAvl t (right_of h l v path) w p = plug-IsAvl (node h l v t) path (p.0, w, p.1, p.2) p.3

  -- A subtree that took the place of a tree of height `h`, and its own height near it.
  abbrev Settled : (h : ℕ) → Tree A → Type 0
  Settled h t = IsAvl t × Near h (height_of t)

  fixed :
      (l : Tree A) (v : A) (r : Tree A)
      → IsAvl l
      → IsAvl r
      → Near (height_of l) (height_of r)
      → IsAvl (height_fix l v r)
  fixed l v r wl wr near = (wl, wr, refl, near)

  balance_right-IsAvl :
      (h : ℕ) (l : Tree A) (v : A) (r : Tree A)
      → IsAvl l
      → IsAvl r
      → height_of l ≡ height_of r + 2
      → height_of l ≤ h
      → h ≤ height_of l + 1
      → Settled h (balance_right h l v r)
  unfolding balance_right
  balance_right-IsAvl h empty v r wl wr two low high = absurd (omega arith)
  balance_right-IsAvl h (node k a x empty) v r wl wr two low high = (
    fixed a x (height_fix empty v r) wl.0 (fixed empty v r tt wr (omega arith, omega arith))
        (omega arith, omega arith),
    (omega arith, omega arith),
  )
  balance_right-IsAvl h (node k empty x (node j b y c)) v r wl wr two low high = (
    fixed (height_fix empty x b) y (height_fix c v r)
        (fixed empty x b tt wl.1.0 (omega arith, omega arith))
        (fixed c v r wl.1.1 wr (omega arith, omega arith)) (omega arith, omega arith),
    (omega arith, omega arith),
  )
  balance_right-IsAvl h (node k (node i a' x' b') x (node j b y c)) v r wl wr two low high =
      elim (Bool-cases (ltb i j)) [
        | inl inner ↦
            let lt : i < j = ltb→lt i j inner in
            rw inner (
              fixed (height_fix (node i a' x' b') x b) y (height_fix c v r)
                  (fixed (node i a' x' b') x b wl.0 wl.1.0 (omega arith, omega arith))
                  (fixed c v r wl.1.1 wr (omega arith, omega arith)) (omega arith, omega arith),
              (omega arith, omega arith),
            )
        | inr outer ↦
            let le : j ≤ i = ltb→le i j outer in
            rw outer (
              fixed (node i a' x' b') x (height_fix (node j b y c) v r) wl.0
                  (fixed (node j b y c) v r wl.1 wr (omega arith, omega arith))
                  (omega arith, omega arith),
              (omega arith, omega arith),
            )
      ]

  balance_left-IsAvl :
      (h : ℕ) (l : Tree A) (v : A) (r : Tree A)
      → IsAvl l
      → IsAvl r
      → height_of r ≡ height_of l + 2
      → height_of r ≤ h
      → h ≤ height_of r + 1
      → Settled h (balance_left h l v r)
  unfolding balance_left
  balance_left-IsAvl h l v empty wl wr two low high = absurd (omega arith)
  balance_left-IsAvl h l v (node k empty x c) wl wr two low high = (
    fixed (height_fix l v empty) x c (fixed l v empty wl tt (omega arith, omega arith)) wr.1
        (omega arith, omega arith),
    (omega arith, omega arith),
  )
  balance_left-IsAvl h l v (node k (node j b y c) x empty) wl wr two low high = (
    fixed (height_fix l v b) y (height_fix c x empty)
        (fixed l v b wl wr.0.0 (omega arith, omega arith))
        (fixed c x empty wr.0.1 tt (omega arith, omega arith)) (omega arith, omega arith),
    (omega arith, omega arith),
  )
  balance_left-IsAvl h l v (node k (node j b y c) x (node i a' x' b')) wl wr two low high =
      elim (Bool-cases (ltb i j)) [
        | inl inner ↦
            let lt : i < j = ltb→lt i j inner in
            rw inner (
              fixed (height_fix l v b) y (height_fix c x (node i a' x' b'))
                  (fixed l v b wl wr.0.0 (omega arith, omega arith))
                  (fixed c x (node i a' x' b') wr.0.1 wr.1 (omega arith, omega arith))
                  (omega arith, omega arith),
              (omega arith, omega arith),
            )
        | inr outer ↦
            let le : j ≤ i = ltb→le i j outer in
            rw outer (
              fixed (height_fix l v (node j b y c)) x (node i a' x' b')
                  (fixed l v (node j b y c) wl wr.0 (omega arith, omega arith)) wr.1
                  (omega arith, omega arith),
              (omega arith, omega arith),
            )
      ]

  round-Settled :
      (h : ℕ) (l : Tree A) (v : A) (r : Tree A)
      → IsAvl l
      → IsAvl r
      → Loose h (height_of l) (height_of r)
      → Settled h (round h l v r).0 × ((round h l v r).1 ≡ false → height_of (round h l v r).0 ≡ h)
  unfolding round
  round-Settled h l v r wl wr loose = elim (Bool-cases (ltb (height_of r + 1) (height_of l))) [
    | inl left ↦
        let lt : height_of r + 1 < height_of l = ltb→lt (height_of r + 1) (height_of l) left in
        rw left
          (balance_right-IsAvl h l v r wl wr (omega arith) (omega arith) (omega arith), λ e. (cc))
    | inr no_left ↦
        let le : height_of l ≤ height_of r + 1 = ltb→le (height_of r + 1) (height_of l) no_left in
        rw no_left (elim (Bool-cases (ltb (height_of l + 1) (height_of r))) [
          | inl right ↦
              let lt : height_of l + 1 < height_of r =
                ltb→lt (height_of l + 1) (height_of r) right in
              rw right (
                balance_left-IsAvl h l v r wl wr (omega arith) (omega arith) (omega arith),
                λ e. (cc),
              )
          | inr no_right ↦
              let le' : height_of r ≤ height_of l + 1 =
                ltb→le (height_of l + 1) (height_of r) no_right in
              rw no_right (elim (Bool-cases (h == max (height_of l) (height_of r) + 1)) [
                | inl kept ↦
                    let e : h ≡ max (height_of l) (height_of r) + 1 = (==_iff _ _).0 kept in
                    rw kept (((wl, wr, e, (le, le')), (omega arith, omega arith)), λ _. refl)
                | inr changed ↦
                    rw changed
                      ((fixed l v r wl wr (le, le'), (omega arith, omega arith)), λ e. (cc))
              ])
        ])
  ]

  -- The walk up repairs the tree, where the subtree's height has changed by one at most.
  pub rise-IsAvl :
      (t : Tree A) (path : Way A) (k : ℕ)
      → IsAvl t
      → Near k (height_of t)
      → IsAvlPath path k
      → IsAvl (rise t path)
  unfolding rise
  rise-IsAvl t top k w near p = w
  rise-IsAvl t (left_of h v r path) k w near p =
      let s =
        round-Settled h t v r w p.0
          (omega arith, omega arith, omega arith, omega arith, omega arith, omega arith) in
      elim (Bool-cases (round h t v r).1) [
        | inl up ↦ rw up (rise-IsAvl (round h t v r).0 path h s.0.0 s.0.1 p.3)
        | inr stop ↦
            rw stop (
              plug-IsAvl (round h t v r).0 path s.0.0 (subst (IsAvlPath path) (sym (s.1 stop)) p.3))
      ]
  rise-IsAvl t (right_of h l v path) k w near p =
      let s =
        round-Settled h l v t p.0 w
          (omega arith, omega arith, omega arith, omega arith, omega arith, omega arith) in
      elim (Bool-cases (round h l v t).1) [
        | inl up ↦ rw up (rise-IsAvl (round h l v t).0 path h s.0.0 s.0.1 p.3)
        | inr stop ↦
            rw stop (
              plug-IsAvl (round h l v t).0 path s.0.0 (subst (IsAvlPath path) (sym (s.1 stop)) p.3))
      ]
