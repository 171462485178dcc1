-- ===== src/BTree/InOrder.antt =====
-- The payloads of a tree in order, which no rotation changes.
use dvb_vulture.Prelude.{
  ◌++◌, ℕ, ◌+◌, ◌≡◌, refl, ap, ◌∙◌, List, [], ◌∷◌, ltb, ◌==◌, Bool-cases, inl, inr,
}
use dvb_vulture.BTree.{
  Tree, empty, node, Way, top, left_of, right_of, height_of, plug, rotate_left, rotate_right,
  leans_left, leans_right, balance_left, balance_right, round, rise,
}
use Prim.Native.Nat.{max}

module _ {ℓ} {A : Type ℓ} where
  -- the payloads, from the left to the right, and then `acc`
  abbrev pub flat : Tree A → List A → List A
  flat empty acc = acc
  flat (node h l v r) acc = flat l (v ∷ flat r acc)

  -- those on the left of a path's end, in front of `acc`
  abbrev pub before : Way A → List A → List A
  before top acc = acc
  before (left_of h v r path) acc = before path acc
  before (right_of h l v path) acc = before path (flat l (v ∷ acc))

  -- those on its right
  abbrev pub after : Way A → List A
  after top = []
  after (left_of h v r path) = v ∷ flat r (after path)
  after (right_of h l v path) = after path

  pub flat-append : (t : Tree A) (xs ys : List A) → flat t (xs ++ ys) ≡ flat t xs ++ ys
  flat-append empty xs ys = refl
  flat-append (node h l v r) xs ys =
      ap (λ rest. flat l (v ∷ rest)) (flat-append r xs ys) ∙ flat-append l (v ∷ flat r xs) ys

  flat-rotate_left : (t : Tree A) (acc : List A) → flat (rotate_left t) acc ≡ flat t acc
  flat-rotate_left empty acc = refl
  flat-rotate_left (node h a x empty) acc = refl
  flat-rotate_left (node h a x (node k b y c)) acc = refl

  flat-rotate_right : (t : Tree A) (acc : List A) → flat (rotate_right t) acc ≡ flat t acc
  flat-rotate_right empty acc = refl
  flat-rotate_right (node h empty y c) acc = refl
  flat-rotate_right (node h (node k a x b) y c) acc = refl

  flat-balance_right :
      (h : ℕ) (l : Tree A) (v : A) (r : Tree A) (acc : List A)
      → flat (balance_right h l v r) acc ≡ flat (node h l v r) acc
  unfolding balance_right
  flat-balance_right h l v r acc = elim (Bool-cases (leans_right l)) [
    | inl e ↦
        rw e
          (flat-rotate_right (node h (rotate_left l) v r) acc ∙ flat-rotate_left l (v ∷ flat r acc))
    | inr e ↦ rw e (flat-rotate_right (node h l v r) acc)
  ]

  flat-balance_left :
      (h : ℕ) (l : Tree A) (v : A) (r : Tree A) (acc : List A)
      → flat (balance_left h l v r) acc ≡ flat (node h l v r) acc
  unfolding balance_left
  flat-balance_left h l v r acc = elim (Bool-cases (leans_left r)) [
    | inl e ↦ rw e (
        flat-rotate_left (node h l v (rotate_right r)) acc
        ∙ ap (λ rest. flat l (v ∷ rest)) (flat-rotate_right r acc))
    | inr e ↦ rw e (flat-rotate_left (node h l v r) acc)
  ]

  flat-round :
      (h : ℕ) (l : Tree A) (v : A) (r : Tree A) (acc : List A)
      → flat (round h l v r).0 acc ≡ flat (node h l v r) acc
  unfolding round
  flat-round h l v r acc = elim (Bool-cases (ltb (height_of r + 1) (height_of l))) [
    | inl e ↦ rw e (flat-balance_right h l v r acc)
    | inr e ↦ elim (Bool-cases (ltb (height_of l + 1) (height_of r))) [
      | inl f ↦ rw (e, f) (flat-balance_left h l v r acc)
      | inr f ↦ elim (Bool-cases (h == max (height_of l) (height_of r) + 1)) [
        | inl g ↦ rw (e, f, g) refl
        | inr g ↦ rw (e, f, g) refl
      ]
    ]
  ]

  pub flat-plug :
      (t : Tree A) (path : Way A) → flat (plug t path) [] ≡ before path (flat t (after path))
  unfolding plug
  flat-plug t top = refl
  flat-plug t (left_of h v r path) = flat-plug (node h t v r) path
  flat-plug t (right_of h l v path) = flat-plug (node h l v t) path

  pub flat-rise :
      (t : Tree A) (path : Way A) → flat (rise t path) [] ≡ before path (flat t (after path))
  unfolding rise
  flat-rise t top = refl
  flat-rise t (left_of h v r path) = elim (Bool-cases (round h t v r).1) [
    | inl up ↦
        rw up
          (flat-rise (round h t v r).0 path ∙ ap (before path) (flat-round h t v r (after path)))
    | inr stop ↦
        rw stop
          (flat-plug (round h t v r).0 path ∙ ap (before path) (flat-round h t v r (after path)))
  ]
  flat-rise t (right_of h l v path) = elim (Bool-cases (round h l v t).1) [
    | inl up ↦
        rw up
          (flat-rise (round h l v t).0 path ∙ ap (before path) (flat-round h l v t (after path)))
    | inr stop ↦
        rw stop
          (flat-plug (round h l v t).0 path ∙ ap (before path) (flat-round h l v t (after path)))
  ]
