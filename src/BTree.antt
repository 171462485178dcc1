-- ===== src/BTree.antt =====
-- common/btre.c: the balanced binary tree.
--
-- A tree is data: the root pointer is the tree, and the `Parent` pointers are the path that leads
-- from a node up to the root, each step of it with what hangs there beside the child that it was
-- reached from. A node's payload is of any type. A comparison function gives a sign; below 0 is to
-- the left, at Child[0]. An element that is removed is known by its address, which a test on
-- payloads stands for. No argument is NULL but an empty tree.
pub mod Balance
pub mod InOrder
pub mod Visits
pub mod Order
pub mod Insert
pub mod Remove
pub mod Stream
pub mod Tests
use Prim.Native.Nat.{max}
use dvb_vulture.Prelude.Sign.{Sign, less, same, more}
use dvb_vulture.Prelude.{
  ℕ, ◌+◌, List, [], ◌∷◌, ◌++◌, Option, none, some, Bool, true, false, ltb, ◌==◌, if◌then◌else◌,
}

-- `BTreeNode`
pub data Tree {ℓ} (A : Type ℓ) : Type ℓ where
  empty : Tree A
  node : (height : ℕ) → (left : Tree A) → A → (right : Tree A) → Tree A

-- The way up: the height, payload and other child of each node above.
pub data Way {ℓ} (A : Type ℓ) : Type ℓ where
  top : Way A
  left_of : (height : ℕ) → A → (right : Tree A) → Way A → Way A
  right_of : (height : ℕ) → (left : Tree A) → A → Way A → Way A

module _ {ℓ} {A : Type ℓ} where
  abbrev pub height_of : Tree A → ℕ
  height_of empty = 0
  height_of (node h l v r) = h

  -- the whole tree, with this one at the end of the path
  pub plug : Tree A → Way A → Tree A
  plug t top = t
  plug t (left_of h v r path) = plug (node h t v r) path
  plug t (right_of h l v path) = plug (node h l v t) path

  -- a node whose height `btree_node_height_fix` has derived
  abbrev pub height_fix : Tree A → A → Tree A → Tree A
  height_fix l v r = node (max (height_of l) (height_of r) + 1) l v r

  -- `btree_rot` with i == 0; Child[1] is not NULL
  abbrev pub rotate_left : Tree A → Tree A
  rotate_left empty = empty
  rotate_left (node h a x empty) = node h a x empty
  rotate_left (node h a x (node k b y c)) = height_fix (height_fix a x b) y c

  -- `btree_rot` with i == 1
  abbrev pub rotate_right : Tree A → Tree A
  rotate_right empty = empty
  rotate_right (node h empty y c) = node h empty y c
  rotate_right (node h (node k a x b) y c) = height_fix a x (height_fix b y c)

  -- the tests of `btree_node_balance` on Child[0], with dir == 1, and on Child[1], with dir == 0
  abbrev pub leans_right : Tree A → Bool
  leans_right empty = false
  leans_right (node h l v empty) = false
  leans_right (node h empty v (node k a x b)) = true
  leans_right (node h (node j a' x' b') v (node k a x b)) = ltb j k

  abbrev pub leans_left : Tree A → Bool
  leans_left empty = false
  leans_left (node h empty v r) = false
  leans_left (node h (node k a x b) v empty) = true
  leans_left (node h (node k a x b) v (node j a' x' b')) = ltb j k

  -- `btree_node_balance` of a node with these parts, dir == 1: the left child is too high
  pub balance_right : (height : ℕ) → Tree A → A → Tree A → Tree A
  balance_right h l v r = rotate_right (node h (if leans_right l then rotate_left l else l) v r)

  -- dir == 0
  pub balance_left : (height : ℕ) → Tree A → A → Tree A → Tree A
  balance_left h l v r = rotate_left (node h l v (if leans_left r then rotate_right r else r))

  -- A round of `btree_node_height`: the subtree at `prnt` afterwards, and whether to go up. The fix
  -- of the height behind the rotations derives what they have derived.
  pub round : (height : ℕ) → Tree A → A → Tree A → Tree A × Bool
  round h l v r =
      if ltb (height_of r + 1) (height_of l)
      then (balance_right h l v r, true)
      else if ltb (height_of l + 1) (height_of r)
      then (balance_left h l v r, true)
      else if h == max (height_of l) (height_of r) + 1
      then (node h l v r, false)
      else (height_fix l v r, true)

  -- `btree_node_height`, from the parent of a subtree that has changed
  pub rise : Tree A → Way A → Tree A
  rise t top = t
  rise t (left_of h v r path) =
      let (t', up) = round h t v r in if up then rise t' path else plug t' path
  rise t (right_of h l v path) =
      let (t', up) = round h l v t in if up then rise t' path else plug t' path

  -- what `btree_node_pre` leaves and finds: the node before, without its own subtree
  pub take_pre : Tree A → Way A → Option (Tree A × A)
  take_pre empty path = none
  take_pre (node h l v empty) path = some (rise l path, v)
  take_pre (node h l v (node k a x b)) path = take_pre (node k a x b) (right_of h l v path)

  -- the payload of `e` replaced, where `e` is
  pub put_at : (is_e : A → Bool) → A → Tree A → Tree A
  put_at is_e w empty = empty
  put_at is_e w (node h l v r) =
      node h (put_at is_e w l) (if is_e v then w else v) (put_at is_e w r)

  -- `btreeNodeRemove`, of the node with these parts at the end of the path
  pub remove : (is_e : A → Bool) → (height : ℕ) → Tree A → A → Tree A → Way A → Tree A
  remove is_e h empty v r path = rise r path
  remove is_e h (node j a x b) v empty path = rise (node j a x b) path
  remove is_e h (node j a x b) v (node k c y d) path =
      elim (take_pre (node j a x b) (left_of h v (node k c y d) path)) [
        | none ↦ plug (node h (node j a x b) v (node k c y d)) path
        | some (rest, tmp) ↦ put_at is_e tmp rest
      ]

  module _ (cmp : A → A → Sign) where
    -- `btreeNodeFind`: the payload of the node
    pub find : Tree A → A → Option A
    find empty e = none
    find (node h l v r) e = elim (cmp v e) [ less ↦ find l e | same ↦ some v | more ↦ find r e ]

    -- `btreeNodeInsert` below the end of the path: its status and the tree
    pub insert_at : A → Tree A → Way A → ℕ × Tree A
    insert_at e empty path = (0, rise (node 1 empty e empty) path)
    insert_at e (node h l v r) path = elim (cmp v e) [
      | less ↦ insert_at e l (left_of h v r path)
      | same ↦ (2, plug (node h l v r) path)
      | more ↦ insert_at e r (right_of h l v path)
    ]

    pub insert : Tree A → A → ℕ × Tree A
    insert t e = insert_at e t top

    -- `btreeNodeGetOrIns`: the payload of the node that is returned, and the tree
    pub get_or_ins : (memory : Bool) → Tree A → A → Option A × Tree A
    get_or_ins memory t cv = elim (find t cv) [
      | some v ↦ (some v, t)
      | none ↦ if memory then (some cv, (insert t cv).1) else (none, t)
    ]

  -- `btree_walk`: the calls of `visit`, each with its `which` and `depth`
  pub walk : Tree A → (depth : ℕ) → List (A × ℕ × ℕ)
  walk empty depth = []
  walk (node h empty v empty) depth = (v, 3, depth) ∷ []
  walk (node h (node k a x b) v empty) depth =
      (v, 0, depth) ∷ (walk (node k a x b) (depth + 1) ++ ((v, 1, depth) ∷ (v, 2, depth) ∷ []))
  walk (node h empty v (node k a x b)) depth =
      (v, 0, depth) ∷ (v, 1, depth) ∷ (walk (node k a x b) (depth + 1) ++ ((v, 2, depth) ∷ []))
  walk (node h (node k a x b) v (node j c y d)) depth =
      (v, 0, depth)
      ∷ (walk (node k a x b) (depth + 1)
          ++ ((v, 1, depth) ∷ (walk (node j c y d) (depth + 1) ++ ((v, 2, depth) ∷ []))))
