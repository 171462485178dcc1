-- ===== src/BTree/Stream.antt =====
-- common/btre.c: a tree as a byte stream, written before its children and read the same way.
--
-- The callbacks that write, measure and read a payload are parameters, and so is the file: what is
-- written to it is a list of bytes, and what is read from it is the list of the bytes to come. A
-- node that has been read has no children yet.
pub mod RoundTrip
pub mod Tests
use dvb_vulture.Prelude.{
  ℕ, zero, suc, ◌+◌, ◌%◌, ◌^◌, ◌≤◌, ◌<◌, ◌≡◌, refl, List, [], ◌∷◌, ◌++◌, length, Option, none, some,
  Bool, true, false, ◌==◌, if◌then◌else◌, arith, inl, inr, Bool-cases, Option-cases,
}
use dvb_vulture.BTree.{Tree, empty, node, height_fix}

-- `FID_NULL` and `FID_VALID`
abbrev pub fid_null : ℕ
fid_null = 48

abbrev pub fid_valid : ℕ
fid_valid = 88

-- the tree that has been read, whether that has failed, and what is left in the file
pub record Reading {ℓ} (A : Type ℓ) : Type ℓ where
  pub tree : Tree A
  pub bad : Bool
  pub rest : List ℕ

abbrev pub reading {ℓ} : {A : Type ℓ} → Tree A → Bool → List ℕ → Reading A
reading t b file = record { tree = t; bad = b; rest = file }

module _ {ℓ} {A : Type ℓ} where
  -- `btreeWrite`: what has been written, and whether a callback has failed
  pub write : (put : A → List ℕ × Bool) → Tree A → List ℕ × Bool
  write put empty = (fid_null ∷ [], false)
  write put (node h l v r) =
      let (bytes, bad) = put v in
      let (left, left_bad) = write put l in
      let (right, right_bad) = write put r in
      if bad
      then (fid_valid ∷ bytes, true)
      else if left_bad
      then (fid_valid ∷ (bytes ++ left), true)
      else (fid_valid ∷ (bytes ++ (left ++ right)), right_bad)

  -- `btreeWriteSize`
  pub write_size : (size : A → ℕ) → Tree A → ℕ
  write_size size empty = 1
  write_size size (node h l v r) = (1 + size v + write_size size l + write_size size r) % 2 ^ 64

  -- `btree_read`, which calls itself `fuel` deep at most
  pub read_tree : (get : List ℕ → Option A × List ℕ) → (fuel : ℕ) → List ℕ → Option (Reading A)
  read_tree get zero file = none
  read_tree get (suc fuel) [] = some (reading empty true [])
  read_tree get (suc fuel) (id ∷ file) = elim (id == fid_null) [
    | true ↦ some (reading empty false file)
    | false ↦ elim (id == fid_valid) [
      | false ↦ some (reading empty true file)
      | true ↦
          let (node_read, rest) = get file in
          elim node_read [
            | none ↦ some (reading empty true rest)
            | some v ↦ elim (read_tree get fuel rest) [
              | none ↦ none
              | some l ↦ elim l.bad [
                | true ↦ some (reading (height_fix l.tree v empty) true l.rest)
                | false ↦ elim (read_tree get fuel l.rest) [
                  | none ↦ none
                  | some r ↦ some (reading (height_fix l.tree v r.tree) r.bad r.rest)
                ]
              ]
            ]
          ]
    ]
  ]

  -- `btreeRead`
  pub read : (get : List ℕ → Option A × List ℕ) → List ℕ → Option (Reading A)
  read get file = read_tree get (length file + 1) file

  -- To read never leaves more in the file than there was.
  abbrev pub Consumes : (get : List ℕ → Option A × List ℕ) → Type 0
  Consumes get = (file : List ℕ) → length (get file).1 ≤ length file

  -- enough fuel
  enough :
      (get : List ℕ → Option A × List ℕ) (fuel : ℕ) (file : List ℕ)
      → Consumes get
      → length file < fuel
      → (r : Reading A) × (read_tree get fuel file ≡ some r) × (length r.rest ≤ length file)
  unfolding read_tree
  enough get zero file consumes lt = absurd (omega arith)
  enough get (suc fuel) [] consumes lt = (reading empty true [], refl, omega arith)
  enough get (suc fuel) (id ∷ file) consumes lt = elim (Bool-cases (id == fid_null)) [
    | inl null ↦ (reading empty false file, rw (null, read_tree) refl, omega arith)
    | inr other ↦ elim (Bool-cases (id == fid_valid)) [
      | inr bad ↦ (reading empty true file, rw (other, bad, read_tree) refl, omega arith)
      | inl valid ↦
          let left = enough get fuel (get file).1 consumes (omega (arith, consumes file)) in
          let right = enough get fuel left.0.rest consumes (omega (arith, consumes file, left.2)) in
          elim (Option-cases (get file).0) [
            | inl gone ↦ (
              reading empty true (get file).1,
              rw (other, valid, gone, read_tree) refl,
              omega (arith, consumes file),
            )
            | inr (v, found) ↦ elim (Bool-cases left.0.bad) [
              | inl bad ↦ (
                reading (height_fix left.0.tree v empty) true left.0.rest,
                rw (other, valid, found, left.1, bad, read_tree) refl,
                omega (arith, consumes file, left.2),
              )
              | inr good ↦ (
                reading (height_fix left.0.tree v right.0.tree) right.0.bad right.0.rest,
                rw (other, valid, found, left.1, good, right.1, read_tree) refl,
                omega (arith, consumes file, left.2, right.2),
              )
            ]
          ]
    ]
  ]

  -- `btreeRead` returns on every file, where the callback that reads a payload never leaves more in
  -- the file than there was: its calls nest at most one deeper than there are bytes, and it leaves
  -- at most what was there.
  pub read-Returns :
      (get : List ℕ → Option A × List ℕ) (file : List ℕ)
      → Consumes get
      → (r : Reading A) × (read get file ≡ some r) × (length r.rest ≤ length file)
  unfolding read
  read-Returns get file consumes = enough get (length file + 1) file consumes (omega arith)

  pub read_tree-node :
      (get : List ℕ → Option A × List ℕ) (fuel : ℕ) (file : List ℕ) (v : A) (l r : Reading A)
      → (get file).0 ≡ some v
      → read_tree get fuel (get file).1 ≡ some l
      → l.bad ≡ false
      → read_tree get fuel l.rest ≡ some r
      → read_tree get (suc fuel) (fid_valid ∷ file)
        ≡ some (reading (height_fix l.tree v r.tree) r.bad r.rest)
  unfolding read_tree
  read_tree-node get fuel file v l r found left good right =
      rw (found, left, good, right, read_tree) refl
