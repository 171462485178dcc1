-- ===== src/BTree/Stream/RoundTrip.antt =====
-- What is written of a tree is read as the same tree.
use dvb_vulture.Prelude.{
  ℕ, zero, suc, ◌+◌, ◌%◌, ◌^◌, ◌<◌, ◌≡◌, refl, ap, sym, ◌∙◌, List, ◌∷◌, ◌++◌, length, Option, some,
  Bool, false, arith, length-append,
}
use Prim.Native.Nat.{max}
use mathlib.Core.List.{append_assoc}
use dvb_vulture.BTree.{Tree, empty, node, height_of}
use dvb_vulture.BTree.Stream.{
  fid_valid, write, write_size, reading, read_tree, read, read_tree-node,
}

module _ {ℓ} {A : Type ℓ} where
  -- the height that is noted is the height
  abbrev pub IsMeasured : Tree A → Type 0
  IsMeasured empty = Unit {0}
  IsMeasured (node h l v r) =
      IsMeasured l × IsMeasured r × (h ≡ max (height_of l) (height_of r) + 1)

  -- No write of a payload fails.
  abbrev pub Writes : (put : A → List ℕ × Bool) → Type ℓ
  Writes put = (v : A) → (put v).1 ≡ false

  -- What the callbacks agree on: a payload that is written is read again.
  abbrev pub Agree : (put : A → List ℕ × Bool) → (get : List ℕ → Option A × List ℕ) → Type ℓ
  Agree put get = (v : A) (file : List ℕ) → get ((put v).0 ++ file) ≡ (some v, file)

  module _ (put : A → List ℕ × Bool) (writes : Writes put) where
    write-node :
        (h : ℕ) (l : Tree A) (v : A) (r : Tree A)
        → (write put l).1 ≡ false
        → (write put r).1 ≡ false
        → write put (node h l v r)
          ≡ (fid_valid ∷ ((put v).0 ++ ((write put l).0 ++ (write put r).0)), false)
    unfolding write
    write-node h l v r left right = rw (write, writes v, left, right) refl

    write-good : (t : Tree A) → (write put t).1 ≡ false
    unfolding write
    write-good empty = refl
    write-good (node h l v r) = ap (λ w. w.1) (write-node h l v r (write-good l) (write-good r))

    height-write : (t : Tree A) → IsMeasured t → height_of t < length (write put t).0
    unfolding write
    height-write empty m = omega arith
    height-write (node h l v r) m = rw (write-node h l v r (write-good l) (write-good r)) (
        omega (
          arith,
          height-write l m.0,
          height-write r m.1,
          m.2,
          length-append (put v).0 ((write put l).0 ++ (write put r).0),
          length-append (write put l).0 (write put r).0,
        ))

    read_tree-write :
        (get : List ℕ → Option A × List ℕ)
        → Agree put get
        → (fuel : ℕ) (t : Tree A) (file : List ℕ) → IsMeasured t
        → height_of t < fuel
        → read_tree get fuel ((write put t).0 ++ file) ≡ some (reading t false file)
    unfolding read_tree write
    read_tree-write get agree zero t file m lt = absurd (omega arith)
    read_tree-write get agree (suc fuel) empty file m lt = refl
    read_tree-write get agree (suc fuel) (node h l v r) file m lt =
        let left =
          read_tree-write get agree fuel l ((write put r).0 ++ file) m.0 (omega (arith, m.2)) in
        let right = read_tree-write get agree fuel r file m.1 (omega (arith, m.2)) in
        let following = (write put l).0 ++ ((write put r).0 ++ file) in
        rw (write-node h l v r (write-good l) (write-good r)) (
          ap (λ bytes. read_tree get (suc fuel) (fid_valid ∷ bytes))
            (append_assoc (put v).0 ((write put l).0 ++ (write put r).0) file
              ∙ ap (λ bytes. (put v).0 ++ bytes)
                  (append_assoc (write put l).0 (write put r).0 file))
          ∙ read_tree-node get fuel ((put v).0 ++ following) v
              (reading l false ((write put r).0 ++ file)) (reading r false file)
              (ap (λ g. g.0) (agree v following))
              (ap (λ g. read_tree get fuel g.1) (agree v following) ∙ left) refl right
          ∙ ap (λ height. some (reading (node height l v r) false file)) (sym m.2))

    -- Where the heights in a tree are right, and where a payload that the one callback writes is
    -- what the other reads, `btreeRead` of what `btreeWrite` has written returns 0 and the tree,
    -- the same in shape, heights and payloads, whatever follows in the file, which it leaves.
    pub read-write :
        (get : List ℕ → Option A × List ℕ)
        → Agree put get
        → (t : Tree A) (file : List ℕ) → IsMeasured t
        → ((write put t).1 ≡ false)
          × (read get ((write put t).0 ++ file) ≡ some (reading t false file))
    unfolding read
    read-write get agree t file m = (
      write-good t,
      read_tree-write get agree (length ((write put t).0 ++ file) + 1) t file m
          (omega (arith, height-write t m, length-append (write put t).0 file)),
    )

    -- Where no write of a payload fails and a payload's size is the number of the bytes that are
    -- written of it, `btreeWriteSize` is the number of the bytes that `btreeWrite` writes, modulo
    -- 2 ^ 64.
    pub write_size-write :
        (size : A → ℕ)
        → ((v : A) → length (put v).0 ≡ size v)
        → (t : Tree A) → write_size size t ≡ length (write put t).0 % 2 ^ 64
    unfolding write write_size
    write_size-write size exact empty = omega arith
    write_size-write size exact (node h l v r) =
        rw (write-node h l v r (write-good l) (write-good r)) (
          omega (
            arith,
            write_size-write size exact l,
            write_size-write size exact r,
            exact v,
            length-append (put v).0 ((write put l).0 ++ (write put r).0),
            length-append (write put l).0 (write put r).0,
          ))
