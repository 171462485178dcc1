-- ===== src/ListStream/RoundTrip.antt =====
-- What is written of a list is read as the same list, and reading always ends.
use mathlib.Core.List.{append_assoc}
use dvb_vulture.Prelude.{
  ℕ, zero, suc, ◌+◌, ◌≤◌, ◌<◌, ◌≡◌, refl, ap, ◌∙◌, List, [], ◌∷◌, ◌++◌, length, length-append,
  Option, some, Bool, true, false, not, ◌==◌, arith, inl, inr, Bool-cases, Option-cases,
}
use dvb_vulture.ListStream.{fid_null, fid_valid, Reading, reading, write, read_loop, read}

module _ {ℓ} {A : Type ℓ} where
  -- To read never leaves more in the file than there was.
  abbrev pub Consumes : (get : List ℕ → Option A × List ℕ) → Type 0
  Consumes get = (file : List ℕ) → length (get file).1 ≤ length file

  -- No write of a payload fails.
  abbrev pub Writes : (put : A → List ℕ × Bool) → Type ℓ
  Writes put = (v : A) → (put v).1 ≡ false

  -- What the callbacks agree on: a payload that is written is read again.
  abbrev pub Agree : (put : A → List ℕ × Bool) → (get : List ℕ → Option A × List ℕ) → Type ℓ
  Agree put get = (v : A) (file : List ℕ) → get ((put v).0 ++ file) ≡ (some v, file)

  enough :
      (get : List ℕ → Option A × List ℕ) (fuel : ℕ) (file : List ℕ)
      → Consumes get
      → length file < fuel
      → (r : Reading A) × (read_loop get fuel file ≡ some r) × (length r.rest ≤ length file)
  unfolding read_loop
  enough get zero file consumes lt = absurd (omega arith)
  enough get (suc fuel) [] consumes lt = (reading [] true [], refl, omega arith)
  enough get (suc fuel) (id ∷ file) consumes lt = elim (Bool-cases (id == fid_valid)) [
    | inr other ↦ (reading [] (not (id == fid_null)) file, rw (other, read_loop) refl, omega arith)
    | inl valid ↦
        let later = enough get fuel (get file).1 consumes (omega (arith, consumes file)) in
        elim (Option-cases (get file).0) [
          | inl gone ↦ (
            reading [] true (get file).1,
            rw (valid, gone, read_loop) refl,
            omega (arith, consumes file),
          )
          | inr (v, found) ↦ (
            reading (v ∷ later.0.list) later.0.bad later.0.rest,
            rw (valid, found, later.1, read_loop) refl,
            omega (arith, consumes file, later.2),
          )
        ]
  ]

  -- `slistRead` returns on every file, where the callback that reads a payload never leaves more in
  -- the file than there was, and leaves at most what was there.
  pub read-Returns :
      (get : List ℕ → Option A × List ℕ) (file : List ℕ)
      → Consumes get
      → (r : Reading A) × (read get file ≡ some r) × (length r.rest ≤ length file)
  unfolding read
  read-Returns get file consumes = enough get (length file + 1) file consumes (omega arith)

  read_loop-cons :
      (get : List ℕ → Option A × List ℕ) (fuel : ℕ) (file : List ℕ) (v : A) (r : Reading A)
      → (get file).0 ≡ some v
      → read_loop get fuel (get file).1 ≡ some r
      → read_loop get (suc fuel) (fid_valid ∷ file) ≡ some (reading (v ∷ r.list) r.bad r.rest)
  unfolding read_loop
  read_loop-cons get fuel file v r found later = rw (found, later, read_loop) refl

  module _ (put : A → List ℕ × Bool) (writes : Writes put) where
    write-cons :
        (v : A) (l : List A)
        → write put (v ∷ l) ≡ (fid_valid ∷ ((put v).0 ++ (write put l).0), (write put l).1)
    unfolding write
    write-cons v l = rw (write, writes v) refl

    pub write-good : (l : List A) → (write put l).1 ≡ false
    unfolding write
    write-good [] = refl
    write-good (v ∷ l) = ap (λ w. w.1) (write-cons v l) ∙ write-good l

    length-write : (l : List A) → length l < length (write put l).0
    unfolding write
    length-write [] = omega arith
    length-write (v ∷ l) =
        rw (write-cons v l) (omega (arith, length-write l, length-append (put v).0 (write put l).0))

    read_loop-write :
        (get : List ℕ → Option A × List ℕ)
        → Agree put get
        → (fuel : ℕ) (l : List A) (file : List ℕ) → length l < fuel
        → read_loop get fuel ((write put l).0 ++ file) ≡ some (reading l false file)
    unfolding read_loop write
    read_loop-write get agree zero l file lt = absurd (omega arith)
    read_loop-write get agree (suc fuel) [] file lt = refl
    read_loop-write get agree (suc fuel) (v ∷ l) file lt =
        let following = (write put l).0 ++ file in
        let later = read_loop-write get agree fuel l file (omega arith) in
        rw (write-cons v l) (
          ap (λ bytes. read_loop get (suc fuel) (fid_valid ∷ bytes))
            (append_assoc (put v).0 (write put l).0 file)
          ∙ read_loop-cons get fuel ((put v).0 ++ following) v (reading l false file)
              (ap (λ g. g.0) (agree v following))
              (ap (λ g. read_loop get fuel g.1) (agree v following) ∙ later))

    -- Where a payload that the one callback writes is what the other reads, `slistRead` of what
    -- `slistWrite` has written returns 0 and the list, whatever follows in the file, which it leaves.
    pub read-write :
        (get : List ℕ → Option A × List ℕ)
        → Agree put get
        → (l : List A) (file : List ℕ)
        → ((write put l).1 ≡ false)
          × (read get ((write put l).0 ++ file) ≡ some (reading l false file))
    unfolding read
    read-write get agree l file = (
      write-good l,
      read_loop-write get agree (length ((write put l).0 ++ file) + 1) l file
          (omega (arith, length-write l, length-append (write put l).0 file)),
    )
