-- ===== src/ListStream.antt =====
-- common/list.c: a list as a byte stream. The functions for the singly and the doubly linked list
-- are the same but for the names.
--
-- A list is its payloads, in order. The callbacks that write, measure and read a payload are
-- parameters, and so is the file: what is written to it is a list of bytes, and what is read from it
-- is the list of the bytes to come.
pub mod RoundTrip
pub mod Tests
use dvb_vulture.Prelude.{
  ℕ, zero, suc, ◌+◌, ◌%◌, ◌^◌, List, [], ◌∷◌, ◌++◌, length, Option, none, some, Bool, true, false,
  not, ◌==◌, if◌then◌else◌,
}

-- `FID_NULL` and `FID_VALID`
abbrev pub fid_null : ℕ
fid_null = 48

abbrev pub fid_valid : ℕ
fid_valid = 88

-- the list that has been read, whether that has failed, and what is left in the file
pub record Reading {ℓ} (A : Type ℓ) : Type ℓ where
  pub list : List A
  pub bad : Bool
  pub rest : List ℕ

abbrev pub reading {ℓ} : {A : Type ℓ} → List A → Bool → List ℕ → Reading A
reading l b file = record { list = l; bad = b; rest = file }

module _ {ℓ} {A : Type ℓ} where
  -- `slistWrite`: what has been written, and whether a callback has failed
  unfoldable pub write : (put : A → List ℕ × Bool) → List A → List ℕ × Bool
  write put [] = (fid_null ∷ [], false)
  write put (e ∷ l) =
      let (bytes, bad) = put e in
      let (rest, rest_bad) = write put l in
      if bad then (fid_valid ∷ bytes, true) else (fid_valid ∷ (bytes ++ rest), rest_bad)

  -- `slistWriteSize`
  unfoldable pub write_size : (size : A → ℕ) → List A → ℕ
  write_size size [] = 1
  write_size size (e ∷ l) = (1 + size e + write_size size l) % 2 ^ 64

  -- the loop of `slistRead`, which makes `fuel` rounds at most
  unfoldable pub read_loop :
      (get : List ℕ → Option A × List ℕ) → (fuel : ℕ) → List ℕ → Option (Reading A)
  read_loop get zero file = none
  read_loop get (suc fuel) [] = some (reading [] true [])
  read_loop get (suc fuel) (id ∷ file) = elim (id == fid_valid) [
    | false ↦ some (reading [] (not (id == fid_null)) file)
    | true ↦
        let (e, rest) = get file in
        elim e [
          | none ↦ some (reading [] true rest)
          | some v ↦ elim (read_loop get fuel rest) [
            | none ↦ none
            | some r ↦ some (reading (v ∷ r.list) r.bad r.rest)
          ]
        ]
  ]

  -- `slistRead`
  unfoldable pub read : (get : List ℕ → Option A × List ℕ) → List ℕ → Option (Reading A)
  read get file = read_loop get (length file + 1) file
