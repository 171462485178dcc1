-- ===== src/DHash/Stream.antt =====
-- common/dhash.c: a table as a byte stream, of which its lists are a part.
--
-- A word is written in the machine's order, here with its low byte first. An `fread` that finds less
-- than a word leaves in it what is arbitrary, `junk`. The callback that reads an element has no way
-- to fail.
pub mod RoundTrip
pub mod Tests
use Prim.Native.Nat.{bit_and}
use dvb_vulture.Prelude.{
  ℕ, zero, suc, ◌+◌, ◌-◌, ◌*◌, ◌/◌, ◌%◌, ◌^◌, List, [], ◌∷◌, ◌++◌, replicate, Option, none, some,
  Bool, true, false, not, ◌==◌, if◌then◌else◌,
}
use dvb_vulture.ListStream
use dvb_vulture.DHash.{DHash}

-- `FID_DHASH`
abbrev pub fid_dhash : ℕ
fid_dhash = 72

-- a `uint32_t` in the file
abbrev pub word : ℕ → List ℕ
word n = n % 256 ∷ n / 256 % 256 ∷ n / 65536 % 256 ∷ n / 16777216 % 256 ∷ []

abbrev pub read_word : (junk : ℕ) → List ℕ → ℕ × List ℕ
read_word junk (a ∷ b ∷ c ∷ d ∷ file) = (a + b * 256 + c * 65536 + d * 16777216, file)
read_word junk _ = (junk, [])

module _ {ℓ} {A : Type ℓ} where
  -- the loop of `dhashWrite`
  abbrev pub write_lists : (put : A → List ℕ × Bool) → List (List A) → List ℕ × Bool
  write_lists put [] = ([], false)
  write_lists put (l ∷ tbl) =
      let (bytes, bad) = ListStream.write put l in
      let (rest, rest_bad) = write_lists put tbl in
      if bad then (bytes, true) else (bytes ++ rest, rest_bad)

  -- `dhashWrite`: what has been written, and whether a callback has failed
  pub write : (put : A → List ℕ × Bool) → DHash A → List ℕ × Bool
  write put h =
      let (lists, bad) = write_lists put h.tbl in
      (fid_dhash ∷ (word h.tbl_size ++ (word h.num_entries ++ lists)), bad)

  abbrev lists_size : (size : A → ℕ) → List (List A) → ℕ
  lists_size size [] = 0
  lists_size size (l ∷ tbl) = (ListStream.write_size size l + lists_size size tbl) % 2 ^ 64

  -- `dhashWriteSize`
  pub write_size : (size : A → ℕ) → DHash A → ℕ
  write_size size h = (9 + lists_size size h.tbl) % 2 ^ 64

  -- `dhashReadBucket`, where there is memory for the list's element
  abbrev pub read_bucket : (get : List ℕ → A × List ℕ) → List ℕ → Option A × List ℕ
  read_bucket get file = (some (get file).0, (get file).1)

  -- the loop of `dhashRead`: the lists, whether one could not be read, and the rest of the file
  abbrev pub read_lists :
      (get : List ℕ → A × List ℕ) → (n : ℕ) → List ℕ → Option (List (List A) × Bool × List ℕ)
  read_lists get zero file = some ([], false, file)
  read_lists get (suc n) file = elim (ListStream.read (read_bucket get) file) [
    | none ↦ none
    | some r ↦ elim r.bad [
      | true ↦ some (r.list ∷ replicate n [], true, r.rest)
      | false ↦ elim (read_lists get n r.rest) [
        | none ↦ none
        | some t ↦ some (r.list ∷ t.0, t.1, t.2)
      ]
    ]
  ]

  -- `dhashRead`: its status, the table, and the rest of the file
  pub read :
      (get : List ℕ → A × List ℕ)
      → (memory : Bool) → (junk : ℕ) → DHash A
      → List ℕ
      → Option (ℕ × DHash A × List ℕ)
  read get memory junk h [] = some (1, h, [])
  read get memory junk h (id ∷ file) =
      let (size, file1) = read_word junk file in
      let (num, file2) = read_word junk file1 in
      if not (id == fid_dhash)
      then some (1, h, file)
      else if not (bit_and size ((size + (2 ^ 32 - 1)) % 2 ^ 32) == 0)
      then some (1, record h { tbl_size = size }, file1)
      else if not memory
      then some (1, record { tbl_size = size; num_entries = num; tbl = [] }, file2)
      else elim (read_lists get size file2) [
        | none ↦ none
        | some t ↦
            some
              (if t.1 then 1 else 0, record { tbl_size = size; num_entries = num; tbl = t.0 }, t.2)
      ]
