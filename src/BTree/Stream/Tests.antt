-- ===== src/BTree/Stream/Tests.antt =====
-- Trees of bytes, written and read.
use dvb_vulture.Prelude.{
  ℕ, ◌≡◌, ◌≤◌, refl, List, [], ◌∷◌, ◌++◌, Option, none, some, Bool, true, false, length, arith,
}
use dvb_vulture.BTree.{Tree, empty, node}
use dvb_vulture.BTree.Stream.{
  Reading, reading, write, write_size, read_tree, read, Consumes, read-Returns,
}
use dvb_vulture.BTree.Stream.RoundTrip.{IsMeasured, Writes, Agree, read-write}
use dvb_vulture.BTree.Stream.{
  Reading, reading, write, write_size, read_tree, read, Consumes, read-Returns,
}
use dvb_vulture.BTree.Stream.RoundTrip.{IsMeasured, Writes, Agree, read-write}

abbrev leaf : ℕ → Tree ℕ
leaf v = node 1 empty v empty

abbrev twenty : Tree ℕ
twenty = node 2 (leaf 10) 20 empty

-- a payload of one byte
abbrev put_byte : ℕ → List ℕ × Bool
put_byte v = (v ∷ [], false)

abbrev get_byte : List ℕ → Option ℕ × List ℕ
get_byte [] = (none, [])
get_byte (v ∷ file) = (some v, file)

get_byte-Consumes : Consumes get_byte
get_byte-Consumes [] = omega arith
get_byte-Consumes (v ∷ file) = omega arith

put_byte-Writes : Writes put_byte
put_byte-Writes v = refl

byte-Agree : Agree put_byte get_byte
byte-Agree v file = refl

-- The file ends in the right child.
read-Returns_example :
    (r : Reading ℕ) × (read get_byte (88 ∷ 7 ∷ 48 ∷ 88 ∷ []) ≡ some r) × (length r.rest ≤ 4)
read-Returns_example = read-Returns get_byte (88 ∷ 7 ∷ 48 ∷ 88 ∷ []) get_byte-Consumes

read-bad : read get_byte (88 ∷ 7 ∷ 48 ∷ 49 ∷ 1 ∷ []) ≡ some (reading (leaf 7) true (1 ∷ []))
unfolding read read_tree
read-bad = refl

write_size-twenty : write_size (λ v. 1) twenty ≡ 7
unfolding write_size
write_size-twenty = refl

twenty-IsMeasured : IsMeasured twenty
twenty-IsMeasured = ((tt, tt, refl), tt, refl)

read-write_example :
    ((write put_byte twenty).1 ≡ false)
    × (read get_byte ((write put_byte twenty).0 ++ (9 ∷ [])) ≡ some (reading twenty false (9 ∷ [])))
read-write_example =
    read-write put_byte put_byte-Writes get_byte byte-Agree twenty (9 ∷ []) twenty-IsMeasured
