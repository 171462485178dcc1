-- ===== src/ListStream/Tests.antt =====
-- Lists of bytes, written and read.
use dvb_vulture.Prelude.{ℕ, ◌≡◌, refl, List, [], ◌∷◌, Option, none, some, Bool, true, false}
use dvb_vulture.ListStream.{reading, write, write_size, read_loop, read}

abbrev put_byte : ℕ → List ℕ × Bool
put_byte v = (v ∷ [], false)

abbrev get_byte : List ℕ → Option ℕ × List ℕ
get_byte [] = (none, [])
get_byte (v ∷ file) = (some v, file)

write-two : write put_byte (7 ∷ 8 ∷ []) ≡ (88 ∷ 7 ∷ 88 ∷ 8 ∷ 48 ∷ [], false)
unfolding write
write-two = refl

size-two : write_size (λ (v : ℕ). 1) (7 ∷ 8 ∷ []) ≡ 5
unfolding write_size
size-two = refl

-- what has been read before the end of the file is in the list
read-short : read get_byte (88 ∷ 7 ∷ 88 ∷ []) ≡ some (reading (7 ∷ []) true [])
unfolding read read_loop
read-short = refl

read-bad : read get_byte (88 ∷ 7 ∷ 49 ∷ 1 ∷ []) ≡ some (reading (7 ∷ []) true (1 ∷ []))
unfolding read read_loop
read-bad = refl
