-- ===== src/DHash/Stream/Tests.antt =====
-- Tables of bytes, written and read.
use dvb_vulture.Prelude.{ℕ, ◌≡◌, refl, List, [], ◌∷◌, some, Bool, true, false}
use dvb_vulture.ListStream
use dvb_vulture.DHash.{DHash}
use dvb_vulture.DHash.Stream.{write, write_size, read}

abbrev put_byte : ℕ → List ℕ × Bool
put_byte v = (v ∷ [], false)

abbrev get_byte : List ℕ → ℕ × List ℕ
get_byte [] = (0, [])
get_byte (v ∷ file) = (v, file)

abbrev pair : DHash ℕ
pair = record { tbl_size = 2; num_entries = 1; tbl = [] ∷ (7 ∷ []) ∷ [] }

abbrev nothing : DHash ℕ
nothing = record { tbl_size = 0; num_entries = 0; tbl = [] }

write-pair :
    write put_byte pair ≡ (72 ∷ 2 ∷ 0 ∷ 0 ∷ 0 ∷ 1 ∷ 0 ∷ 0 ∷ 0 ∷ 48 ∷ 88 ∷ 7 ∷ 48 ∷ [], false)
unfolding write ListStream.write
write-pair = refl

size-pair : write_size (λ v. 1) pair ≡ 13
unfolding write_size ListStream.write_size
size-pair = refl

-- a size of 0 passes the test for a power of 2
read-zero :
    read get_byte true 0 pair (72 ∷ 0 ∷ 0 ∷ 0 ∷ 0 ∷ 0 ∷ 0 ∷ 0 ∷ 0 ∷ []) ≡ some (0, nothing, [])
unfolding read
read-zero = refl

read-three :
    read get_byte true 0 nothing (72 ∷ 3 ∷ 0 ∷ 0 ∷ 0 ∷ [])
    ≡ some (1, record { tbl_size = 3; num_entries = 0; tbl = [] }, [])
unfolding read
read-three = refl
