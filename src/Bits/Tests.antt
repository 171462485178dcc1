-- ===== src/Bits/Tests.antt =====
-- Fields of a short buffer.
use dvb_vulture.Prelude.{◌+◌, ◌/◌, ◌%◌, ◌≡◌, refl, ℕ, List, [], ◌∷◌, arith}
use dvb_vulture.Bits.{decode_bcd8, gather, get48, get}
use dvb_vulture.Bits.Field.{field, get-field, get48-field}

abbrev buffer : List ℕ
buffer = 0x12 ∷ 0xb3 ∷ 0x45 ∷ 0x67 ∷ 0x89 ∷ 0xab ∷ 0xcd ∷ []

get-buffer :
    (get buffer 1 4 12 ≡ 0x345)
    × (get buffer 0 3 1 ≡ 1)
    × (get buffer 0 0 32 ≡ 0x12b34567)
    × (get buffer 0 4 33 ≡ 0xfefefefe)
    × (decode_bcd8 0x59 ≡ 59)
unfolding get get48 gather decode_bcd8
get-buffer = (refl, refl, refl, refl, refl)

get48-buffer : get48 buffer 0 4 48 ≡ 0x2b3456789abc
unfolding get48 gather
get48-buffer = refl

get-field_example : get buffer 1 4 12 ≡ field buffer (1 + 4 / 8) (4 % 8) 12
get-field_example = get-field buffer 1 4 12 (omega arith) (omega arith)

get48-field_example : get48 buffer 0 4 48 ≡ field buffer (0 + 4 / 8) (4 % 8) 48
get48-field_example = get48-field buffer 0 4 48 (omega arith) (omega arith)
