-- ===== src/Section/Tests.antt =====
-- Checksums of short messages.
use dvb_vulture.Prelude.{◌+◌, ◌≡◌, refl, ℕ, List, [], ◌∷◌, ◌++◌, arith}
use dvb_vulture.Section.{crc_round, crc_loop, sec_crc32}
use dvb_vulture.Section.Crc.{be32, sec_crc32_closes}
use dvb_vulture.Section.Poly.{remainder, sec_crc32-remainder}

-- the ASCII digits 1 to 9, the usual check message of a CRC
abbrev digits : List ℕ
digits = 0x31 ∷ 0x32 ∷ 0x33 ∷ 0x34 ∷ 0x35 ∷ 0x36 ∷ 0x37 ∷ 0x38 ∷ 0x39 ∷ []

sec_crc32-digits : sec_crc32 digits 9 ≡ 0x0376e6e7
unfolding sec_crc32 crc_loop crc_round
sec_crc32-digits = refl

sec_crc32-remainder_example : sec_crc32 digits 9 ≡ remainder digits 0xffffffff
sec_crc32-remainder_example = sec_crc32-remainder digits (omega arith)

sec_crc32_closes_example :
    sec_crc32 (digits ++ (be32 (sec_crc32 digits 9) ++ (0x47 ∷ []))) (9 + 4) ≡ 0
sec_crc32_closes_example = sec_crc32_closes digits (0x47 ∷ [])
