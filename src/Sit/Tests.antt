-- ===== src/Sit/Tests.antt =====
-- A selection information section with two services.
use dvb_vulture.Prelude.{
  zero, suc, ◌≡◌, refl, ℕ, true, List, [], ◌∷◌, replicate, take, drop, length, ◌++◌,
  length-replicate, arith,
}
use dvb_vulture.Prelude.Buffer.{IsBytes, write}
use dvb_vulture.Section.{sec_crc32, crc_loop, crc_round}
use dvb_vulture.Sit.{
  dit_compile, service_loop, sit_header, sit_close, sit_compile, sec_to_ts, split_loop, split_byte,
  open_packet, ts_put_ctr,
}
use dvb_vulture.Sit.Compile.{Accepted, sit_compile_parses, sit_compile_full}

abbrev pnrs : List ℕ
pnrs = 0x6dca ∷ 0x0102 ∷ []

abbrev short : List ℕ
short = replicate 24 0

dit_compile_bytes : dit_compile true (replicate 4 0) ≡ (4, 0x7e ∷ 0xf0 ∷ 0x01 ∷ 0xff ∷ [])
unfolding dit_compile
dit_compile_bytes = refl

sit_compile_bytes :
    take 18 (sit_compile pnrs 3 short).1
    ≡ 0x7f ∷ 0xf0 ∷ 0x13 ∷ 0xff ∷ 0xff ∷ 0xc7 ∷ 0 ∷ 0 ∷ 0xf0 ∷ 0 ∷ 0x6d ∷ 0xca ∷ 0xc0 ∷ 0 ∷ 0x01
      ∷ 0x02 ∷ 0xc0 ∷ 0 ∷ []
unfolding sit_compile service_loop sit_header sit_close write sec_crc32 crc_loop crc_round
sit_compile_bytes = refl

zeros-IsBytes : (n : ℕ) → IsBytes (replicate n 0)
zeros-IsBytes zero = tt
zeros-IsBytes (suc n) = (omega arith, zeros-IsBytes n)

sit_compile_parses_example : Accepted pnrs 3 (sit_compile pnrs 3 (replicate 4096 0))
sit_compile_parses_example =
    sit_compile_parses pnrs 3 (replicate 4096 0) (omega arith) (zeros-IsBytes 4096)
      (length-replicate {A = ℕ} 4096 0) (omega arith)

sit_compile_full_example : (sit_compile (replicate 1021 7) 3 short).0 ≡ 0
sit_compile_full_example =
    sit_compile_full (replicate 1021 7) 3 short (omega (arith, length-replicate {A = ℕ} 1021 7))

-- 185 bytes are two packets: the last two of them follow the second header.
abbrev packets : List ℕ
packets = (sec_to_ts (replicate 184 9 ++ (8 ∷ [])) 0x1ff).0

sec_to_ts-headers :
    (take 6 packets ≡ 0x47 ∷ 0x41 ∷ 0xff ∷ 0x10 ∷ 0 ∷ 9 ∷ [])
    × (take 7 (drop 188 packets) ≡ 0x47 ∷ 0x01 ∷ 0xff ∷ 0x11 ∷ 9 ∷ 8 ∷ 0xff ∷ [])
    × (length packets ≡ 376)
unfolding sec_to_ts split_loop split_byte open_packet write
sec_to_ts-headers = (refl, refl, refl)

ts_put_ctr-low : ts_put_ctr (0x47 ∷ 0x41 ∷ 0xff ∷ 0x1a ∷ []) 0x23 ≡ 0x47 ∷ 0x41 ∷ 0xff ∷ 0x13 ∷ []
unfolding ts_put_ctr
ts_put_ctr-low = refl
