-- ===== src/Sit/Compile.antt =====
-- What `sitCompile` puts out: a section that the section parsers of the program accept, with the
-- version, the size, the checksum and the services that were asked for.
use Prim.Native.Nat.{bit_and, bit_or}
use dvb_vulture.Prelude.{
  ℕ, zero, suc, ◌+◌, ◌*◌, ◌%◌, ◌^◌, ◌≤◌, ◌<◌, ◌≡◌, refl, ap, ap₂, ◌∙◌, sym, subst, List, ◌∷◌,
  length, get_or, ◌==◌, ==_iff, arith, length-set,
}
use dvb_vulture.Prelude.Bits.{all_below-at, bit_and_mask}
use dvb_vulture.Prelude.Buffer.{IsBytes}
use dvb_vulture.Section.{get_sec_size, get_sec_version, sec_is_current, get_sec_id, check_crc}
use dvb_vulture.Sit.{be16, sit_tid, service_loop, sit_header, sit_compile}
use dvb_vulture.Prelude.Buffer.{IsBytes-set, IsBytes-write}
use dvb_vulture.Sit.Close.{
  version_table, version_bits, current_bits, sit_close_lem, closed, IsBytes-closed, closed_same,
  closed_zero, closed_length, closed_crc,
}
use dvb_vulture.Sit.Services.{
  IsWords, services, service_loop_fits, service_loop_full, length-service_loop,
  IsBytes-service_loop, service_loop_below, services-service_loop,
}

services_same :
    (a b : List ℕ) (at n : ℕ)
    → ((j : ℕ) → at ≤ j → j < at + 4 * n → get_or a j 0 ≡ get_or b j 0)
    → services a at n ≡ services b at n
unfolding services
services_same a b at zero h = refl
services_same a b at (suc n) h =
    ap₂ ◌∷◌
      (ap₂ (λ (x y : ℕ). x * 256 + y) (h at (omega arith) (omega arith))
        (h (at + 1) (omega arith) (omega arith)))
      (services_same a b (at + 4) n (λ j l u. h j (omega arith) (omega arith)))

abbrev version_byte : ℕ → ℕ
version_byte vnr = bit_or (bit_or (bit_and vnr 31 * 2) 1) (3 * 2 ^ 6)

version_byte_lem : (vnr : ℕ) → version_byte vnr ≡ vnr % 32 * 2 + 193
version_byte_lem vnr =
    ap (λ (x : ℕ). bit_or (bit_or (x * 2) 1) (3 * 2 ^ 6)) (bit_and_mask 5 vnr)
    ∙ (==_iff _ _).0 (
        all_below-at 32 (λ x. bit_or (bit_or (x * 2) 1) (3 * 2 ^ 6) == x * 2 + 193) (vnr % 32)
          version_table (omega arith))

length-sit_header : (vnr : ℕ) (section : List ℕ) → length (sit_header vnr section) ≡ length section
unfolding sit_header
length-sit_header vnr section = simp length-set

IsBytes-sit_header :
    (vnr : ℕ) (section : List ℕ) → IsBytes section → IsBytes (sit_header vnr section)
unfolding sit_header
IsBytes-sit_header vnr section v =
    IsBytes-write (be16 (bit_or 0 0xf000)) _ 8
      (IsBytes-set _ 7 0
        (IsBytes-set _ 6 0
          (IsBytes-set _ 5 (version_byte vnr)
            (IsBytes-write (be16 0xffff) _ 3 (IsBytes-set section 0 sit_tid v (omega arith))
              (omega arith))
            (omega (arith, version_byte_lem vnr)))
          (omega arith))
        (omega arith))
      (omega arith)

-- the two bytes of the header that depend on the call or name the table
sit_header_bytes :
    (vnr : ℕ) (section : List ℕ)
    → 10 ≤ length section
    → (get_or (sit_header vnr section) 0 0 ≡ sit_tid)
      × (get_or (sit_header vnr section) 5 0 ≡ version_byte vnr)
unfolding sit_header
sit_header_bytes vnr (a ∷ b ∷ c ∷ d ∷ e ∷ f ∷ g ∷ i ∷ j ∷ k ∷ section) h = (refl, refl)
sit_header_bytes vnr section h = absurd (omega arith)

sit_compile_lem :
    (pnrs : List ℕ) (vnr : ℕ) (section : List ℕ)
    → 10 + 4 * length pnrs ≤ 4092
    → sit_compile pnrs vnr section ≡ (
      10 + 4 * length pnrs + 4,
      closed (10 + 4 * length pnrs) (service_loop pnrs 10 (sit_header vnr section)).1,
    )
unfolding sit_compile
sit_compile_lem pnrs vnr section fits =
    rw (service_loop_fits pnrs 10 (sit_header vnr section) fits, sit_compile)
      (sit_close_lem (10 + 4 * length pnrs) (service_loop pnrs 10 (sit_header vnr section)).1
        (omega arith))

-- what a caller asks of the result for these services and this version
abbrev pub Accepted : List ℕ → ℕ → ℕ × List ℕ → Type 0
Accepted pnrs vnr (size, sec) =
    (size ≡ 14 + 4 * length pnrs)
    × (get_sec_id sec ≡ sit_tid)
    × (get_sec_size sec ≡ size)
    × (get_sec_version sec ≡ vnr % 32)
    × (sec_is_current sec ≡ 1)
    × (check_crc sec ≡ 0)
    × (services sec 10 (length pnrs) ≡ pnrs)

-- Where the services fit, `sitCompile` returns the size of a section that carries the table id of
-- a SIT, that size, the version modulo 32, the current flag, a right checksum and the services.
pub sit_compile_parses :
    (pnrs : List ℕ) (vnr : ℕ) (section : List ℕ)
    → IsWords pnrs
    → IsBytes section
    → length section ≡ 4096
    → 10 + 4 * length pnrs ≤ 4092
    → Accepted pnrs vnr (sit_compile pnrs vnr section)
unfolding get_sec_id get_sec_size get_sec_version sec_is_current
sit_compile_parses pnrs vnr section w v full fits =
    subst (Accepted pnrs vnr) (sym (sit_compile_lem pnrs vnr section fits)) (
      omega arith,
      closed_zero slen filled low high room ∙ below 0 (omega arith) ∙ header.0,
      ground (arith, closed_length slen filled low high room bytes),
      version_bits sec sec_bytes ∙ omega (arith, version, version_byte_lem vnr),
      current_bits sec sec_bytes ∙ omega (arith, version, version_byte_lem vnr),
      closed_crc slen filled low high room bytes,
      services_same sec filled 10 (length pnrs)
            (λ j l u. closed_same slen filled low high room j (omega arith) (omega arith))
          ∙ services-service_loop pnrs 10 start w fits
              (omega (arith, length-sit_header vnr section)),
    )
  where
    slen : ℕ
    slen = 10 + 4 * length pnrs

    start : List ℕ
    start = sit_header vnr section

    filled : List ℕ
    filled = (service_loop pnrs 10 start).1

    sec : List ℕ
    sec = closed slen filled

    low : 10 ≤ slen
    low = omega arith

    high : slen ≤ 4090
    high = omega arith

    room : slen + 4 ≤ length filled
    room = omega (arith, length-service_loop pnrs 10 start, length-sit_header vnr section)

    bytes : IsBytes filled
    bytes = IsBytes-service_loop pnrs 10 start (IsBytes-sit_header vnr section v)

    sec_bytes : IsBytes sec
    sec_bytes = IsBytes-closed slen filled low high room bytes

    header : (get_or start 0 0 ≡ sit_tid) × (get_or start 5 0 ≡ version_byte vnr)
    header = sit_header_bytes vnr section (omega arith)

    below : (j : ℕ) → j < 10 → get_or filled j 0 ≡ get_or start j 0
    below j h = service_loop_below pnrs 10 start j h

    version : get_or sec 5 0 ≡ version_byte vnr
    version =
        closed_same slen filled low high room 5 (omega arith) (omega arith)
        ∙ below 5 (omega arith)
        ∙ header.1

-- Where ten bytes and four for each service are more than 4092, `sitCompile` returns 0.
pub sit_compile_full :
    (pnrs : List ℕ) (vnr : ℕ) (section : List ℕ)
    → 4092 < 10 + 4 * length pnrs
    → (sit_compile pnrs vnr section).0 ≡ 0
unfolding sit_compile
sit_compile_full pnrs vnr section h =
    rw (service_loop_full pnrs 10 (sit_header vnr section) (omega arith) h, sit_compile)
