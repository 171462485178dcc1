-- ===== src/Sit/Close.antt =====
-- The end of `sitCompile`: the length field and the checksum that it writes, read back.
use Prim.Native.Nat.{bit_or}
use dvb_vulture.Prelude.{
  ℕ, ◌+◌, ◌-◌, ◌*◌, ◌/◌, ◌%◌, ◌^◌, ◌≤◌, ◌<◌, ◌≡◌, refl, ap, ap₂, ◌∙◌, sym, true, List, ◌++◌, length,
  get_or, take, drop, ◌==◌, ==_iff, arith, length-take,
}
use dvb_vulture.Prelude.Bits.{all_below, all_from, all_below-at}
use dvb_vulture.Bits
use dvb_vulture.Prelude.Buffer.{IsBytes}
use dvb_vulture.Bits.Field.{field, get-field}
use dvb_vulture.Section.{sec_crc32, check_crc}
use dvb_vulture.Section.Crc.{be32, sec_crc32_closes, sec_crc32-take}
use dvb_vulture.Prelude.Buffer.{write}
use dvb_vulture.Sit.{be16, length_field, sit_close}
use dvb_vulture.Prelude.Buffer.{
  length-write, write_lem, get_or-write_below, get_or-write_above, get_or-write_at, IsBytes-write,
}

length_field_table : all_below 4096 (λ x. length_field x == x + 0xf000) ≡ true
unfolding all_from
length_field_table = refl

length_field_lem : (x : ℕ) → x < 4096 → length_field x ≡ x + 0xf000
length_field_lem x h =
    (==_iff (length_field x) (x + 0xf000)).0
      (all_below-at 4096 (λ x. length_field x == x + 0xf000) x length_field_table h)

pub version_table : all_below 32 (λ x. bit_or (bit_or (x * 2) 1) (3 * 2 ^ 6) == x * 2 + 193) ≡ true
unfolding all_from
version_table = refl

-- the section length field of twelve bits behind the first byte
length_bits :
    (sec : List ℕ)
    → IsBytes sec
    → Bits.get sec 1 4 12 ≡ (get_or sec 1 0 * 256 + get_or sec 2 0) % 4096
unfolding field
length_bits sec v = get-field sec 1 4 12 v (omega arith) ∙ omega arith

pub version_bits : (sec : List ℕ) → IsBytes sec → Bits.get sec 5 2 5 ≡ get_or sec 5 0 / 2 % 32
unfolding field
version_bits sec v = get-field sec 5 2 5 v (omega arith) ∙ omega arith

pub current_bits : (sec : List ℕ) → IsBytes sec → Bits.get sec 5 7 1 ≡ get_or sec 5 0 % 2
unfolding field
current_bits sec v = get-field sec 5 7 1 v (omega arith) ∙ omega arith

-- the buffer with its length field, and the finished section
abbrev pub sized : ℕ → List ℕ → List ℕ
sized slen section = write section 1 (be16 (length_field (slen - 3 + 4)))

abbrev pub closed : ℕ → List ℕ → List ℕ
closed slen section = write (sized slen section) slen (be32 (sec_crc32 (sized slen section) slen))

pub sit_close_lem :
    (slen : ℕ) (section : List ℕ)
    → 3 ≤ slen
    → sit_close slen section ≡ (slen + 4, closed slen section)
unfolding sit_close
sit_close_lem slen section h =
    let here : slen - 3 + 4 + 3 - 4 ≡ slen = omega arith in
    let total : slen - 3 + 4 + 3 ≡ slen + 4 = omega arith in
    ap₂ (λ (n k : ℕ). (n, write (sized slen section) k (be32 (sec_crc32 (sized slen section) k))))
      total here

module _ (slen : ℕ) (section : List ℕ) (low : 10 ≤ slen) (high : slen ≤ 4090)
    (fits : slen + 4 ≤ length section) where
  length-sized : length (sized slen section) ≡ length section
  length-sized = length-write (be16 (length_field (slen - 3 + 4))) section 1

  pub IsBytes-closed : IsBytes section → IsBytes (closed slen section)
  IsBytes-closed v =
      IsBytes-write (be32 (sec_crc32 (sized slen section) slen)) (sized slen section) slen
        (IsBytes-write (be16 (length_field (slen - 3 + 4))) section 1 v (omega arith)) (omega arith)

  -- From the third byte on, up to the checksum, the section is what the loop left.
  pub closed_same :
      (j : ℕ) → 3 ≤ j → j < slen → get_or (closed slen section) j 0 ≡ get_or section j 0
  closed_same j h g =
      get_or-write_below (be32 (sec_crc32 (sized slen section) slen)) (sized slen section) slen j 0
        g
      ∙ get_or-write_above (be16 (length_field (slen - 3 + 4))) section 1 j 0 h

  pub closed_zero : get_or (closed slen section) 0 0 ≡ get_or section 0 0
  closed_zero =
      get_or-write_below (be32 (sec_crc32 (sized slen section) slen)) (sized slen section) slen 0 0
        (omega arith)
      ∙ get_or-write_below (be16 (length_field (slen - 3 + 4))) section 1 0 0 (omega arith)

  closed_length_byte :
      (j : ℕ)
      → j < 2
      → get_or (closed slen section) (1 + j) 0 ≡ get_or (be16 (length_field (slen - 3 + 4))) j 0
  closed_length_byte j h =
      get_or-write_below (be32 (sec_crc32 (sized slen section) slen)) (sized slen section) slen
        (1 + j) 0 (omega arith)
      ∙ get_or-write_at (be16 (length_field (slen - 3 + 4))) section 1 j 0 (omega arith) h

  pub closed_length : IsBytes section → Bits.get (closed slen section) 1 4 12 ≡ slen + 1
  closed_length v =
      length_bits (closed slen section) (IsBytes-closed v)
      ∙ omega (
        arith,
        closed_length_byte 0 (omega arith),
        closed_length_byte 1 (omega arith),
        length_field_lem (slen - 3 + 4) (omega arith),
      )

  pub closed_crc : IsBytes section → check_crc (closed slen section) ≡ 0
  unfolding check_crc
  closed_crc v =
      let s : List ℕ = sized slen section in
      let crc : ℕ = sec_crc32 (take slen s) (length (take slen s)) in
      let size : length (take slen s) ≡ slen = omega (arith, length-take slen s, length-sized) in
      let own : sec_crc32 s slen ≡ crc =
        sec_crc32-take slen s ∙ ap (sec_crc32 (take slen s)) (sym size) in
      let shape : closed slen section ≡ take slen s ++ (be32 crc ++ drop 4 (drop slen s)) =
        write_lem slen (be32 (sec_crc32 s slen)) s (omega (arith, length-sized))
        ∙ ap (λ (c : ℕ). take slen s ++ (be32 c ++ drop 4 (drop slen s))) own in
      let count : Bits.get (closed slen section) 1 4 12 + 3 ≡ length (take slen s) + 4 =
        omega (arith, closed_length v, size) in
      ap₂ sec_crc32 shape count ∙ sec_crc32_closes (take slen s) (drop 4 (drop slen s))
