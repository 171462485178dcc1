-- ===== src/Section/Poly.antt =====
-- The table of stream/sec_common.c against the polynomial division that it stands for.
use Prim.Native.Nat.{bit_and, bit_xor}
use dvb_vulture.Prelude.{
  ℕ, zero, suc, ◌+◌, ◌*◌, ◌/◌, ◌%◌, ◌^◌, ◌≤◌, ◌<◌, ◌≡◌, refl, ap, ap₂, sym, ◌∙◌, true, get_or, ◌==◌,
  ==_iff, arith, List, [], ◌∷◌, length,
}
use dvb_vulture.Prelude.Bits.{
  all_below, all_from, all_below-at, bit_and_mask, bit_xor-zero, bit_xor-lt,
}
use dvb_vulture.Prelude.Xor.{
  bit_xor_comm, bit_xor_swap, bit_xor_split, bit_xor_digit, bit_xor_fields, zero-bit_xor,
}
use native.Mathlib.Nat.{pow-suc, one-le-pow, mul-le-mul_left}
use dvb_vulture.Prelude.Buffer.{IsBytes}
use dvb_vulture.Section.Crc.{crc_round-lt}
use dvb_vulture.Section.CrcTable.{crc_table}
use dvb_vulture.Section.{crc_round, crc_loop, sec_crc32}

abbrev polynomial : ℕ
polynomial = 0x04c11db7

-- One bit of the division: shift the register up, and subtract the polynomial where a one
-- falls out at the top.
unfoldable pub divide_bit : ℕ → ℕ
divide_bit r = bit_xor (r * 2 % 2 ^ 32) (r / 2 ^ 31 % 2 * polynomial)

unfoldable pub divide_bits : ℕ → ℕ → ℕ
divide_bits zero r = r
divide_bits (suc n) r = divide_bits n (divide_bit r)

table_division : all_below 256 (λ i. get_or crc_table i 0 == divide_bits 8 (i * 2 ^ 24)) ≡ true
unfolding all_from crc_table divide_bits divide_bit
table_division = refl

-- Each entry of the table is the remainder that eight bits leave.
table_entry : (i : ℕ) → i < 256 → get_or crc_table i 0 ≡ divide_bits 8 (i * 2 ^ 24)
table_entry i h =
    (==_iff (get_or crc_table i 0) (divide_bits 8 (i * 2 ^ 24))).0 (
      all_below-at 256 (λ i. get_or crc_table i 0 == divide_bits 8 (i * 2 ^ 24)) i table_division h)

double-bit_xor : (a b : ℕ) → bit_xor (a * 2 % 2 ^ 32) (b * 2 % 2 ^ 32) ≡ bit_xor a b * 2 % 2 ^ 32
double-bit_xor a b =
    let l : ℕ = a % 2 ^ 31 in
    let m : ℕ = b % 2 ^ 31 in
    let left : a * 2 % 2 ^ 32 ≡ l * 2 = omega arith in
    let right : b * 2 % 2 ^ 32 ≡ m * 2 = omega arith in
    let small : bit_xor l m < 2 ^ 31 = bit_xor-lt 31 l m (omega arith) (omega arith) in
    let doubled : bit_xor (l * 2) (m * 2) ≡ bit_xor l m * 2 =
      omega (arith, bit_xor_digit (l * 2) (m * 2), ap₂ bit_xor (halve l) (halve m)) in
    ap₂ bit_xor left right ∙ doubled ∙ omega (arith, bit_xor_split 31 a b)
  where
    halve : (x : ℕ) → x * 2 / 2 ≡ x
    halve x = omega arith

polynomial_choice :
    (x y : ℕ)
    → x < 2
    → y < 2
    → bit_xor (x * polynomial) (y * polynomial) ≡ bit_xor x y % 2 * polynomial
polynomial_choice zero zero h g = refl
polynomial_choice zero (suc zero) h g = refl
polynomial_choice zero (suc (suc y)) h g = absurd (omega arith)
polynomial_choice (suc zero) zero h g = refl
polynomial_choice (suc zero) (suc zero) h g = refl
polynomial_choice (suc zero) (suc (suc y)) h g = absurd (omega arith)
polynomial_choice (suc (suc x)) y h g = absurd (omega arith)

top-bit_xor :
    (a b : ℕ)
    → a < 2 ^ 32
    → b < 2 ^ 32
    → bit_xor (a / 2 ^ 31 % 2 * polynomial) (b / 2 ^ 31 % 2 * polynomial)
      ≡ bit_xor a b / 2 ^ 31 % 2 * polynomial
top-bit_xor a b h g =
    let top_a : a / 2 ^ 31 % 2 ≡ a / 2 ^ 31 = omega arith in
    let top_b : b / 2 ^ 31 % 2 ≡ b / 2 ^ 31 = omega arith in
    let small : bit_xor (a % 2 ^ 31) (b % 2 ^ 31) < 2 ^ 31 =
      bit_xor-lt 31 (a % 2 ^ 31) (b % 2 ^ 31) (omega arith) (omega arith) in
    let top : bit_xor a b / 2 ^ 31 ≡ bit_xor (a / 2 ^ 31) (b / 2 ^ 31) =
      omega (arith, bit_xor_split 31 a b) in
    polynomial_choice (a / 2 ^ 31 % 2) (b / 2 ^ 31 % 2) (omega arith) (omega arith)
    ∙ ap (λ (t : ℕ). t % 2 * polynomial) (ap₂ bit_xor top_a top_b ∙ sym top)

-- The division is linear.
divide_bit-bit_xor :
    (a b : ℕ)
    → a < 2 ^ 32
    → b < 2 ^ 32
    → divide_bit (bit_xor a b) ≡ bit_xor (divide_bit a) (divide_bit b)
unfolding divide_bit
divide_bit-bit_xor a b h g =
    ap₂ bit_xor (sym (double-bit_xor a b)) (sym (top-bit_xor a b h g)) ∙ bit_xor_swap _ _ _ _

divide_bit-lt : (r : ℕ) → divide_bit r < 2 ^ 32
unfolding divide_bit
divide_bit-lt r =
    bit_xor-lt 32 (r * 2 % 2 ^ 32) (r / 2 ^ 31 % 2 * polynomial) (omega arith) (omega arith)

divide_bits-bit_xor :
    (n a b : ℕ)
    → a < 2 ^ 32
    → b < 2 ^ 32
    → divide_bits n (bit_xor a b) ≡ bit_xor (divide_bits n a) (divide_bits n b)
unfolding divide_bits
divide_bits-bit_xor zero a b h g = refl
divide_bits-bit_xor (suc n) a b h g =
    ap (divide_bits n) (divide_bit-bit_xor a b h g)
    ∙ divide_bits-bit_xor n (divide_bit a) (divide_bit b) (divide_bit-lt a) (divide_bit-lt b)

shift_only : (r : ℕ) → r < 2 ^ 31 → divide_bit r ≡ r * 2
unfolding divide_bit
shift_only r h =
    let top : r / 2 ^ 31 % 2 * polynomial ≡ 0 = omega arith in
    ap (bit_xor (r * 2 % 2 ^ 32)) top ∙ bit_xor-zero (r * 2 % 2 ^ 32) ∙ omega arith

-- the register with a byte brought in, as two fields
fields_of :
    (crc byte : ℕ)
    → bit_xor crc (byte * 2 ^ 24) ≡ bit_xor (bit_xor (crc / 2 ^ 24) byte * 2 ^ 24) (crc % 2 ^ 24)
fields_of crc byte =
    let l : ℕ = crc % 2 ^ 24 in
    let h : ℕ = bit_xor (crc / 2 ^ 24) byte in
    let in_fields : bit_xor crc (byte * 2 ^ 24) ≡ h * 2 ^ 24 + l =
      bit_xor_split 24 crc (byte * 2 ^ 24)
      ∙ omega (
        arith,
        ap (λ (t : ℕ). bit_xor (crc / 2 ^ 24) t) (whole byte),
        ap (λ (t : ℕ). bit_xor l t) (none_left byte),
        bit_xor-zero l,
      ) in
    let apart : bit_xor (h * 2 ^ 24 + 0) (0 * 2 ^ 24 + l) ≡ bit_xor h 0 * 2 ^ 24 + bit_xor 0 l =
      bit_xor_fields 24 h 0 0 l (omega arith) (omega arith) in
    in_fields
    ∙ sym (omega (arith, apart, bit_xor-zero h, zero-bit_xor l, ap₂ bit_xor (same h) (bare l)))
  where
    whole : (b : ℕ) → b * 2 ^ 24 / 2 ^ 24 ≡ b
    whole b = omega arith

    none_left : (b : ℕ) → b * 2 ^ 24 % 2 ^ 24 ≡ 0
    none_left b = omega arith

    same : (x : ℕ) → x * 2 ^ 24 + 0 ≡ x * 2 ^ 24
    same x = omega arith

    bare : (x : ℕ) → 0 * 2 ^ 24 + x ≡ x
    bare x = omega arith

-- While nothing falls out at the top, the division only shifts.
divide_bits-low : (n r : ℕ) → r * 2 ^ n < 2 ^ 32 → divide_bits n r ≡ r * 2 ^ n
unfolding divide_bits
divide_bits-low zero r h = omega arith
divide_bits-low (suc n) r h =
    let moved : r * 2 ^ suc n ≡ r * 2 * 2 ^ n =
      omega (arith, ap (λ (t : ℕ). r * t) (pow-suc 2 n)) in
    let small : r * 2 * 1 ≤ r * 2 * 2 ^ n =
      mul-le-mul_left (r * 2) (one-le-pow n 2 (omega arith)) in
    ap (divide_bits n) (shift_only r (omega arith))
    ∙ divide_bits-low n (r * 2) (omega arith)
    ∙ sym moved

-- One round of the table-driven loop is eight bits of the division, the byte brought in at the top.
crc_round_division :
    (crc byte : ℕ)
    → crc < 2 ^ 32
    → byte < 256
    → crc_round crc byte ≡ divide_bits 8 (bit_xor crc (byte * 2 ^ 24))
unfolding crc_round
crc_round_division crc byte small fits =
    let h : ℕ = bit_xor (crc / 2 ^ 24) byte in
    let l : ℕ = crc % 2 ^ 24 in
    let h_byte : h < 2 ^ 8 = bit_xor-lt 8 (crc / 2 ^ 24) byte (omega arith) (omega arith) in
    let index : bit_and h 0xff ≡ h = omega (arith, bit_and_mask 8 h) in
    let shifted : crc * 2 ^ 8 % 2 ^ 32 ≡ l * 2 ^ 8 = omega arith in
    let parts : bit_xor crc (byte * 2 ^ 24) ≡ bit_xor (h * 2 ^ 24) l = fields_of crc byte in
    let entry : get_or crc_table (bit_and h 0xff) 0 ≡ divide_bits 8 (h * 2 ^ 24) =
      ap (λ (i : ℕ). get_or crc_table i 0) index ∙ table_entry h (omega arith) in
    ap₂ bit_xor (shifted ∙ sym (divide_bits-low 8 l (omega arith))) entry
    ∙ bit_xor_comm (divide_bits 8 l) (divide_bits 8 (h * 2 ^ 24))
    ∙ sym (divide_bits-bit_xor 8 (h * 2 ^ 24) l (omega arith) (omega arith))
    ∙ ap (divide_bits 8) (sym parts)

-- the remainder register after a message, bit by bit
unfoldable pub remainder : List ℕ → ℕ → ℕ
remainder [] r = r
remainder (byte ∷ bytes) r = remainder bytes (divide_bits 8 (bit_xor r (byte * 2 ^ 24)))

crc_loop-remainder :
    (bytes : List ℕ) (crc : ℕ)
    → IsBytes bytes
    → crc < 2 ^ 32
    → crc_loop bytes (length bytes) crc ≡ remainder bytes crc
unfolding crc_loop remainder
crc_loop-remainder [] crc v h = refl
crc_loop-remainder (b ∷ bytes) crc v h =
    crc_loop-remainder bytes (crc_round crc b) v.1 (crc_round-lt crc b)
    ∙ ap (remainder bytes) (crc_round_division crc b h v.0)

-- `sec_crc32` over bytes is the remainder of the bitwise division by the polynomial 0x04c11db7,
-- started from a register of ones.
pub sec_crc32-remainder :
    (bytes : List ℕ) → IsBytes bytes → sec_crc32 bytes (length bytes) ≡ remainder bytes 0xffffffff
unfolding sec_crc32
sec_crc32-remainder bytes v = crc_loop-remainder bytes 0xffffffff v (omega arith)
