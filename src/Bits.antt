-- ===== src/Bits.antt =====
-- common/bits.c: fields of up to 48 bits out of a buffer of bytes, most significant bit first.
--
-- A buffer is the list of its bytes. A read past its end gives 0 here; the theorems about a
-- buffer that is long enough never meet one. A shift is a product or a quotient by a power of two.
-- The lengths and offsets, `int` in C, are not negative.
pub mod Field
pub mod Tests
use Prim.Native.Nat.{bit_and, bit_or}
use dvb_vulture.Prelude.{
  ℕ, zero, suc, ◌+◌, ◌-◌, ◌*◌, ◌/◌, ◌%◌, ◌^◌, List, get_or, ltb, leb, ◌==◌, if◌then◌else◌,
}

abbrev pub byte_at : List ℕ → ℕ → ℕ
byte_at buf i = get_or buf i 0

-- `bitsDecodeBcd8`
pub decode_bcd8 : ℕ → ℕ
decode_bcd8 bcd = bit_and bcd 0x0f + 10 * (bcd / 2 ^ 4)

-- The loops of `bitsGet48` and `bitsGet`: the `n` bytes from `b + i` on are put below `high`.
-- The shift `high - 8 - i * 8` is not negative in either, as `i < n ≤ high / 8`.
pub gather : List ℕ → (b high n i tmp : ℕ) → ℕ
gather buf b high zero i tmp = tmp
gather buf b high (suc n) i tmp =
    gather buf b high n (i + 1) (bit_or tmp (byte_at buf (b + i) * 2 ^ (high - 8 - i * 8)))

-- what follows the loop: the shift down and the mask
abbrev pub cut : List ℕ → (b high startbit bitlen : ℕ) → ℕ
cut buf b high startbit bitlen =
    bit_and
      (gather buf b high (high / 8 - (high - startbit - bitlen) / 8) 0 0
        / 2 ^ (high - startbit - bitlen))
      (2 ^ bitlen - 1)

-- `bitsGet48`
pub get48 : List ℕ → (byte_offset startbit bitlen : ℕ) → ℕ
get48 buf byte_offset startbit bitlen =
    if ltb 48 bitlen
    then 0xFEFEFEFEFEFEFEFE
    else cut buf (byte_offset + startbit / 8) 56 (startbit % 8) bitlen

-- `bitsGet`; the tests are the cases of `(bitlen - 1) >> 3`
unfoldable pub get : List ℕ → (byte_offset startbit bitlen : ℕ) → ℕ
get buf byte_offset startbit bitlen =
    if bitlen == 0
    then 0
    else if leb bitlen 8
    then cut buf b 16 (startbit % 8) bitlen
    else if leb bitlen 16
    then cut buf b 24 (startbit % 8) bitlen
    else if leb bitlen 24
    then cut buf b 32 (startbit % 8) bitlen
    else if leb bitlen 32
    then get48 buf b (startbit % 8) bitlen
    else 0xFEFEFEFE
  where
    b : ℕ
    b = byte_offset + startbit / 8
