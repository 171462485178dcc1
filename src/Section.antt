-- ===== src/Section.antt =====
-- stream/sec_common.c: the header fields that all sections share, and their CRC.
--
-- A section is the list of its bytes. `data` of `sec_crc32` is a `char *`: where `char` is signed
-- the byte is extended by ones above bit 7, which the mask `0xff` removes again.
mod CrcTable
pub mod Crc
pub mod Poly
pub mod Tests
use Prim.Native.Nat.{bit_and, bit_xor}
use dvb_vulture.Prelude.{
  ℕ, zero, suc, ◌+◌, ◌*◌, ◌/◌, ◌%◌, ◌^◌, List, [], ◌∷◌, get_or, ltb, if◌then◌else◌,
}
use dvb_vulture.Bits
use CrcTable.{crc_table}

abbrev pub max_sec_size : ℕ
max_sec_size = 4096

-- `get_sec_size`
unfoldable pub get_sec_size : List ℕ → ℕ
get_sec_size sec = let s = Bits.get sec 1 4 12 + 3 in if ltb max_sec_size s then max_sec_size else s

-- `get_sec_nr`
pub get_sec_nr : List ℕ → ℕ
get_sec_nr sec = get_or sec 6 0

-- `get_sec_pnr`
pub get_sec_pnr : List ℕ → ℕ
get_sec_pnr sec = Bits.get sec 3 0 16

-- `get_sec_version`
unfoldable pub get_sec_version : List ℕ → ℕ
get_sec_version sec = Bits.get sec 5 2 5

-- `sec_is_current`
unfoldable pub sec_is_current : List ℕ → ℕ
sec_is_current sec = Bits.get sec 5 7 1

-- `get_sec_id`
unfoldable pub get_sec_id : List ℕ → ℕ
get_sec_id sec = get_or sec 0 0

-- `get_sec_last`
pub get_sec_last : List ℕ → ℕ
get_sec_last sec = get_or sec 7 0

-- one round of the loop of `sec_crc32`
unfoldable pub crc_round : (crc byte : ℕ) → ℕ
unfolding crc_table
crc_round crc byte =
    bit_xor (crc * 2 ^ 8 % 2 ^ 32) (get_or crc_table (bit_and (bit_xor (crc / 2 ^ 24) byte) 0xff) 0)

-- The loop of `sec_crc32` over the next `len` bytes; a byte past the end of the list reads as 0.
unfoldable pub crc_loop : List ℕ → (len crc : ℕ) → ℕ
crc_loop bytes zero crc = crc
crc_loop [] (suc len) crc = crc_loop [] len (crc_round crc 0)
crc_loop (byte ∷ bytes) (suc len) crc = crc_loop bytes len (crc_round crc byte)

-- `sec_crc32`
unfoldable pub sec_crc32 : List ℕ → ℕ → ℕ
sec_crc32 bytes len = crc_loop bytes len 0xffffffff

-- `secCheckCrc`: 0 where the section's CRC is right
unfoldable pub check_crc : List ℕ → ℕ
check_crc sec = let section_length = Bits.get sec 1 4 12 in sec_crc32 sec (section_length + 3)
