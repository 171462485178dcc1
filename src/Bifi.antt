-- ===== src/Bifi.antt =====
-- common/bifi.c: large bit fields. A field is the list of its bytes; a position past its end reads
-- as 0 and is not written. `bifiAlloc`, an allocation alone, is left out.
pub mod Bytes
pub mod Laws
pub mod Tests
use Prim.Native.Nat.{bit_and, bit_or, bit_xor}
use dvb_vulture.Prelude.{
  ℕ, zero, suc, ◌+◌, ◌-◌, ◌*◌, ◌/◌, ◌%◌, ◌^◌, List, [], ◌∷◌, get_or, set, Bool, not, ◌==◌,
}

-- `bifiGet`
unfoldable pub bifi_get : List ℕ → (bit_idx : ℕ) → ℕ
bifi_get field bit_idx = bit_and (get_or field (bit_idx / 8) 0) (2 ^ (bit_idx % 8))

-- `bifiSet`
unfoldable pub bifi_set : List ℕ → (bit_idx : ℕ) → List ℕ
bifi_set field bit_idx =
    set field (bit_idx / 8) (bit_or (get_or field (bit_idx / 8) 0) (2 ^ (bit_idx % 8)))

-- `bifiClr`; the complement of the mask has just its low byte's ones, once it meets a byte
unfoldable pub bifi_clr : List ℕ → (bit_idx : ℕ) → List ℕ
bifi_clr field bit_idx =
    set field (bit_idx / 8) (bit_and (get_or field (bit_idx / 8) 0) (255 - 2 ^ (bit_idx % 8)))

-- the loop of `bifiIsNonzero`
unfoldable pub nonzero_loop : (rv : ℕ) → List ℕ → ℕ
nonzero_loop rv [] = rv
nonzero_loop rv (byte ∷ field) = nonzero_loop (bit_or rv byte) field

-- `bifiIsNonzero`, of a whole field
unfoldable pub bifi_is_nonzero : List ℕ → ℕ
unfolding nonzero_loop
bifi_is_nonzero field = nonzero_loop 0 field

-- `bifiInit`, of a whole field
unfoldable pub bifi_init : List ℕ → List ℕ
bifi_init [] = []
bifi_init (byte ∷ field) = 0 ∷ bifi_init field

-- `bifiAnd`, `bifiOr` and `bifiXor`, of whole fields of one size
unfoldable pub bifi_and : List ℕ → List ℕ → List ℕ
bifi_and [] b = []
bifi_and (x ∷ a) [] = []
bifi_and (x ∷ a) (y ∷ b) = bit_and x y ∷ bifi_and a b

unfoldable pub bifi_or : List ℕ → List ℕ → List ℕ
bifi_or [] b = []
bifi_or (x ∷ a) [] = []
bifi_or (x ∷ a) (y ∷ b) = bit_or x y ∷ bifi_or a b

unfoldable pub bifi_xor : List ℕ → List ℕ → List ℕ
bifi_xor [] b = []
bifi_xor (x ∷ a) [] = []
bifi_xor (x ∷ a) (y ∷ b) = bit_xor x y ∷ bifi_xor a b

-- A test `if (bifiGet (..))`.
abbrev pub has : List ℕ → ℕ → Bool
has field i = not (bifi_get field i == 0)
