-- ===== src/Bifi/Tests.antt =====
-- Bit fields at concrete positions.
use dvb_vulture.Prelude.{ℕ, ◌≡◌, refl, List, [], ◌∷◌, length, ◌||◌, ◌&&◌, not, ◌==◌, arith}
use dvb_vulture.Prelude.Buffer.{IsBytes}
use dvb_vulture.Bifi.{
  bifi_set, bifi_clr, bifi_is_nonzero, bifi_init, bifi_and, bifi_or, bifi_xor, nonzero_loop, has,
}
use dvb_vulture.Bifi.Laws.{set_clr_get}

abbrev field : List ℕ
field = 3 ∷ 128 ∷ []

set_11 : bifi_set field 11 ≡ (3 ∷ 136 ∷ [])
unfolding bifi_set
set_11 = refl

clr_15 : bifi_clr field 15 ≡ (3 ∷ 0 ∷ [])
unfolding bifi_clr
clr_15 = refl

bifi_is_nonzero-field : (bifi_is_nonzero field ≡ 131) × (bifi_is_nonzero (bifi_init field) ≡ 0)
unfolding bifi_is_nonzero nonzero_loop bifi_init
bifi_is_nonzero-field = (refl, refl)

combined :
    (bifi_and field (6 ∷ 192 ∷ []) ≡ (2 ∷ 128 ∷ []))
    × (bifi_or field (6 ∷ 192 ∷ []) ≡ (7 ∷ 192 ∷ []))
    × (bifi_xor field (6 ∷ 192 ∷ []) ≡ (5 ∷ 64 ∷ []))
unfolding bifi_and bifi_or bifi_xor
combined = (refl, refl, refl)

set_clr_get_example :
    ((j : ℕ) → has (bifi_set field 11) j ≡ (has field j || (11 == j)))
    × ((j : ℕ) → has (bifi_clr field 11) j ≡ (has field j && not (11 == j)))
    × (IsBytes (bifi_set field 11) × (length (bifi_set field 11) ≡ length field))
    × (IsBytes (bifi_clr field 11) × (length (bifi_clr field 11) ≡ length field))
set_clr_get_example = set_clr_get field 11 ((omega arith, (omega arith, tt)), omega arith)
