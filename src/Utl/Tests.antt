-- ===== src/Utl/Tests.antt =====
-- Growing buffers at concrete bytes.
use dvb_vulture.Prelude.{ℕ, ◌≡◌, refl, [], ◌∷◌, none, some, Bool, true, arith}
use dvb_vulture.Prelude.Buffer.{write}
use dvb_vulture.Utl.{Growing, make_room, smart_memmove, append, rmv}
use dvb_vulture.Utl.Grow.{used, IsGrowing, smart_memmove_appends}

abbrev roomy : ℕ → Bool
roomy n = true

abbrev three : Growing
three = record { str = some (7 ∷ 8 ∷ 9 ∷ []); size = 3; alloc = 3 }

abbrev empty : Growing
empty = record { str = none; size = 0; alloc = 0 }

append-elements :
    let r = append roomy empty (some (1 ∷ 2 ∷ 3 ∷ 4 ∷ [])) 2 2 in
    (r.0 ≡ 0) × (used (record r.1 { size = 4 }) ≡ (1 ∷ 2 ∷ 3 ∷ 4 ∷ [])) × (r.1.size ≡ 2)
unfolding append smart_memmove make_room write
append-elements = (refl, refl, refl)

rmv-elements :
    (rmv (1 ∷ 2 ∷ 3 ∷ 4 ∷ 5 ∷ 6 ∷ []) 3 2 1 ≡ (0, 1 ∷ 2 ∷ 5 ∷ 6 ∷ 5 ∷ 6 ∷ [], 2))
    × (rmv (1 ∷ 2 ∷ []) 2 1 1 ≡ (0, 1 ∷ 0 ∷ [], 1))
    × (rmv (1 ∷ 2 ∷ []) 2 1 2 ≡ (1, 1 ∷ 2 ∷ [], 2))
unfolding rmv write
rmv-elements = (refl, refl, refl)

smart_memmove_appends_example :
    let r = smart_memmove roomy three (some (1 ∷ 2 ∷ [])) 2 in
    (r.0 ≡ 0) × (used r.1 ≡ (7 ∷ 8 ∷ 9 ∷ 1 ∷ 2 ∷ [])) × (r.1.size ≡ 5) × IsGrowing r.1
smart_memmove_appends_example =
    smart_memmove_appends roomy three (1 ∷ 2 ∷ []) (λ n. refl) (refl, omega arith) (omega arith)
