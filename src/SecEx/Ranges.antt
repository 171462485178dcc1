-- ===== src/SecEx/Ranges.antt =====
-- The ranges that `sec_ex_get_ranges` returns lie inside the packet.
use dvb_vulture.Prelude.{ℕ, ◌≤◌, ◌≡◌, ◌⊎◌, ◌≢◌, List, Option, none, some, arith}
use dvb_vulture.Packet.{ts_len, get_pusi}
use dvb_vulture.SecEx.{invalid, ranges, get_ranges}

-- A range that was found starts behind the header and ends at the packet's end or at the start of
-- the next section, which then goes on to the packet's end; c is -1 just in the packets with no
-- payload unit start indicator.
pub get_ranges_bounds :
    (bytes : List ℕ) (a b : ℕ) (c : Option ℕ)
    → get_ranges bytes ≡ ranges a b c
    → (4 ≤ a)
      × (a ≤ b)
      × (b ≤ ts_len)
      × (((c ≡ none) × (b ≡ ts_len) × (get_pusi bytes ≡ 0))
          ⊎ ((c ≡ some ts_len) × (get_pusi bytes ≢ 0)))
unfolding get_ranges
get_ranges_bounds bytes a b c h = ground arith

-- Of the error codes of `sec_ex_get_ranges` only 1 to 4 occur: the tests behind them, for 5 and 6,
-- never hold.
pub get_ranges_codes : (bytes : List ℕ) (e : ℕ) → get_ranges bytes ≡ invalid e → (1 ≤ e) × (e ≤ 4)
unfolding get_ranges
get_ranges_codes bytes e h = ground arith
