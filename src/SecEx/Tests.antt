-- ===== src/SecEx/Tests.antt =====
-- A section in two packets, and the packet that ends it.
use dvb_vulture.Prelude.{
  ◌≤◌, ◌≡◌, refl, ◌⊎◌, ◌≢◌, none, some, List, [], ◌∷◌, ◌++◌, replicate, map, Bool, true, arith,
}
use dvb_vulture.Packet.{get_pusi, get_afc, get_pid, ts_len}
use dvb_vulture.Prelude.Buffer.{write}
use dvb_vulture.SecEx.{
  Packet, ranges, get_ranges, new_state, collect, starting, gathering, resumed, resuming, dispatch,
  process, find_state, put_state, get_or_ins, put, run, flush,
}
use dvb_vulture.SecEx.Ranges.{get_ranges_bounds, get_ranges_codes}
use dvb_vulture.SecEx.Spec.{waiting, spec}
use dvb_vulture.SecEx.Refine.{Agrees, process_refines}
use dvb_vulture.SecEx.Release.{count, run-flush_releases}

-- a section starts behind the pointer field, which is 0
abbrev opener : Packet
opener = record { id = 11; bytes = 0x47 ∷ 0x40 ∷ 0x1f ∷ 0x10 ∷ 0 ∷ 0x7f ∷ replicate 182 5 }

-- the same pid, payload only
abbrev follower : Packet
follower = record { id = 12; bytes = 0x47 ∷ 0x00 ∷ 0x1f ∷ 0x11 ∷ replicate 184 6 }

-- three bytes of the old section, then another one
abbrev closer : Packet
closer = record { id = 13; bytes = 0x47 ∷ 0x40 ∷ 0x1f ∷ 0x12 ∷ 3 ∷ 7 ∷ 7 ∷ 7 ∷ replicate 180 9 }

abbrev packets : List (Bool × Packet)
packets = (true, opener) ∷ (true, follower) ∷ (true, closer) ∷ []

ranges_found :
    (get_ranges opener.bytes ≡ ranges 5 5 (some 188))
    × (get_ranges follower.bytes ≡ ranges 4 188 none)
    × (get_ranges closer.bytes ≡ ranges 5 8 (some 188))
unfolding get_ranges get_afc get_pusi
ranges_found = (refl, refl, refl)

released_in_order : (run [] packets).1 ≡ 11 ∷ 12 ∷ []
unfolding run put get_or_ins find_state put_state process dispatch starting gathering resuming
    resumed collect get_ranges get_afc get_pusi get_pid write
released_in_order = refl

get_ranges_bounds_example :
    (4 ≤ 5)
    × (5 ≤ 8)
    × (8 ≤ ts_len)
    × (((some ts_len ≡ none) × (8 ≡ ts_len) × (get_pusi closer.bytes ≡ 0))
        ⊎ ((some ts_len ≡ some ts_len) × (get_pusi closer.bytes ≢ 0)))
get_ranges_bounds_example = get_ranges_bounds closer.bytes 5 8 (some ts_len) ranges_found.2

get_ranges_codes_example : (1 ≤ 1) × (1 ≤ 4)
unfolding get_ranges get_afc
get_ranges_codes_example = get_ranges_codes (replicate 188 0) 1 refl

process_refines_example : Agrees (process new_state opener) (spec waiting opener)
process_refines_example =
    process_refines new_state opener waiting (record { size = refl; within = omega arith })
      (refl, refl, refl) refl

run-flush_releases_example :
    count 13 ((run [] packets).1 ++ (flush (run [] packets).0).1)
    ≡ count 13 (map (λ c. c.1.id) packets)
run-flush_releases_example = run-flush_releases 13 packets
