-- ===== src/Table/Tests.antt =====
-- A small table, entered, walked and cleared.
use dvb_vulture.Prelude.{
  ℕ, ◌+◌, ◌≡◌, ◌≢◌, ◌<◌, ◌↔◌, refl, [], ◌∷◌, replicate, true, false, Option, none, some, arith,
}
use dvb_vulture.Prelude.{zero, suc}
use dvb_vulture.Prelude.Buffer.{IsBytes}
use dvb_vulture.Bifi.{has, bifi_get, bifi_set, bifi_clr, bifi_is_nonzero, nonzero_loop}
use dvb_vulture.Table.{
  Sec, no_sec, Table, enter_sec, clear_tbl_sec, clear_loop, check_enter_sec, replace_sec,
  insert_sec, seek_up, seek_down, complete_from, tbl_is_complete, visit_from, for_each_sec,
  iter_first, iter_last, iter_advance, iter_rewind, iter_init,
}
use dvb_vulture.Table.Places.{IsTable}
use dvb_vulture.Table.Enter.{Stored, mismatch, check_enter_sec_enters}
use dvb_vulture.Table.Walk.{
  IsFirst, IsLast, moved, iter_moves, tbl_is_complete_iff, iter_advance-rewind,
}

abbrev service : (section version : ℕ) → Sec
service section version = record {
  section = section;
  version = version;
  program_number = 0;
  owned = 4096 + section;
}

-- three sections, of which 0 and 2 are there
abbrev sdt : Table
sdt = record {
  table_id = 0x42;
  version = some 4;
  pnr = 0;
  occupied = 5 ∷ replicate 31 0;
  num_sections = 3;
  sections = service 0 4 ∷ service 1 0 ∷ service 2 4 ∷ [];
}

IsBytes-zero : (n : ℕ) → IsBytes (replicate n 0)
IsBytes-zero zero = tt
IsBytes-zero (suc n) = (omega arith, IsBytes-zero n)

sdt-IsTable : IsTable sdt
sdt-IsTable = record {
  bytes = (omega arith, IsBytes-zero 31);
  bits = refl;
  room = refl;
  most = omega arith;
}

complete-entered :
    (tbl_is_complete sdt ≡ 0) × (tbl_is_complete (check_enter_sec sdt (service 1 4) 0x42).after ≡ 1)
unfolding tbl_is_complete complete_from check_enter_sec insert_sec enter_sec bifi_get bifi_set
    bifi_is_nonzero nonzero_loop
complete-entered = (refl, refl)

-- A section of another version takes the place of the old one, which is reported and freed.
check_enter_sec-version :
    let e = check_enter_sec sdt (service 2 5) 0x42 in
    (e.actions ≡ ((some (service 2 4), service 2 5) ∷ [])) × (e.freed ≡ (4098 ∷ []))
unfolding check_enter_sec replace_sec clear_tbl_sec bifi_get
check_enter_sec-version = (refl, refl)

clear_loop-freed : (clear_loop 3 0 sdt).1 ≡ (4096 ∷ 4098 ∷ [])
unfolding clear_loop clear_tbl_sec bifi_get bifi_clr
clear_loop-freed = refl

for_each_sec-sdt : for_each_sec sdt ≡ (service 0 4 ∷ service 2 4 ∷ [])
unfolding for_each_sec visit_from bifi_get
for_each_sec-sdt = refl

iter-sdt :
    (iter_init true sdt ≡ some 0)
    × (iter_advance sdt 0 ≡ (0, 2))
    × (iter_advance sdt 2 ≡ (1, 2))
    × (iter_rewind sdt 2 ≡ (0, 0))
    × (iter_last sdt 0 ≡ 2)
    × (iter_first sdt 2 ≡ 0)
unfolding iter_init iter_advance iter_rewind iter_last iter_first seek_up seek_down bifi_get
    bifi_is_nonzero nonzero_loop
iter-sdt = (refl, refl, refl, refl, refl, refl)

check_enter_sec_enters_example :
    let e = check_enter_sec sdt (service 2 5) 0x42 in
    (has sdt.occupied 2 ≡ true
      → (service 2 4).version ≡ (service 2 5).version
      → e ≡ record { status = 0; after = sdt; given = no_sec; actions = []; freed = 4098 ∷ [] })
    × (has sdt.occupied 2 ≡ true
        → (service 2 4).version ≢ (service 2 5).version
        → Stored sdt (service 2 5) 0x42 (some (service 2 4)) (4098 ∷ []) e)
    × (has sdt.occupied 2 ≡ false
        → mismatch sdt (service 2 5) 0x42 ≡ false
        → Stored sdt (service 2 5) 0x42 none [] e)
    × (has sdt.occupied 2 ≡ false
        → mismatch sdt (service 2 5) 0x42 ≡ true
        → e ≡ record { status = 1; after = sdt; given = service 2 5; actions = []; freed = [] })
check_enter_sec_enters_example =
    check_enter_sec_enters sdt (service 2 5) 0x42 sdt-IsTable refl (omega arith)

iter_moves_example :
    ((next : Option ℕ) × (iter_advance sdt 0 ≡ moved 0 next) × IsFirst sdt.occupied 1 3 next)
    × ((before : Option ℕ) × (iter_rewind sdt 0 ≡ moved 0 before) × IsLast sdt.occupied 0 0 before)
    × ((first : Option ℕ) × (iter_first sdt 0 ≡ (moved 0 first).1) × IsFirst sdt.occupied 0 3 first)
    × ((last : Option ℕ) × (iter_last sdt 0 ≡ (moved 0 last).1) × IsLast sdt.occupied 0 3 last)
iter_moves_example = iter_moves sdt 0 (omega arith)

tbl_is_complete_iff_example :
    (tbl_is_complete sdt ≡ 1) ↔ ((i : ℕ) → i < 3 → has sdt.occupied i ≡ true)
tbl_is_complete_iff_example = tbl_is_complete_iff sdt

iter_advance-rewind_example : iter_rewind sdt 2 ≡ (0, 0)
unfolding iter_advance seek_up bifi_get
iter_advance-rewind_example = iter_advance-rewind sdt 0 2 (omega arith) refl refl
