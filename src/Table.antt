-- ===== src/Table.antt =====
-- stream/table.c: tables of the sections of one kind, and the iterator over one.
--
-- A section is the record of the header fields that these functions read and of the address of
-- the memory it owns (0: none). The four kinds of sections share a union of arrays, which is one
-- list here; the table id chooses between them. `action` is the caller's; a call of it is a pair
-- of the old section, if there was one, and the new one. What a section owns is given back to the
-- allocator as a whole: the one address stands for its array and for what the elements of it own.
-- A table has at most 256 sections, which is what its 32 bytes of bits have room for: a position
-- beyond them reads as free here, and would be past the array in the program.
-- Writing tables to a file, and allocating them, is left out.
pub mod Places
pub mod Enter
pub mod Walk
pub mod Tests
use dvb_vulture.Prelude.{
  ℕ, zero, suc, ◌+◌, ◌-◌, List, [], ◌∷◌, ◌++◌, get_or, set, Option, none, some, Bool, true, false,
  not, ◌==◌, ◌||◌, ◌&&◌, leb, if◌then◌else◌,
}
use dvb_vulture.Bifi.{bifi_set, bifi_clr, bifi_is_nonzero, has}

-- `PAS`, `PMS`, `NIS` or `SDS`; only a `PMS` has a program number
pub record Sec : Type 0 where
  pub section : ℕ
  pub version : ℕ
  pub program_number : ℕ
  pub owned : ℕ

abbrev pub no_sec : Sec
no_sec = record { section = 0; version = 0; program_number = 0; owned = 0 }

-- `Table`; a version of -1 is `none`
pub record Table : Type 0 where
  pub table_id : ℕ
  pub version : Option ℕ
  pub pnr : ℕ
  pub occupied : List ℕ
  pub num_sections : ℕ
  pub sections : List Sec

-- the cases of the switches over the type
abbrev pub small_kind : ℕ → Bool
small_kind type = (type == 0x00) || (type == 0x02)

abbrev pub large_kind : ℕ → Bool
large_kind type = ((type == 0x40) || (type == 0x41)) || ((type == 0x42) || (type == 0x46))

abbrev pub known : ℕ → Bool
known type = small_kind type || large_kind type

-- What is left of a section: `clear_pas` and `clear_pms` reset the array and its count only.
pub clear_pas : Sec → Sec
clear_pas p = record p { owned = 0 }

pub clear_pms : Sec → Sec
clear_pms p = record p { owned = 0 }

-- `clear_nis` and `clear_sds` end with a memset of the section.
pub clear_nis : Sec → Sec
clear_nis n = no_sec

pub clear_sds : Sec → Sec
clear_sds n = no_sec

-- the switch of `clear_tbl_sec`, and of `check_enter_sec`, in the cases of a known type
pub cleared : ℕ → Sec → Sec
cleared type sec =
    if type == 0x00
    then clear_pas sec
    else if type == 0x02
    then clear_pms sec
    else if (type == 0x40) || (type == 0x41)
    then clear_nis sec
    else clear_sds sec

abbrev pub sec_at : Table → ℕ → Sec
sec_at t i = get_or t.sections i no_sec

-- `enter_sec`
pub enter_sec : Table → (sec_idx : ℕ) → Sec → (type : ℕ) → ℕ × Table
enter_sec t sec_idx sec type =
    if known type
    then (
      0,
      record t {
        sections = set t.sections sec_idx sec;
        occupied = bifi_set t.occupied sec.section;
      },
    )
    else (1, t)

-- `clear_tbl_sec`, with what it frees
pub clear_tbl_sec : Table → (sec_idx type : ℕ) → ℕ × Table × List ℕ
clear_tbl_sec t sec_idx type =
    if known type
    then (
      0,
      record t {
        sections = set t.sections sec_idx (cleared type (sec_at t sec_idx));
        occupied = bifi_clr t.occupied sec_idx;
      },
      (sec_at t sec_idx).owned ∷ [],
    )
    else (1, t, [])

-- the loop of `clear_tbl`, over the positions from `i` on
pub clear_loop : (rounds i : ℕ) → Table → Table × List ℕ
clear_loop zero i t = (t, [])
clear_loop (suc rounds) i t =
    let c = clear_tbl_sec t i t.table_id in
    let step : Table × List ℕ = if has t.occupied i then (c.1, c.2) else (t, []) in
    let rest = clear_loop rounds (i + 1) step.0 in (rest.0, step.1 ++ rest.1)

-- What a call of `check_enter_sec` does: its status, the table, what is left of the section passed
-- in, the calls of `action` and the memory freed.
pub record Entry : Type 0 where
  pub status : ℕ
  pub after : Table
  pub given : Sec
  pub actions : List (Option Sec × Sec)
  pub freed : List ℕ

-- the assignments behind `enter_sec`
abbrev pub stamped : Table → Sec → (type : ℕ) → Table
stamped t sec type = record t {
  pnr = if type == 0x02 then sec.program_number else t.pnr;
  version = some sec.version;
}

-- a section of another version is there
pub replace_sec : Table → Sec → (type : ℕ) → Entry
replace_sec t sec type =
    let old = sec_at t sec.section in
    let c = clear_tbl_sec t sec.section type in
    record {
      status = 0;
      after = stamped (enter_sec c.1 sec.section sec type).1 sec type;
      given = sec;
      actions = (some old, sec) ∷ [];
      freed = c.2;
    }

-- the same version is there
pub drop_sec : Table → Sec → (type : ℕ) → Entry
drop_sec t sec type =
    if known type
    then record {
      status = 0;
      after = t;
      given = cleared type sec;
      actions = [];
      freed = sec.owned ∷ [];
    }
    else record { status = 1; after = t; given = sec; actions = []; freed = [] }

-- no section is there
pub insert_sec : Table → Sec → (type : ℕ) → Entry
insert_sec t sec type =
    if (type == 0x02)
      && (not (bifi_is_nonzero t.occupied == 0) && not (t.pnr == sec.program_number))
    then record { status = 1; after = t; given = sec; actions = []; freed = [] }
    else record {
      status = 0;
      after = stamped (enter_sec t sec.section sec type).1 sec type;
      given = sec;
      actions = (none, sec) ∷ [];
      freed = [];
    }

-- `check_enter_sec`
pub check_enter_sec : Table → Sec → (type : ℕ) → Entry
check_enter_sec t sec type =
    if has t.occupied sec.section
    then (if (sec_at t sec.section).version == sec.version
        then drop_sec t sec type
        else replace_sec t sec type)
    else insert_sec t sec type

-- The loops that look for an occupied position: from `ctr` on upwards, and below `ctr` downwards.
pub seek_up : List ℕ → (rounds ctr : ℕ) → Option ℕ
seek_up occupied zero ctr = none
seek_up occupied (suc rounds) ctr =
    let rest = seek_up occupied rounds (ctr + 1) in if has occupied ctr then some ctr else rest

pub seek_down : List ℕ → (ctr : ℕ) → Option ℕ
seek_down occupied zero = none
seek_down occupied (suc ctr) =
    let rest = seek_down occupied ctr in if has occupied ctr then some ctr else rest

-- `tbl_is_complete`
pub complete_from : List ℕ → (rounds i : ℕ) → ℕ
complete_from occupied zero i = 1
complete_from occupied (suc rounds) i =
    let rest = complete_from occupied rounds (i + 1) in if not (has occupied i) then 0 else rest

pub tbl_is_complete : Table → ℕ
tbl_is_complete t = complete_from t.occupied t.num_sections 0

-- what `for_each_pas` and its kin call the function on, in order
pub visit_from : Table → (rounds i : ℕ) → List Sec
visit_from t zero i = []
visit_from t (suc rounds) i =
    let rest = visit_from t rounds (i + 1) in if has t.occupied i then sec_at t i ∷ rest else rest

pub for_each_sec : Table → List Sec
for_each_sec t = visit_from t t.num_sections 0

-- The iterator's state is its position. A call gives a status and the position afterwards.
pub iter_first : Table → (idx : ℕ) → ℕ
iter_first t idx = elim (seek_up t.occupied t.num_sections 0) [ none ↦ idx | some i ↦ i ]

-- `iterTblLast`, for a table with sections, as `iterTblInit` asks for
pub iter_last : Table → (idx : ℕ) → ℕ
iter_last t idx = elim (seek_down t.occupied t.num_sections) [ none ↦ idx | some i ↦ i ]

-- `iterTblAdvance`
pub iter_advance : Table → (idx : ℕ) → ℕ × ℕ
iter_advance t idx = elim (seek_up t.occupied (t.num_sections - (idx + 1)) (idx + 1)) [
  | none ↦ (1, idx)
  | some i ↦ (0, i)
]

-- `iterTblRewind`
pub iter_rewind : Table → (idx : ℕ) → ℕ × ℕ
iter_rewind t idx = elim (seek_down t.occupied idx) [ none ↦ (1, idx) | some i ↦ (0, i) ]

-- `iterTblInit`: the first position, or an error; whether memory is there is an argument
pub iter_init : Bool → Table → Option ℕ
iter_init memory t =
    if ((t.num_sections == 0) || (bifi_is_nonzero t.occupied == 0)) || not memory
    then none
    else seek_up t.occupied t.num_sections 0
