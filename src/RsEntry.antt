-- ===== src/RsEntry.antt =====
-- common/rs_entry.c, include/rs_entry.h and stream/rec_sched.c: entries of the recording schedule,
-- how they start and end, when they come up again, and where a new one goes.
--
-- A time is a number of seconds, 0 standing for none. `localtime_r` and `mktime`, of the C library,
-- are a parameter: the weekday of a time, the time some days later and the time a month later. The
-- comparison with `start_time - 2 * 60` is written with the subtrahend on the other side. The
-- schedule is a `DList`: here, the list of its entries.
pub mod Days
pub mod Order
pub mod Cycle
pub mod Neq
pub mod Copy
pub mod Tests
use Prim.Native.Nat.{bit_and}
use dvb_vulture.Prelude.Sign.{Sign, less, same, more}
use dvb_vulture.Prelude.{
  ℕ, zero, suc, ◌+◌, ◌*◌, ◌^◌, List, [], ◌∷◌, Option, none, some, Bool, true, false, not, ltb, leb,
  ◌==◌, if◌then◌else◌,
}

-- `RSState`
pub data RsState : Type 0 where
  rs_idle : RsState
  rs_waiting : RsState
  rs_running : RsState

-- `RSType`
pub data RsType : Type 0 where
  rst_once : RsType
  rst_day : RsType
  rst_week : RsType
  rst_2week : RsType
  rst_3week : RsType
  rst_4week : RsType
  rst_month : RsType

-- `int32_t`
pub data Int32 : Type 0 where
  pos : ℕ → Int32
  negsuc : ℕ → Int32

-- `RsEntry`; a name is an address, 0 for NULL
pub record RsEntry : Type 0 where
  pub state : RsState
  pub type : RsType
  pub wd : ℕ
  pub flags : ℕ
  pub position : ℕ
  pub pol : ℕ
  pub freq : ℕ
  pub pnr : ℕ
  pub start_time : ℕ
  pub duration : ℕ
  pub evt_id : Int32
  pub name : ℕ

-- What `localtime_r` and `mktime` are used for.
pub record Calendar : Type 0 where
  pub weekday : ℕ → ℕ
  pub add_days : (days origin : ℕ) → ℕ
  pub add_month : ℕ → ℕ

-- `rsPending`, at a time `now`
pub rs_pending : (now : ℕ) → RsEntry → ℕ
rs_pending now e = elim e.state [
  | rs_idle ↦ 0
  | rs_waiting ↦ if leb e.start_time (now + 2 * 60) then 1 else 0
  | rs_running ↦ 0
]

-- `rsStart`
pub rs_start : RsEntry → ℕ × RsEntry
rs_start e = elim e.state [
  | rs_idle ↦ (1, e)
  | rs_waiting ↦ (0, record e { state = rs_running })
  | rs_running ↦ (1, e)
]

-- `rsIsRunning`
pub rs_is_running : RsEntry → Bool
rs_is_running e = elim e.state [ rs_idle ↦ false | rs_waiting ↦ false | rs_running ↦ true ]

-- `rsStopping`, at a time `now`
pub rs_stopping : (now : ℕ) → RsEntry → ℕ
rs_stopping now e =
    if rs_is_running e then (if leb (e.start_time + e.duration + 2 * 60) now then 1 else 0) else 0

-- `rs_next_month`
abbrev pub rs_next_month : Calendar → (origin : ℕ) → ℕ
rs_next_month calendar origin = calendar.add_month origin

-- `rs_next_4week`
abbrev pub rs_next_4week : Calendar → (origin : ℕ) → ℕ
rs_next_4week calendar origin = calendar.add_days 28 origin

-- `rs_next_3week`
abbrev pub rs_next_3week : Calendar → (origin : ℕ) → ℕ
rs_next_3week calendar origin = calendar.add_days 21 origin

-- `rs_next_2week`
abbrev pub rs_next_2week : Calendar → (origin : ℕ) → ℕ
rs_next_2week calendar origin = calendar.add_days 14 origin

-- `rs_next_week`
abbrev pub rs_next_week : Calendar → (origin : ℕ) → ℕ
rs_next_week calendar origin = calendar.add_days 7 origin

-- the weekday after this one
abbrev pub next_wday : ℕ → ℕ
next_wday wday = if wday + 1 == 7 then 0 else wday + 1

-- the test of a weekday's flag
abbrev pub on_day : (wd wday : ℕ) → Bool
on_day wd wday = not (bit_and (2 ^ wday) wd == 0)

-- the loop of `rs_next_day`: how many days on the next flag is
pub day_loop : (rounds wd days wday : ℕ) → Option ℕ
day_loop zero wd days wday = none
day_loop (suc rounds) wd days wday =
    let rest = day_loop rounds wd (days + 1) (next_wday wday) in
    if on_day wd (next_wday wday) then some (days + 1) else rest

-- `rs_next_day`
pub rs_next_day : Calendar → (wd origin : ℕ) → ℕ
rs_next_day calendar wd origin =
    if bit_and wd 0x7f == 0 then 0 else elim (day_loop 7 wd 0 (calendar.weekday origin)) [
      | none ↦ 0
      | some days ↦ calendar.add_days days origin
    ]

-- `rsNextTime`
pub rs_next_time : Calendar → RsType → (wd time : ℕ) → ℕ
rs_next_time calendar rst_once wd time = 0
rs_next_time calendar rst_day wd time = rs_next_day calendar wd time
rs_next_time calendar rst_week wd time = rs_next_week calendar time
rs_next_time calendar rst_2week wd time = rs_next_2week calendar time
rs_next_time calendar rst_3week wd time = rs_next_3week calendar time
rs_next_time calendar rst_4week wd time = rs_next_4week calendar time
rs_next_time calendar rst_month wd time = rs_next_month calendar time

-- the default case of `rsDone`
pub rs_again : RsEntry → (time : ℕ) → ℕ × RsEntry
rs_again e time =
    if time == 0
    then (1, record e { state = rs_idle; start_time = time })
    else (0, record e { state = rs_waiting; start_time = time })

-- `rsDone`
pub rs_done : Calendar → RsEntry → ℕ × RsEntry
rs_done calendar e =
    if rs_is_running e
    then elim e.type [
      | rst_once ↦ (0, record e { state = rs_idle })
      | rst_day ↦ rs_again e (rs_next_time calendar e.type e.wd e.start_time)
      | rst_week ↦ rs_again e (rs_next_time calendar e.type e.wd e.start_time)
      | rst_2week ↦ rs_again e (rs_next_time calendar e.type e.wd e.start_time)
      | rst_3week ↦ rs_again e (rs_next_time calendar e.type e.wd e.start_time)
      | rst_4week ↦ rs_again e (rs_next_time calendar e.type e.wd e.start_time)
      | rst_month ↦ rs_again e (rs_next_time calendar e.type e.wd e.start_time)
    ]
    else (1, e)

-- `(a < b) ? -1 : (a != b)`
pub compare_key : ℕ → ℕ → Sign
compare_key a b = if ltb a b then less else if a == b then same else more

pub compare_id : Int32 → Int32 → Sign
compare_id (pos a) (pos b) = compare_key a b
compare_id (pos a) (negsuc b) = more
compare_id (negsuc a) (pos b) = less
compare_id (negsuc a) (negsuc b) = compare_key b a

-- `if (0 == rv) rv = ..`
pub or_else : Sign → Sign → Sign
or_else less next = less
or_else same next = next
or_else more next = more

-- `rsEntryCmp`, where the start times are compared the other way round
pub rs_entry_cmp : (ap bp : RsEntry) → Sign
rs_entry_cmp ap bp =
    or_else
      (or_else
        (or_else
          (or_else
            (or_else (compare_key bp.start_time ap.start_time)
              (compare_key ap.position bp.position))
            (compare_key ap.freq bp.freq))
          (compare_key ap.pol bp.pol))
        (compare_key ap.pnr bp.pnr))
      (compare_id ap.evt_id bp.evt_id)

-- `rv >= 0`
pub not_less : Sign → Bool
not_less less = false
not_less same = true
not_less more = true

-- `rsInsertEntry`
pub rs_insert_entry : RsEntry → List RsEntry → List RsEntry
rs_insert_entry e [] = e ∷ []
rs_insert_entry e (x ∷ sched) =
    let rest = rs_insert_entry e sched in
    if not_less (rs_entry_cmp e x) then e ∷ x ∷ sched else x ∷ rest
