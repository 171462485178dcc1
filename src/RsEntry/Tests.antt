-- ===== src/RsEntry/Tests.antt =====
-- Entries of the schedule at concrete times, with a calendar in UTC whose months have 30 days.
use dvb_vulture.Prelude.{
  ℕ, ◌+◌, ◌*◌, ◌/◌, ◌%◌, ◌≡◌, ◌≢◌, ◌≤◌, ◌<◌, refl, List, [], ◌∷◌, ◌++◌, true, false, arith,
}
use dvb_vulture.RsEntry.{
  RsState, rs_idle, rs_waiting, rs_running, RsType, rst_once, rst_day, rst_week, pos, RsEntry,
  Calendar, rs_pending, rs_start, rs_stopping, rs_is_running, rs_next_day, rs_done, day_loop,
  on_day, compare_key, compare_id, or_else, not_less, rs_entry_cmp, rs_insert_entry,
}
use dvb_vulture.RsEntry.Days.{later_wday}
use dvb_vulture.RsEntry.Neq.{Strings}
use dvb_vulture.RsEntry.Copy.{strdup, rs_clone, clone_loop, rs_clear_entry, rs_clone_sched}
use dvb_vulture.RsEntry.Order.{IsSorted, rs_insert_entry-IsSorted}
use dvb_vulture.RsEntry.Cycle.{IsCalendar, Repeats, rs_next_day_soonest, rs_done_cycle}

abbrev utc : Calendar
utc = record {
  weekday = λ (time : ℕ). (time / 86400 + 4) % 7;
  add_days = λ (days time : ℕ). time + days * 86400;
  add_month = λ (time : ℕ). time + 30 * 86400;
}

utc-IsCalendar : IsCalendar utc
utc-IsCalendar = record {
  week = λ time. omega arith;
  days_later = λ days time one. omega arith;
  month_later = λ time. omega arith;
}

-- an entry at this time; the daily one is for Saturday and Sunday
abbrev entry : RsState → RsType → (start_time : ℕ) → RsEntry
entry state type start_time = record {
  state = state;
  type = type;
  wd = 0x41;
  flags = 0;
  position = 0;
  pol = 0;
  freq = 0;
  pnr = 1;
  start_time = start_time;
  duration = 3600;
  evt_id = pos 0;
  name = 16;
}

-- Thursday, 1 January 1970; the next flag is that of Saturday.
rs_next_day-flag : rs_next_day utc 0x41 3600 ≡ 176400
unfolding rs_next_day day_loop
rs_next_day-flag = refl

rs_pending-start :
    (rs_pending 3480 (entry rs_waiting rst_week 3600) ≡ 1)
    × (rs_pending 3479 (entry rs_waiting rst_week 3600) ≡ 0)
    × (rs_start (entry rs_waiting rst_week 3600) ≡ (0, entry rs_running rst_week 3600))
    × (rs_stopping 7320 (entry rs_running rst_week 3600) ≡ 1)
unfolding rs_pending rs_start rs_stopping rs_is_running
rs_pending-start = (refl, refl, refl, refl)

abbrev two : List RsEntry
two = entry rs_waiting rst_once 3600 ∷ entry rs_waiting rst_once 7200 ∷ []

two-IsSorted : IsSorted two
unfolding rs_entry_cmp compare_key compare_id or_else not_less
two-IsSorted = (refl, tt)

rs_insert_entry-IsSorted_example :
    IsSorted (rs_insert_entry (entry rs_waiting rst_day 5000) two)
    × ((front : List RsEntry) × (rest : List RsEntry) × (two ≡ front ++ rest)
        × (rs_insert_entry (entry rs_waiting rst_day 5000) two
            ≡ front ++ (entry rs_waiting rst_day 5000 ∷ rest)))
    × ((x y : RsEntry) → IsSorted (x ∷ y ∷ []) → x.start_time ≤ y.start_time)
rs_insert_entry-IsSorted_example =
    rs_insert_entry-IsSorted (entry rs_waiting rst_day 5000) two two-IsSorted

rs_next_day_soonest_example :
    (n : ℕ) × (rs_next_day utc 0x41 3600 ≡ 3600 + n * 86400)
    × (1 ≤ n)
    × (n ≤ 7)
    × (on_day 0x41 (later_wday 4 n) ≡ true)
    × ((k : ℕ) → 1 ≤ k → k < n → on_day 0x41 (later_wday 4 k) ≡ false)
rs_next_day_soonest_example = rs_next_day_soonest utc 0x41 3600 (omega arith) (omega arith) refl

abbrev daily : RsEntry
daily = entry rs_running rst_day 3600

rs_done_cycle_example :
    (daily.state ≡ rs_running
      → daily.type ≡ rst_once
      → rs_done utc daily ≡ (0, record daily { state = rs_idle }))
    × (daily.state ≡ rs_running
        → Repeats daily
        → (time : ℕ) × (rs_done utc daily
            ≡ (0, record daily { state = rs_waiting; start_time = time }))
          × (daily.start_time < time))
    × (daily.state ≢ rs_running → rs_done utc daily ≡ (1, daily))
rs_done_cycle_example = rs_done_cycle utc daily utc-IsCalendar

-- the name at address 16, and room behind all the addresses
abbrev named : Strings
named = (16, 78 ∷ 101 ∷ 119 ∷ 115 ∷ []) ∷ []

abbrev behind : Strings → ℕ
behind [] = 1
behind ((p, chars) ∷ m) = p + behind m

-- a copy has a new address for each name
rs_clone_sched-addresses :
    (rs_clone_sched true behind named two).0
    ≡ ((34, 78 ∷ 101 ∷ 119 ∷ 115 ∷ []) ∷ (17, 78 ∷ 101 ∷ 119 ∷ 115 ∷ []) ∷ named)
unfolding rs_clone_sched clone_loop rs_clone strdup
rs_clone_sched-addresses = refl

rs_clear_entry-name : (rs_clear_entry named daily).1.name ≡ 0
unfolding rs_clear_entry
rs_clear_entry-name = refl
