-- ===== src/RsEntry/Cycle.antt =====
-- How an entry of the schedule starts, ends and comes up again.
use Prim.Native.Nat.{bit_and}
use dvb_vulture.Prelude.{
  ℕ, ◌-◌, ◌≤◌, ◌<◌, ◌≡◌, ◌≢◌, refl, ap, ◌∙◌, subst, true, false, ◌==◌, Option, none, some, arith,
  ==_ne,
}
use dvb_vulture.RsEntry.{
  RsState, rs_idle, rs_waiting, rs_running, RsType, rst_once, rst_day, rst_week, rst_2week,
  rst_3week, rst_4week, rst_month, RsEntry, Calendar, rs_next_day, rs_next_time, rs_again, rs_done,
  day_loop, on_day, rs_is_running,
}
use dvb_vulture.RsEntry.Days.{later_wday, IsNextDay, day_loop-IsNextDay, no_day_off}

-- What the C library promises for the times in use: weekdays, and later times that are later.
pub record IsCalendar (calendar : Calendar) : Type 0 where
  pub week : (time : ℕ) → calendar.weekday time < 7
  pub days_later : (days time : ℕ) → 1 ≤ days → time < calendar.add_days days time
  pub month_later : (time : ℕ) → time < calendar.add_month time

rs_next_day_lem :
    (calendar : Calendar) (wd time n : ℕ)
    → (bit_and wd 0x7f == 0) ≡ false
    → day_loop 7 wd 0 (calendar.weekday time) ≡ some n
    → rs_next_day calendar wd time ≡ calendar.add_days n time
unfolding rs_next_day
rs_next_day_lem calendar wd time n flags found = rw (flags, found) refl

-- For flags in a byte of which at least one of the seven days' is set, `rs_next_day` goes ahead by
-- one to seven days, to a day whose flag is set, and no day before that has its flag set.
pub rs_next_day_soonest :
    (calendar : Calendar) (wd time : ℕ)
    → calendar.weekday time < 7
    → wd < 256
    → (bit_and wd 0x7f == 0) ≡ false
    → (n : ℕ) × (rs_next_day calendar wd time ≡ calendar.add_days n time)
      × (1 ≤ n)
      × (n ≤ 7)
      × (on_day wd (later_wday (calendar.weekday time) n) ≡ true)
      × ((k : ℕ) → 1 ≤ k → k < n → on_day wd (later_wday (calendar.weekday time) k) ≡ false)
rs_next_day_soonest calendar wd time week byte flags =
    by_loop (day_loop 7 wd 0 (calendar.weekday time)) refl
      (day_loop-IsNextDay 7 wd 0 (calendar.weekday time) week)
  where
    by_loop :
        (o : Option ℕ)
        → day_loop 7 wd 0 (calendar.weekday time) ≡ o
        → IsNextDay 7 wd 0 (calendar.weekday time) o
        → (n : ℕ) × (rs_next_day calendar wd time ≡ calendar.add_days n time)
          × (1 ≤ n)
          × (n ≤ 7)
          × (on_day wd (later_wday (calendar.weekday time) n) ≡ true)
          × ((k : ℕ) → 1 ≤ k → k < n → on_day wd (later_wday (calendar.weekday time) k) ≡ false)
    by_loop none e free =
        absurd (ground (arith, flags, no_day_off wd (calendar.weekday time) byte week free))
    by_loop (some n) e found =
        let whole : n - 0 ≡ n = omega arith in
        (
          n,
          rs_next_day_lem calendar wd time n flags e,
          omega (arith, found.0),
          omega (arith, found.1),
          subst (λ (k : ℕ). on_day wd (later_wday (calendar.weekday time) k) ≡ true) whole found.2,
          λ k one less. found.3 k one (omega arith),
        )

-- the entry repeats, on some day if it is a daily one
abbrev pub Repeats : RsEntry → Type 0
Repeats e =
    (e.type ≢ rst_once) × (e.type ≡ rst_day → (e.wd < 256) × ((bit_and e.wd 0x7f == 0) ≡ false))

next_later :
    (calendar : Calendar) (type : RsType) (wd time : ℕ)
    → IsCalendar calendar
    → type ≢ rst_once
    → (type ≡ rst_day → (wd < 256) × ((bit_and wd 0x7f == 0) ≡ false))
    → time < rs_next_time calendar type wd time
unfolding rs_next_time
next_later calendar rst_once wd time c not_once day = absurd (not_once refl)
next_later calendar rst_day wd time c not_once day =
    let (n, e, one, _, _, _) =
      rs_next_day_soonest calendar wd time (c.week time) (day refl).0 (day refl).1 in
    omega (arith, e, c.days_later n time one)
next_later calendar rst_week wd time c not_once day = c.days_later 7 time (omega arith)
next_later calendar rst_2week wd time c not_once day = c.days_later 14 time (omega arith)
next_later calendar rst_3week wd time c not_once day = c.days_later 21 time (omega arith)
next_later calendar rst_4week wd time c not_once day = c.days_later 28 time (omega arith)
next_later calendar rst_month wd time c not_once day = c.month_later time

abbrev by_kind : {A : Type 0} → RsType → A → A → A
by_kind type x y = elim type [
  | rst_once ↦ x
  | rst_day ↦ y
  | rst_week ↦ y
  | rst_2week ↦ y
  | rst_3week ↦ y
  | rst_4week ↦ y
  | rst_month ↦ y
]

not_once_lem : {A : Type 0} (type : RsType) (x y : A) → type ≢ rst_once → by_kind type x y ≡ y
not_once_lem rst_once x y h = absurd (h refl)
not_once_lem rst_day x y h = refl
not_once_lem rst_week x y h = refl
not_once_lem rst_2week x y h = refl
not_once_lem rst_3week x y h = refl
not_once_lem rst_4week x y h = refl
not_once_lem rst_month x y h = refl

running_lem : (e : RsEntry) → e.state ≡ rs_running → rs_is_running e ≡ true
unfolding rs_is_running
running_lem e h = rw h refl

idle_lem : (e : RsEntry) → e.state ≢ rs_running → rs_is_running e ≡ false
unfolding rs_is_running
idle_lem e h = by_state e.state refl
  where
    by_state :
        (s : RsState)
        → e.state ≡ s
        → elim s [ rs_idle ↦ false | rs_waiting ↦ false | rs_running ↦ true ] ≡ false
    by_state rs_idle r = refl
    by_state rs_waiting r = refl
    by_state rs_running r = absurd (h r)

rs_done_open :
    (calendar : Calendar) (e : RsEntry)
    → (rs_is_running e ≡ true
        → e.type ≡ rst_once
        → rs_done calendar e ≡ (0, record e { state = rs_idle }))
      × (rs_is_running e ≡ true
          → e.type ≢ rst_once
          → rs_done calendar e ≡ rs_again e (rs_next_time calendar e.type e.wd e.start_time))
      × (rs_is_running e ≡ false → rs_done calendar e ≡ (1, e))
unfolding rs_done
rs_done_open calendar e = (
  λ r once. rw r (
      ap
        (λ type.
          by_kind type (0, record e { state = rs_idle })
            (rs_again e (rs_next_time calendar e.type e.wd e.start_time)))
        once),
  λ r not_once. rw r (
      not_once_lem e.type (0, record e { state = rs_idle })
        (rs_again e (rs_next_time calendar e.type e.wd e.start_time)) not_once),
  λ r. rw r refl,
)

rs_again_lem :
    (e : RsEntry) (time : ℕ)
    → 0 < time
    → rs_again e time ≡ (0, record e { state = rs_waiting; start_time = time })
unfolding rs_again
rs_again_lem e time h =
    let there : (time == 0) ≡ false = ==_ne time 0 (λ z. omega arith) in rw there refl

-- With a calendar whose later times are later, `rsDone` takes a running entry of a single event
-- out of the schedule, and makes a running entry that repeats wait for a time after its old start:
-- a daily one needs some day's flag to be set. All other fields stay. An entry that is not running
-- is an error and stays as it is.
pub rs_done_cycle :
    (calendar : Calendar) (e : RsEntry)
    → IsCalendar calendar
    → (e.state ≡ rs_running
        → e.type ≡ rst_once
        → rs_done calendar e ≡ (0, record e { state = rs_idle }))
      × (e.state ≡ rs_running
          → Repeats e
          → (time : ℕ) × (rs_done calendar e
              ≡ (0, record e { state = rs_waiting; start_time = time }))
            × (e.start_time < time))
      × (e.state ≢ rs_running → rs_done calendar e ≡ (1, e))
rs_done_cycle calendar e c =
    let opened = rs_done_open calendar e in
    let time = rs_next_time calendar e.type e.wd e.start_time in
    (
      λ r once. opened.0 (running_lem e r) once,
      λ r again.
          let later = next_later calendar e.type e.wd e.start_time c again.0 again.1 in
          (
            time,
            opened.1 (running_lem e r) again.0 ∙ rs_again_lem e time (omega (arith, later)),
            later,
          ),
      λ r. opened.2 (idle_lem e r),
    )
