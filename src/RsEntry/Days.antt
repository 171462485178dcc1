-- ===== src/RsEntry/Days.antt =====
-- The next day of a daily entry.
use Prim.Native.Nat.{bit_and}
use dvb_vulture.Prelude.{
  ℕ, zero, suc, ◌+◌, ◌-◌, ◌%◌, ◌≤◌, ◌<◌, ◌≡◌, refl, ap, sym, ◌∙◌, Bool, true, false, ◌==◌, ◌||◌,
  Option, none, some, arith, inl, inr, Bool-cases,
}
use dvb_vulture.Prelude.Bits.{all_below, all_from, all_below-at}
use dvb_vulture.RsEntry.{next_wday, on_day, day_loop}

-- the weekday some days on
abbrev pub later_wday : (wday days : ℕ) → ℕ
later_wday wday days = (wday + days) % 7

-- How many days on the next flag is, counted from `days` on, among so many rounds.
abbrev pub IsNextDay : (rounds wd days wday : ℕ) → Option ℕ → Type 0
IsNextDay rounds wd days wday none =
    (k : ℕ) → 1 ≤ k → k ≤ rounds → on_day wd (later_wday wday k) ≡ false
IsNextDay rounds wd days wday (some n) =
    (days + 1 ≤ n)
    × (n ≤ days + rounds)
    × (on_day wd (later_wday wday (n - days)) ≡ true)
    × ((k : ℕ) → 1 ≤ k → k < n - days → on_day wd (later_wday wday k) ≡ false)

next_wday_lem : (wday : ℕ) → wday < 7 → next_wday wday ≡ (wday + 1) % 7
next_wday_lem wday h = ground arith

pub day_loop-IsNextDay :
    (rounds wd days wday : ℕ)
    → wday < 7
    → IsNextDay rounds wd days wday (day_loop rounds wd days wday)
unfolding day_loop
day_loop-IsNextDay zero wd days wday h = λ k one most. absurd (omega arith)
day_loop-IsNextDay (suc rounds) wd days wday h = elim (Bool-cases (on_day wd (next_wday wday))) [
  | inl flag ↦ rw flag (
    omega arith,
    omega arith,
    (let e : (wday + (days + 1 - days)) % 7 ≡ next_wday wday =
          omega (arith, next_wday_lem wday h) in
        ap (on_day wd) e ∙ flag),
    λ k one less. absurd (omega arith),
  )
  | inr other ↦ rw other (
      carry other (day_loop rounds wd (days + 1) (next_wday wday)) (
        day_loop-IsNextDay rounds wd (days + 1) (next_wday wday)
          (omega (arith, next_wday_lem wday h))))
]
  where
    shifted : (k : ℕ) → 2 ≤ k → later_wday wday k ≡ later_wday (next_wday wday) (k - 1)
    shifted k two = omega (arith, next_wday_lem wday h)

    first_day : (k : ℕ) → k ≡ 1 → later_wday wday k ≡ next_wday wday
    first_day k e = omega (arith, next_wday_lem wday h)

    until :
        (bound k : ℕ)
        → on_day wd (next_wday wday) ≡ false
        → ((k' : ℕ) → 1 ≤ k' → k' < bound → on_day wd (later_wday (next_wday wday) k') ≡ false)
        → 1 ≤ k
        → k < bound + 1
        → on_day wd (later_wday wday k) ≡ false
    until bound k other free one less = elim (Bool-cases (k == 1)) [
      | inl is_one ↦ ap (on_day wd) (first_day k (ground (arith, is_one))) ∙ other
      | inr more ↦
          let two : 2 ≤ k = ground (arith, more, one) in
          ap (on_day wd) (shifted k two) ∙ free (k - 1) (omega arith) (omega arith)
    ]

    carry :
        on_day wd (next_wday wday) ≡ false
        → (o : Option ℕ) → IsNextDay rounds wd (days + 1) (next_wday wday) o
        → IsNextDay (suc rounds) wd days wday o
    carry other none free = λ k one most.
        until (rounds + 1) k other (λ k' one' less. free k' one' (omega arith)) one (omega arith)
    carry other (some n) found =
        let e : n - (days + 1) ≡ n - days - 1 = omega arith in
        (
          omega (arith, found.0),
          omega (arith, found.1),
          ap (on_day wd) (shifted (n - days) (omega (arith, found.0)))
              ∙ ap (λ (k : ℕ). on_day wd (later_wday (next_wday wday) k)) (sym e)
              ∙ found.2,
          λ k one less. until (n - (days + 1)) k other found.3 one (omega (arith, found.0)),
        )

-- Flags of seven days that are all off are none at all.
no_flags : ℕ → Bool
no_flags wd =
    (bit_and wd 0x7f == 0)
    || (on_day wd 0
        || (on_day wd 1
            || (on_day wd 2 || (on_day wd 3 || (on_day wd 4 || (on_day wd 5 || on_day wd 6))))))

no_flags_table : all_below 256 no_flags ≡ true
unfolding all_from no_flags
no_flags_table = refl

day_off :
    (wd wday day : ℕ)
    → wday < 7
    → day < 7
    → ((k : ℕ) → 1 ≤ k → k ≤ 7 → on_day wd (later_wday wday k) ≡ false)
    → on_day wd day ≡ false
day_off wd wday day h g free =
    let e : (wday + ((day + 7 - wday - 1) % 7 + 1)) % 7 ≡ day = omega arith in
    ap (on_day wd) (sym e) ∙ free ((day + 7 - wday - 1) % 7 + 1) (omega arith) (omega arith)

pub no_day_off :
    (wd wday : ℕ)
    → wd < 256
    → wday < 7
    → ((k : ℕ) → 1 ≤ k → k ≤ 7 → on_day wd (later_wday wday k) ≡ false)
    → (bit_and wd 0x7f == 0) ≡ true
unfolding no_flags
no_day_off wd wday w h free =
    let off = λ (day : ℕ) (g : day < 7). day_off wd wday day h g free in
    let all : no_flags wd ≡ true = all_below-at 256 no_flags wd no_flags_table w in
    either (bit_and wd 0x7f == 0) (ap (λ b. (bit_and wd 0x7f == 0) || b) (sym (seven off)) ∙ all)
  where
    either : (b : Bool) → (b || false) ≡ true → b ≡ true
    either true e = refl
    either false e = e

    seven :
        ((day : ℕ) → day < 7 → on_day wd day ≡ false)
        → (on_day wd 0
            || (on_day wd 1
                || (on_day wd 2 || (on_day wd 3 || (on_day wd 4 || (on_day wd 5 || on_day wd 6))))))
          ≡ false
    seven off =
        rw
          (
            off 0 (omega arith),
            off 1 (omega arith),
            off 2 (omega arith),
            off 3 (omega arith),
            off 4 (omega arith),
            off 5 (omega arith),
            off 6 (omega arith),
          )
          refl
