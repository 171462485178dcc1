-- ===== src/Table/Walk.antt =====
-- The walks over a table's occupied positions: those below its number of sections, which is at most
-- 256 in the program, so that their bits are inside the 32 bytes.
use dvb_vulture.Prelude.{
  ℕ, zero, suc, ◌+◌, ◌-◌, ◌≤◌, ◌<◌, ◌≡◌, ◌↔◌, refl, ap, sym, ◌∙◌, subst, List, Option, none, some,
  true, false, arith, inl, inr, Bool-cases, ltb, ltb→lt, ltb→le,
}
use dvb_vulture.Bifi.{has}
use dvb_vulture.Table.{
  Table, seek_up, seek_down, complete_from, tbl_is_complete, iter_first, iter_last, iter_advance,
  iter_rewind,
}

-- no occupied position from `low` to below `high`
abbrev pub Free : List ℕ → (low high : ℕ) → Type 0
Free occupied low high = (j : ℕ) → low ≤ j → j < high → has occupied j ≡ false

abbrev pub IsOccupied : List ℕ → (low i high : ℕ) → Type 0
IsOccupied occupied low i high = (low ≤ i) × (i < high) × (has occupied i ≡ true)

-- The first occupied position of a range, and the last.
abbrev pub IsFirst : List ℕ → (low high : ℕ) → Option ℕ → Type 0
IsFirst occupied low high none = Free occupied low high
IsFirst occupied low high (some i) = IsOccupied occupied low i high × Free occupied low i

abbrev pub IsLast : List ℕ → (low high : ℕ) → Option ℕ → Type 0
IsLast occupied low high none = Free occupied low high
IsLast occupied low high (some i) = IsOccupied occupied low i high × Free occupied (i + 1) high

earlier : (low j : ℕ) → low ≤ j → (ltb low j ≡ false) → j ≡ low
earlier low j h e = let back : j ≤ low = ltb→le low j e in omega arith

Free-cons :
    (occupied : List ℕ) (low high : ℕ)
    → has occupied low ≡ false
    → Free occupied (low + 1) high
    → Free occupied low high
Free-cons occupied low high h rest j from below = elim (Bool-cases (ltb low j)) [
  | inl later ↦ let after : low < j = ltb→lt low j later in rest j (omega arith) below
  | inr here ↦ ap (has occupied) (earlier low j from here) ∙ h
]

Free-snoc :
    (occupied : List ℕ) (low high : ℕ)
    → has occupied high ≡ false
    → Free occupied low high
    → Free occupied low (high + 1)
Free-snoc occupied low high h rest j from below = elim (Bool-cases (ltb j high)) [
  | inl before ↦ rest j from (ltb→lt j high before)
  | inr here ↦
      let top : high ≤ j = ltb→le j high here in
      let e : j ≡ high = omega arith in ap (has occupied) e ∙ h
]

Free-nil : (occupied : List ℕ) (low high : ℕ) → high ≤ low → Free occupied low high
Free-nil occupied low high h j from below = absurd (omega arith)

seek_up-IsFirst :
    (occupied : List ℕ) (rounds ctr high : ℕ)
    → high ≡ ctr + rounds
    → IsFirst occupied ctr high (seek_up occupied rounds ctr)
unfolding seek_up
seek_up-IsFirst occupied zero ctr high e = Free-nil occupied ctr high (omega arith)
seek_up-IsFirst occupied (suc rounds) ctr high e = elim (Bool-cases (has occupied ctr)) [
  | inl there ↦
      rw there ((omega arith, omega arith, there), Free-nil occupied ctr ctr (omega arith))
  | inr free ↦ rw free (
      later free (seek_up occupied rounds (ctr + 1))
        (seek_up-IsFirst occupied rounds (ctr + 1) high (omega arith)))
]
  where
    later :
        has occupied ctr ≡ false
        → (o : Option ℕ) → IsFirst occupied (ctr + 1) high o
        → IsFirst occupied ctr high o
    later free none f = Free-cons occupied ctr high free f
    later free (some i) f =
        ((omega (arith, f.0.0), f.0.1, f.0.2), Free-cons occupied ctr i free f.1)

seek_down-IsLast : (occupied : List ℕ) (ctr : ℕ) → IsLast occupied 0 ctr (seek_down occupied ctr)
unfolding seek_down
seek_down-IsLast occupied zero = Free-nil occupied 0 0 (omega arith)
seek_down-IsLast occupied (suc ctr) = elim (Bool-cases (has occupied ctr)) [
  | inl there ↦
      rw there
        ((omega arith, omega arith, there), Free-nil occupied (ctr + 1) (suc ctr) (omega arith))
  | inr free ↦ rw free (below free (seek_down occupied ctr) (seek_down-IsLast occupied ctr))
]
  where
    top : suc ctr ≡ ctr + 1
    top = omega arith

    below :
        has occupied ctr ≡ false
        → (o : Option ℕ) → IsLast occupied 0 ctr o
        → IsLast occupied 0 (suc ctr) o
    below free none f = subst (Free occupied 0) (sym top) (Free-snoc occupied 0 ctr free f)
    below free (some i) f = (
      (f.0.0, omega (arith, f.0.1), f.0.2),
      subst (Free occupied (i + 1)) (sym top) (Free-snoc occupied (i + 1) ctr free f.1),
    )

-- What `iterTblAdvance` and `iterTblRewind` do, from the search that they run.
abbrev pub moved : (idx : ℕ) → Option ℕ → ℕ × ℕ
moved idx none = (1, idx)
moved idx (some i) = (0, i)

position : (idx : ℕ) (o : Option ℕ) → elim o [ none ↦ idx | some i ↦ i ] ≡ (moved idx o).1
position idx none = refl
position idx (some i) = refl

-- From a position inside the table, `iterTblAdvance` goes to the next occupied position and
-- `iterTblRewind` to the one before, with status 0; where there is none the status is 1 and the
-- position stays. `iterTblFirst` goes to the first occupied position and `iterTblLast` to the last,
-- if there is one.
pub iter_moves :
    (t : Table) (idx : ℕ)
    → idx < t.num_sections
    → ((next : Option ℕ) × (iter_advance t idx ≡ moved idx next)
        × IsFirst t.occupied (idx + 1) t.num_sections next)
      × ((before : Option ℕ) × (iter_rewind t idx ≡ moved idx before)
          × IsLast t.occupied 0 idx before)
      × ((first : Option ℕ) × (iter_first t idx ≡ (moved idx first).1)
          × IsFirst t.occupied 0 t.num_sections first)
      × ((last : Option ℕ) × (iter_last t idx ≡ (moved idx last).1)
          × IsLast t.occupied 0 t.num_sections last)
unfolding iter_advance iter_rewind iter_first iter_last
iter_moves t idx inside = (
  (
    seek_up t.occupied (t.num_sections - (idx + 1)) (idx + 1),
    refl,
    seek_up-IsFirst t.occupied (t.num_sections - (idx + 1)) (idx + 1) t.num_sections (omega arith),
  ),
  (seek_down t.occupied idx, refl, seek_down-IsLast t.occupied idx),
  (
    seek_up t.occupied t.num_sections 0,
    position idx (seek_up t.occupied t.num_sections 0),
    seek_up-IsFirst t.occupied t.num_sections 0 t.num_sections (omega arith),
  ),
  (
    seek_down t.occupied t.num_sections,
    position idx (seek_down t.occupied t.num_sections),
    seek_down-IsLast t.occupied t.num_sections,
  ),
)

complete_from_lem :
    (occupied : List ℕ) (rounds i : ℕ)
    → (complete_from occupied rounds i ≡ 1
        → (j : ℕ) → i ≤ j
        → j < i + rounds
        → has occupied j ≡ true)
      × (((j : ℕ) → i ≤ j → j < i + rounds → has occupied j ≡ true)
          → complete_from occupied rounds i ≡ 1)
unfolding complete_from
complete_from_lem occupied zero i = (λ h j from below. absurd (omega arith), λ h. refl)
complete_from_lem occupied (suc rounds) i =
    let rest = complete_from_lem occupied rounds (i + 1) in
    elim (Bool-cases (has occupied i)) [
      | inl there ↦ rw there (
        λ done j from below. elim (Bool-cases (ltb i j)) [
          | inl later ↦
              let after : i < j = ltb→lt i j later in rest.0 done j (omega arith) (omega arith)
          | inr here ↦ ap (has occupied) (earlier i j from here) ∙ there
        ],
        λ all. rest.1 (λ j from below. all j (omega arith) (omega arith)),
      )
      | inr free ↦ rw free (
        λ done j from below. absurd (ground (arith, done)),
        λ all. absurd (ground (arith, free, all i (omega arith) (omega arith))),
      )
    ]

-- `tbl_is_complete` returns 1 exactly for a table whose positions are all occupied.
pub tbl_is_complete_iff :
    (t : Table) → (tbl_is_complete t ≡ 1) ↔ ((i : ℕ) → i < t.num_sections → has t.occupied i ≡ true)
unfolding tbl_is_complete
tbl_is_complete_iff t =
    let lem = complete_from_lem t.occupied t.num_sections 0 in
    (
      λ done i below. lem.0 done i (omega arith) (omega arith),
      λ all. lem.1 (λ j from below. all j (omega arith)),
    )

-- The occupied position before the next one is the one where the search began.
back_again :
    (occupied : List ℕ) (idx i high k : ℕ)
    → has occupied idx ≡ true
    → IsFirst occupied (idx + 1) high (some i)
    → IsLast occupied 0 i (some k)
    → k ≡ idx
back_again occupied idx i high k here first last = elim (Bool-cases (ltb k idx)) [
  | inl less ↦
      let lt : k < idx = ltb→lt k idx less in
      let free = last.1 idx (omega arith) (omega (arith, first.0.0)) in
      absurd (ground (arith, here, free))
  | inr not_less ↦
      let ge : idx ≤ k = ltb→le k idx not_less in
      elim (Bool-cases (ltb idx k)) [
        | inl more ↦
            let gt : idx < k = ltb→lt idx k more in
            let free = first.1 k (omega arith) last.0.1 in absurd (ground (arith, last.0.2, free))
        | inr not_more ↦ let le : k ≤ idx = ltb→le idx k not_more in omega arith
      ]
]

-- From an occupied position, `iterTblRewind` undoes `iterTblAdvance` where that finds a position.
pub iter_advance-rewind :
    (t : Table) (idx i : ℕ)
    → idx < t.num_sections
    → has t.occupied idx ≡ true
    → iter_advance t idx ≡ (0, i)
    → iter_rewind t i ≡ (0, idx)
unfolding iter_advance iter_rewind
iter_advance-rewind t idx i inside here =
    by_next (seek_up t.occupied (t.num_sections - (idx + 1)) (idx + 1)) (
      seek_up-IsFirst t.occupied (t.num_sections - (idx + 1)) (idx + 1) t.num_sections
        (omega arith))
  where
    by_last :
        (next : ℕ)
        → IsFirst t.occupied (idx + 1) t.num_sections (some next)
        → (o : Option ℕ) → IsLast t.occupied 0 next o
        → moved next o ≡ (0, idx)
    by_last next first none free =
        absurd (ground (arith, here, free idx (omega arith) (omega (arith, first.0.0))))
    by_last next first (some k) last =
        ap (λ (n : ℕ). (0, n)) (back_again t.occupied idx next t.num_sections k here first last)

    by_next :
        (o : Option ℕ)
        → IsFirst t.occupied (idx + 1) t.num_sections o
        → moved idx o ≡ (0, i)
        → moved i (seek_down t.occupied i) ≡ (0, idx)
    by_next none free e = absurd (ground (arith, ap (λ p. p.0) e))
    by_next (some next) first e =
        let same : next ≡ i = ap (λ p. p.1) e in
        ap (λ (n : ℕ). moved n (seek_down t.occupied n)) (sym same)
        ∙ by_last next first (seek_down t.occupied next) (seek_down-IsLast t.occupied next)
