-- ===== src/Table/Enter.antt =====
-- What `check_enter_sec` does to the table.
use dvb_vulture.Prelude.{
  ℕ, ◌<◌, ◌≡◌, ◌≢◌, refl, sym, ◌∙◌, subst, List, [], ◌∷◌, Option, none, some, if◌then◌else◌, Bool,
  true, false, not, ◌==◌, ◌||◌, ◌&&◌, inl, inr, Bool-cases, ==_iff, ==_ne,
}
use dvb_vulture.Bifi.{bifi_is_nonzero, has}
use dvb_vulture.Table.{
  Sec, no_sec, Table, small_kind, known, clear_pas, clear_pms, clear_nis, clear_sds, cleared,
  sec_at, enter_sec, clear_tbl_sec, Entry, stamped, replace_sec, drop_sec, insert_sec,
  check_enter_sec,
}
use dvb_vulture.Table.Places.{IsTable, Entered, entered, without, entered-Entered, replaced-Entered}

-- The section has been entered, and the caller's function has been told of it and of the one that
-- was there before.
pub record Stored (t : Table) (sec : Sec) (type : ℕ) (old : Option Sec) (gone : List ℕ) (e : Entry)
    : Type 0 where
  pub status : e.status ≡ 0
  pub stored : Entered t e.after sec type
  pub given : e.given ≡ sec
  pub actions : e.actions ≡ (old, sec) ∷ []
  pub freed : e.freed ≡ gone

replace_sec_lem :
    (t : Table) (sec : Sec) (type : ℕ)
    → known type ≡ true
    → replace_sec t sec type ≡ record {
      status = 0;
      after = stamped (entered (without t sec.section type) sec) sec type;
      given = sec;
      actions = (some (sec_at t sec.section), sec) ∷ [];
      freed = (sec_at t sec.section).owned ∷ [];
    }
unfolding replace_sec enter_sec clear_tbl_sec
replace_sec_lem t sec type k = rw k refl

-- the error that `check_enter_sec` can run into: a map section of another program
abbrev pub mismatch : Table → Sec → (type : ℕ) → Bool
mismatch t sec type =
    (type == 0x02) && (not (bifi_is_nonzero t.occupied == 0) && not (t.pnr == sec.program_number))

insert_sec_lem :
    (t : Table) (sec : Sec) (type : ℕ)
    → known type ≡ true
    → (mismatch t sec type ≡ true
        → insert_sec t sec type
          ≡ record { status = 1; after = t; given = sec; actions = []; freed = [] })
      × (mismatch t sec type ≡ false
          → insert_sec t sec type ≡ record {
            status = 0;
            after = stamped (entered t sec) sec type;
            given = sec;
            actions = (none, sec) ∷ [];
            freed = [];
          })
unfolding insert_sec enter_sec
insert_sec_lem t sec type k = (λ bad. rw bad refl, λ fine. rw (fine, k) refl)

-- what is left of a section of a known kind
abbrev pub emptied : Sec → (type : ℕ) → Sec
emptied sec type = if small_kind type then record sec { owned = 0 } else no_sec

cleared_lem : (type : ℕ) (sec : Sec) → cleared type sec ≡ emptied sec type
unfolding cleared clear_pas clear_pms clear_nis clear_sds
cleared_lem type sec = elim (Bool-cases (type == 0x00)) [
  | inl e ↦ rw e refl
  | inr e ↦ elim (Bool-cases (type == 0x02)) [
    | inl f ↦ rw (e, f) refl
    | inr f ↦ elim (Bool-cases ((type == 0x40) || (type == 0x41))) [
      | inl g ↦ rw (e, f, g) refl
      | inr g ↦ rw (e, f, g) refl
    ]
  ]
]

drop_sec_lem :
    (t : Table) (sec : Sec) (type : ℕ)
    → known type ≡ true
    → drop_sec t sec type ≡ record {
      status = 0;
      after = t;
      given = emptied sec type;
      actions = [];
      freed = sec.owned ∷ [];
    }
unfolding drop_sec
drop_sec_lem t sec type k = rw (k, cleared_lem type sec) refl

check_enter_sec_cases :
    (t : Table) (sec : Sec) (type : ℕ)
    → (has t.occupied sec.section ≡ false → check_enter_sec t sec type ≡ insert_sec t sec type)
      × (has t.occupied sec.section ≡ true
          → (((sec_at t sec.section).version == sec.version) ≡ true
              → check_enter_sec t sec type ≡ drop_sec t sec type)
            × (((sec_at t sec.section).version == sec.version) ≡ false
                → check_enter_sec t sec type ≡ replace_sec t sec type))
unfolding check_enter_sec
check_enter_sec_cases t sec type = (
  λ free. rw free refl,
  λ there. (λ same. rw (there, same) refl, λ other. rw (there, other) refl),
)

-- For a table with its memory, a section of a known kind and a section number below the number of
-- sections, `check_enter_sec` does one of four things.
-- A section of the same version is there: it returns 0 and leaves the table alone; the section
-- passed in is cleared, what it owned is freed, and the caller's function is not called.
-- A section of another version is there: it returns 0, the caller's function is called with the
-- old section, as it was, and the new one, what the old one owned is freed, and the new section,
-- all of it, takes its place.
-- None is there, and, for a program map section, the table has no sections or has the section's
-- program number: it returns 0, the caller's function is called with the new section alone, nothing
-- is freed, and the section is put at its number.
-- In these two cases the table's version becomes the section's, its program number becomes the
-- section's for a program map and stays for another kind; the other positions, the table id and
-- the number of sections are as before, and the table still has its memory.
-- None is there, and a program map has sections of another program: it returns 1, changes, reports
-- and frees nothing.
pub check_enter_sec_enters :
    (t : Table) (sec : Sec) (type : ℕ)
    → IsTable t
    → known type ≡ true
    → sec.section < t.num_sections
    → let e = check_enter_sec t sec type in
      let old = sec_at t sec.section in
      (has t.occupied sec.section ≡ true
        → old.version ≡ sec.version
        → e ≡ record {
          status = 0;
          after = t;
          given = if small_kind type then record sec { owned = 0 } else no_sec;
          actions = [];
          freed = sec.owned ∷ [];
        })
      × (has t.occupied sec.section ≡ true
          → old.version ≢ sec.version
          → Stored t sec type (some old) (old.owned ∷ []) e)
      × (has t.occupied sec.section ≡ false
          → mismatch t sec type ≡ false
          → Stored t sec type none [] e)
      × (has t.occupied sec.section ≡ false
          → mismatch t sec type ≡ true
          → e ≡ record { status = 1; after = t; given = sec; actions = []; freed = [] })
check_enter_sec_enters t sec type w k inside =
    let cases = check_enter_sec_cases t sec type in
    let old = sec_at t sec.section in
    (
      λ there same.
          (cases.1 there).0 ((==_iff old.version sec.version).1 same) ∙ drop_sec_lem t sec type k,
      λ there other.
          subst (Stored t sec type (some old) (old.owned ∷ []))
            (sym (
              (cases.1 there).1 (==_ne old.version sec.version other)
              ∙ replace_sec_lem t sec type k))
            (record {
              status = refl;
              stored = replaced-Entered t sec type w inside;
              given = refl;
              actions = refl;
              freed = refl;
            }),
      λ free fine.
          subst (Stored t sec type none [])
            (sym (cases.0 free ∙ (insert_sec_lem t sec type k).1 fine))
            (record {
              status = refl;
              stored = entered-Entered t sec type w inside;
              given = refl;
              actions = refl;
              freed = refl;
            }),
      λ free bad. cases.0 free ∙ (insert_sec_lem t sec type k).0 bad,
    )
