-- ===== src/Table/Places.antt =====
-- A section put at its place in the table, and the places of the others.
use dvb_vulture.Prelude.{
  ℕ, zero, suc, ◌≤◌, ◌<◌, ◌≡◌, ◌≢◌, refl, ap, sym, ◌∙◌, List, [], ◌∷◌, length, get_or, set, some,
  Bool, true, false, not, ◌==◌, ◌||◌, ◌&&◌, arith, ==_iff, ==_ne,
}
use dvb_vulture.Prelude.Buffer.{IsBytes}
use dvb_vulture.Bifi.{bifi_set, bifi_clr, has}
use dvb_vulture.Bifi.Laws.{set_clr_get}
use dvb_vulture.Table.{Sec, no_sec, Table, cleared, sec_at, stamped}

-- The bits of the 256 positions, and memory for as many sections as the table counts.
pub record IsTable (t : Table) : Type 0 where
  pub bytes : IsBytes t.occupied
  pub bits : length t.occupied ≡ 32
  pub room : length t.sections ≡ t.num_sections
  pub most : t.num_sections ≤ 256

-- `u` is `t` with the section at its number: the version is the section's and so is, for a
-- program map, the program number; the rest is as it was.
pub record Entered (t u : Table) (sec : Sec) (type : ℕ) : Type 0 where
  pub there : has u.occupied sec.section ≡ true
  pub new : sec_at u sec.section ≡ sec
  pub others :
      (j : ℕ) → j ≢ sec.section → (has u.occupied j ≡ has t.occupied j) × (sec_at u j ≡ sec_at t j)
  pub version : u.version ≡ some sec.version
  pub map_pnr : type ≡ 0x02 → u.pnr ≡ sec.program_number
  pub other_pnr : type ≢ 0x02 → u.pnr ≡ t.pnr
  pub table_id : u.table_id ≡ t.table_id
  pub num_sections : u.num_sections ≡ t.num_sections
  pub whole : IsTable u

get_or-set_other :
    (xs : List Sec) (i j : ℕ) (s : Sec) → j ≢ i → get_or (set xs i s) j no_sec ≡ get_or xs j no_sec
get_or-set_other [] i j s h = refl
get_or-set_other (x ∷ xs) zero zero s h = absurd (h refl)
get_or-set_other (x ∷ xs) zero (suc j) s h = refl
get_or-set_other (x ∷ xs) (suc i) zero s h = refl
get_or-set_other (x ∷ xs) (suc i) (suc j) s h =
    get_or-set_other xs i j s (λ e. h (ap (λ (k : ℕ). suc k) e))

get_or-set_here :
    (xs : List Sec) (i : ℕ) (s : Sec) → i < length xs → get_or (set xs i s) i no_sec ≡ s
get_or-set_here [] i s h = absurd (omega arith)
get_or-set_here (x ∷ xs) zero s h = refl
get_or-set_here (x ∷ xs) (suc i) s h = get_or-set_here xs i s (omega arith)

length-set_sec : (xs : List Sec) (i : ℕ) (s : Sec) → length (set xs i s) ≡ length xs
length-set_sec [] i s = refl
length-set_sec (x ∷ xs) zero s = refl
length-set_sec (x ∷ xs) (suc i) s = ap (λ (k : ℕ). suc k) (length-set_sec xs i s)

abbrev pub entered : Table → Sec → Table
entered t sec = record t {
  sections = set t.sections sec.section sec;
  occupied = bifi_set t.occupied sec.section;
}

or_ne : (b : Bool) (i j : ℕ) → j ≢ i → (b || (i == j)) ≡ b
or_ne b i j h = rw (==_ne i j (λ e. h (sym e))) (or_false b)
  where
    or_false : (c : Bool) → (c || false) ≡ c
    or_false true = refl
    or_false false = refl

and_ne : (b : Bool) (i j : ℕ) → j ≢ i → (b && not (i == j)) ≡ b
and_ne b i j h = rw (==_ne i j (λ e. h (sym e))) (and_true b)
  where
    and_true : (c : Bool) → (c && true) ≡ c
    and_true true = refl
    and_true false = refl

or_here : (b : Bool) (i : ℕ) → (b || (i == i)) ≡ true
or_here b i = rw ((==_iff i i).1 refl) (or_true b)
  where
    or_true : (c : Bool) → (c || true) ≡ true
    or_true true = refl
    or_true false = refl

pub entered-Entered :
    (t : Table) (sec : Sec) (type : ℕ)
    → IsTable t
    → sec.section < t.num_sections
    → Entered t (stamped (entered t sec) sec type) sec type
entered-Entered t sec type w inside =
    let n = sec.section in
    let set = (set_clr_get t.occupied n (w.bytes, omega (arith, w.bits, w.most))) in
    record {
      there = set.0 n ∙ or_here (has t.occupied n) n;
      new = get_or-set_here t.sections n sec (omega (arith, w.room));
      others = λ j ne.
          (set.0 j ∙ or_ne (has t.occupied j) n j ne, get_or-set_other t.sections n j sec ne);
      version = refl;
      map_pnr = λ e. rw ((==_iff type 0x02).1 e) refl;
      other_pnr = λ ne. rw (==_ne type 0x02 ne) refl;
      table_id = refl;
      num_sections = refl;
      whole = record {
        bytes = set.2.0;
        bits = set.2.1 ∙ w.bits;
        room = length-set_sec t.sections n sec ∙ w.room;
        most = w.most;
      };
    }

abbrev pub without : Table → (n type : ℕ) → Table
without t n type = record t {
  sections = set t.sections n (cleared type (sec_at t n));
  occupied = bifi_clr t.occupied n;
}

without_lem :
    (t : Table) (n type : ℕ)
    → IsTable t
    → n < t.num_sections
    → IsTable (without t n type)
      × ((j : ℕ)
          → j ≢ n
          → (has (without t n type).occupied j ≡ has t.occupied j)
            × (sec_at (without t n type) j ≡ sec_at t j))
without_lem t n type w inside =
    let clr = set_clr_get t.occupied n (w.bytes, omega (arith, w.bits, w.most)) in
    (
      record {
        bytes = clr.3.0;
        bits = clr.3.1 ∙ w.bits;
        room = length-set_sec t.sections n (cleared type (sec_at t n)) ∙ w.room;
        most = w.most;
      },
      λ j ne. (
        clr.1 j ∙ and_ne (has t.occupied j) n j ne,
        get_or-set_other t.sections n j (cleared type (sec_at t n)) ne,
      ),
    )

pub replaced-Entered :
    (t : Table) (sec : Sec) (type : ℕ)
    → IsTable t
    → sec.section < t.num_sections
    → Entered t (stamped (entered (without t sec.section type) sec) sec type) sec type
replaced-Entered t sec type w inside =
    let gone = without_lem t sec.section type w inside in
    let e = entered-Entered (without t sec.section type) sec type gone.0 inside in
    record {
      there = e.there;
      new = e.new;
      others = λ j ne. ((e.others j ne).0 ∙ (gone.1 j ne).0, (e.others j ne).1 ∙ (gone.1 j ne).1);
      version = e.version;
      map_pnr = e.map_pnr;
      other_pnr = e.other_pnr;
      table_id = e.table_id;
      num_sections = e.num_sections;
      whole = e.whole;
    }
