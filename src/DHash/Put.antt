-- ===== src/DHash/Put.antt =====
-- What a table holds after an element is put in.
use native.Mathlib.Nat.{mod-lt}
use dvb_vulture.Prelude.{
  ℕ, zero, suc, ◌+◌, ◌*◌, ◌/◌, ◌%◌, ◌^◌, ◌<◌, ◌≡◌, ◌≢◌, refl, ap, sym, subst, subst₂, ◌∙◌, List, [],
  ◌∷◌, ◌++◌, Option, none, some, Bool, true, false, ltb, ◌==◌, ==_iff, if◌then◌else◌, get_or, set,
  length, length-append, length-set, get_or-set_self, get_or-set_ne, arith, inl, inr, Bool-cases,
  AllIn, AllIn-append,
}
use dvb_vulture.DHash.{DHash, seek, get, appended, put}
use dvb_vulture.DHash.View.{IsEquality, IsDistinct, IsPlaced, IsTable}
use dvb_vulture.DHash.Resize.{append-IsDistinct, length-entries-set, resize-get}

module _ {ℓ} {A : Type ℓ} (hash : A → ℕ) (equals : A → A → Bool) where
  IsPlaced-set :
      (n i j : ℕ) (tbl : List (List A)) (l : List A)
      → IsPlaced hash equals n i tbl
      → AllIn (λ e. hash e % n ≡ i + j) l
      → IsDistinct hash equals l
      → IsPlaced hash equals n i (set tbl j l)
  IsPlaced-set n i j [] l placed here distinct = tt
  IsPlaced-set n i zero (b ∷ tbl) l placed here distinct =
      let at : i + 0 ≡ i = omega arith in
      (subst (λ (k : ℕ). AllIn (λ e. hash e % n ≡ k) l) at here, distinct, placed.2)
  IsPlaced-set n i (suc j) (b ∷ tbl) l placed here distinct =
      let at : i + suc j ≡ suc i + j = omega arith in
      (
        placed.0,
        placed.1,
        IsPlaced-set n (suc i) j tbl l placed.2
            (subst (λ (k : ℕ). AllIn (λ e. hash e % n ≡ k) l) at here) distinct,
      )

  pub IsPlaced-at :
      (n i j : ℕ) (tbl : List (List A))
      → IsPlaced hash equals n i tbl
      → AllIn (λ e. hash e % n ≡ i + j) (get_or tbl j []) × IsDistinct hash equals (get_or tbl j [])
  IsPlaced-at n i j [] placed = (tt, tt)
  IsPlaced-at n i zero (b ∷ tbl) placed =
      let at : i ≡ i + 0 = omega arith in
      (subst (λ (k : ℕ). AllIn (λ e. hash e % n ≡ k) b) at placed.0, placed.1)
  IsPlaced-at n i (suc j) (b ∷ tbl) placed =
      let at : suc i + j ≡ i + suc j = omega arith in
      let rest = IsPlaced-at n (suc i) j tbl placed.2 in
      (subst (λ (k : ℕ). AllIn (λ e. hash e % n ≡ k) (get_or tbl j [])) at rest.0, rest.1)

  -- the table with another list at an index
  abbrev pub with_list : DHash A → ℕ → List A → (num_entries : ℕ) → DHash A
  with_list h i l m = record h { tbl = set h.tbl i l; num_entries = m }

  pub with_list-IsTable :
      (h : DHash A) (i : ℕ) (l : List A) (m : ℕ)
      → IsTable hash equals h
      → i < h.tbl_size
      → AllIn (λ e. hash e % h.tbl_size ≡ 0 + i) l
      → IsDistinct hash equals l
      → m + length (get_or h.tbl i []) ≡ h.num_entries + length l
      → IsTable hash equals (with_list h i l m)
  with_list-IsTable h i l m table lt here distinct count = record {
    sized = length-set h.tbl i l ∙ table.sized;
    some_list = table.some_list;
    placed = IsPlaced-set h.tbl_size 0 i h.tbl l table.placed here distinct;
    counted = omega (
      arith,
      count,
      table.counted,
      length-entries-set h.tbl i l (omega (arith, lt, table.sized)),
    );
  }

  pub get-with_list_here :
      (h : DHash A) (i : ℕ) (l : List A) (m : ℕ) (ref : A)
      → IsTable hash equals h
      → i ≡ hash ref % h.tbl_size
      → get hash equals (with_list h i l m) ref ≡ seek hash equals ref l
  unfolding get
  get-with_list_here h i l m ref table same =
      let lt : i < length h.tbl =
        subst₂ (λ (k n : ℕ). k < n) (sym same) (sym table.sized)
          (mod-lt (hash ref) table.some_list) in
      ap (λ (k : ℕ). seek hash equals ref (get_or (set h.tbl i l) k [])) (sym same)
      ∙ ap (seek hash equals ref) (get_or-set_self h.tbl i l [] lt)

  pub get-with_list_other :
      (h : DHash A) (i : ℕ) (l : List A) (m : ℕ) (ref : A)
      → i ≢ hash ref % h.tbl_size
      → get hash equals (with_list h i l m) ref ≡ get hash equals h ref
  unfolding get
  get-with_list_other h i l m ref other =
      ap (seek hash equals ref) (get_or-set_ne h.tbl i (hash ref % h.tbl_size) l [] other)

  -- what a search finds once `d` is behind the others
  abbrev pub or_new : (d ref : A) → Option A → Option A
  or_new d ref none = if equals d ref then some d else none
  or_new d ref (some p) = some p

  pub seek-hit :
      (ref e : A) (l : List A) → equals e ref ≡ true → seek hash equals ref (e ∷ l) ≡ some e
  seek-hit ref e l eq = rw eq refl

  pub seek-miss :
      (ref e : A) (l : List A)
      → equals e ref ≡ false
      → seek hash equals ref (e ∷ l) ≡ seek hash equals ref l
  seek-miss ref e l ne = rw ne refl

  seek-append :
      (d ref : A) (l : List A)
      → seek hash equals ref (l ++ (d ∷ [])) ≡ or_new d ref (seek hash equals ref l)
  seek-append d ref [] = refl
  seek-append d ref (e ∷ l) = elim (Bool-cases (equals e ref)) [
    | inl eq ↦ rw eq refl
    | inr ne ↦ rw ne (seek-append d ref l)
  ]

  pub seek-none :
      (d : A) (l : List A)
      → seek hash equals d l ≡ none
      → AllIn (λ a. AllIn (λ b. equals a b ≡ false) (d ∷ [])) l
  seek-none d [] gone = tt
  seek-none d (e ∷ l) gone = elim (Bool-cases (equals e d)) [
    | inl eq ↦ absurd (let bad = sym (seek-hit d e l eq) ∙ gone in cc)
    | inr ne ↦ ((ne, tt), seek-none d l (sym (seek-miss d e l ne) ∙ gone))
  ]

  or_new-other : (d ref : A) (found : Option A) → equals d ref ≡ false → or_new d ref found ≡ found
  or_new-other d ref none other = rw other refl
  or_new-other d ref (some p) other = refl

  module _ (law : IsEquality hash equals) where
    pub unequal : (d ref : A) (n : ℕ) → hash d % n ≢ hash ref % n → equals d ref ≡ false
    unequal d ref n other = elim (Bool-cases (equals d ref)) [
      | inl eq ↦ absurd (other (ap (λ (k : ℕ). k % n) (law.hashed d ref eq)))
      | inr ne ↦ ne
    ]

    appended-IsTable :
        (h : DHash A) (d : A)
        → IsTable hash equals h
        → get hash equals h d ≡ none
        → h.num_entries + 1 < 2 ^ 32
        → IsTable hash equals (appended hash equals h d)
    unfolding get
    appended-IsTable h d table gone room =
        let i : ℕ = hash d % h.tbl_size in
        let l : List A = get_or h.tbl i [] in
        let at = IsPlaced-at h.tbl_size 0 i h.tbl table.placed in
        let here : hash d % h.tbl_size ≡ 0 + i = omega arith in
        with_list-IsTable h i (l ++ (d ∷ [])) ((h.num_entries + 1) % 2 ^ 32) table
          (mod-lt (hash d) table.some_list)
          (AllIn-append (λ e. hash e % h.tbl_size ≡ 0 + i) l (d ∷ []) at.0 (here, tt))
          (append-IsDistinct hash equals l (d ∷ []) at.1 (tt, tt) (seek-none d l gone))
          (omega (arith, room, length-append l (d ∷ [])))

    appended-get :
        (h : DHash A) (d ref : A)
        → IsTable hash equals h
        → get hash equals (appended hash equals h d) ref ≡ or_new d ref (get hash equals h ref)
    unfolding get
    appended-get h d ref table =
        let i : ℕ = hash d % h.tbl_size in
        let l : List A = get_or h.tbl i [] in
        elim (Bool-cases (i == (hash ref % h.tbl_size))) [
          | inl hit ↦
              let same : i ≡ hash ref % h.tbl_size = (==_iff _ _).0 hit in
              get-with_list_here h i (l ++ (d ∷ [])) ((h.num_entries + 1) % 2 ^ 32) ref table same
              ∙ seek-append d ref l
              ∙ ap (λ (k : ℕ). or_new d ref (seek hash equals ref (get_or h.tbl k []))) same
          | inr miss ↦
              let other : i ≢ hash ref % h.tbl_size = λ same.
                (let hit : (i == (hash ref % h.tbl_size)) ≡ true = (==_iff _ _).1 same in cc) in
              get-with_list_other h i (l ++ (d ∷ [])) ((h.num_entries + 1) % 2 ^ 32) ref other
              ∙ sym (or_new-other d ref (get hash equals h ref) (unequal d ref h.tbl_size other))
        ]

    -- Where no element equal to `d` is in the table and memory is found for the new element,
    -- `dhashPut` keeps the invariant, whether the table grows, cannot grow or does not have to: a
    -- search finds what it found before, or else `d`, if `d` is equal to what it looks for. The
    -- counter and the size must be below their limits.
    pub put-adds :
        (memory : Bool) (h : DHash A) (d : A)
        → IsTable hash equals h
        → get hash equals h d ≡ none
        → h.num_entries + 1 < 2 ^ 32
        → h.tbl_size < 2 ^ 31
        → IsTable hash equals (put hash equals true memory h d).1
          × ((ref : A)
              → get hash equals (put hash equals true memory h d).1 ref
                ≡ or_new d ref (get hash equals h ref))
    unfolding put
    put-adds memory h d table gone room small =
        let h' = appended hash equals h d in
        let table' = appended-IsTable h d table gone room in
        let more : 0 < (h.tbl_size * 2) % 2 ^ 32 = omega (arith, small, table.some_list) in
        let bigger = resize-get hash equals law memory h' ((h.tbl_size * 2) % 2 ^ 32) table' more in
        rw (gone, put)
          (elim (Bool-cases (ltb ((h'.tbl_size * 2) % 2 ^ 32 / 3) h'.num_entries)) [
            | inl grows ↦ rw grows (bigger.0, λ ref. bigger.1 ref ∙ appended-get h d ref table)
            | inr stays ↦ rw stays (table', λ ref. appended-get h d ref table)
          ])
