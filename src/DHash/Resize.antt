-- ===== src/DHash/Resize.antt =====
-- A table that has grown or shrunk holds the same entries.
use native.Mathlib.Nat.{mod-lt}
use dvb_vulture.Prelude.{
  ℕ, zero, suc, ◌+◌, ◌%◌, ◌<◌, ◌≤◌, ◌≡◌, refl, ap, sym, subst, ◌∙◌, List, [], ◌∷◌, ◌++◌, Bool, true,
  false, ◌==◌, ==_iff, get_or, set, length, replicate, length-replicate, length-append, length-set,
  arith, inl, inr, Bool-cases, AllIn, AllIn-append, AllIn-map,
}
use dvb_vulture.DHash.{DHash, entries, insert_last, seek, get, move_list, move_all, resize}
use dvb_vulture.DHash.Buckets.{
  belonging, length-move_list, length-move_all, moved-belonging, seek-belonging,
}
use dvb_vulture.DHash.View.{IsEquality, IsDistinct, IsPlaced, IsTable, get-seek}

entries-replicate {ℓ} : (A : Type ℓ) (n : ℕ) → length (entries {A = A} (replicate n [])) ≡ 0
entries-replicate A zero = refl
entries-replicate A (suc n) = entries-replicate A n

module _ {ℓ} {A : Type ℓ} where
  pub length-entries-set :
      (tbl : List (List A)) (i : ℕ) (l : List A)
      → i < length tbl
      → length (entries (set tbl i l)) + length (get_or tbl i []) ≡ length (entries tbl) + length l
  length-entries-set [] i l lt = absurd (omega arith)
  length-entries-set (l' ∷ tbl) zero l lt =
      omega (arith, length-append l (entries tbl), length-append l' (entries tbl))
  length-entries-set (l' ∷ tbl) (suc i) l lt = omega (
    arith,
    length-append l' (entries (set tbl i l)),
    length-append l' (entries tbl),
    length-entries-set tbl i l (omega arith),
  )

module _ {ℓ} {A : Type ℓ} (hash : A → ℕ) (equals : A → A → Bool) where
  abbrev moved : DHash A → (new_size : ℕ) → DHash A
  moved h n = record h { tbl_size = n; tbl = move_all hash equals n h.tbl (replicate n []) }

  entries-move_list :
      (n : ℕ) (l : List A) (tbl : List (List A))
      → 0 < n
      → length tbl ≡ n
      → length (entries (move_list hash equals n l tbl)) ≡ length (entries tbl) + length l
  entries-move_list n [] tbl pos len = omega arith
  entries-move_list n (e ∷ l) tbl pos len =
      let at : ℕ = hash e % n in
      let lt : at < length tbl = subst (λ (m : ℕ). at < m) (sym len) (mod-lt (hash e) pos) in
      let longer = get_or tbl at [] ++ (e ∷ []) in
      omega (
        arith,
        length-append (get_or tbl at []) (e ∷ []),
        length-entries-set tbl at longer lt,
        entries-move_list n l (insert_last tbl at e) pos (length-set tbl at longer ∙ len),
      )

  entries-move_all :
      (n : ℕ) (old tbl : List (List A))
      → 0 < n
      → length tbl ≡ n
      → length (entries (move_all hash equals n old tbl))
        ≡ length (entries tbl) + length (entries old)
  entries-move_all n [] tbl pos len = omega arith
  entries-move_all n (l ∷ old) tbl pos len = omega (
    arith,
    length-append l (entries old),
    entries-move_list n l tbl pos len,
    entries-move_all n old (move_list hash equals n l tbl) pos
        (length-move_list hash equals n l tbl ∙ len),
  )

  -- what belongs at an index
  belonging-all :
      (P : A → Type 0) (n i : ℕ) (l : List A) → AllIn P l → AllIn P (belonging hash n i l)
  belonging-all P n i [] all = tt
  belonging-all P n i (e ∷ l) all = elim (Bool-cases ((hash e % n) == i)) [
    | inl hit ↦ rw hit (all.0, belonging-all P n i l all.1)
    | inr miss ↦ rw miss (belonging-all P n i l all.1)
  ]

  belonging-at : (n i : ℕ) (l : List A) → AllIn (λ e. hash e % n ≡ i) (belonging hash n i l)
  belonging-at n i [] = tt
  belonging-at n i (e ∷ l) = elim (Bool-cases ((hash e % n) == i)) [
    | inl hit ↦ rw hit ((==_iff (hash e % n) i).0 hit, belonging-at n i l)
    | inr miss ↦ rw miss (belonging-at n i l)
  ]

  belonging-IsDistinct :
      (n i : ℕ) (l : List A)
      → IsDistinct hash equals l
      → IsDistinct hash equals (belonging hash n i l)
  belonging-IsDistinct n i [] distinct = tt
  belonging-IsDistinct n i (e ∷ l) distinct = elim (Bool-cases ((hash e % n) == i)) [
    | inl hit ↦ rw hit (
      belonging-all (λ a. equals e a ≡ false) n i l distinct.0,
      belonging-IsDistinct n i l distinct.1,
    )
    | inr miss ↦ rw miss (belonging-IsDistinct n i l distinct.1)
  ]

  belonging-IsPlaced :
      (n i : ℕ) (l : List A) (tbl : List (List A))
      → IsDistinct hash equals l
      → ((j : ℕ) → get_or tbl j [] ≡ belonging hash n (i + j) l)
      → IsPlaced hash equals n i tbl
  belonging-IsPlaced n i l [] distinct lists = tt
  belonging-IsPlaced n i l (b ∷ tbl) distinct lists =
      let at : i + 0 ≡ i = omega arith in
      let here : b ≡ belonging hash n i l = lists 0 ∙ ap (λ (k : ℕ). belonging hash n k l) at in
      (
        subst (AllIn (λ e. hash e % n ≡ i)) (sym here) (belonging-at n i l),
        subst (IsDistinct hash equals) (sym here) (belonging-IsDistinct n i l distinct),
        belonging-IsPlaced n (suc i) l tbl distinct (λ j.
            let shift : i + suc j ≡ suc i + j = omega arith in
            lists (suc j) ∙ ap (λ (k : ℕ). belonging hash n k l) shift),
      )

  entries-above :
      (n i : ℕ) (tbl : List (List A))
      → IsPlaced hash equals n i tbl
      → AllIn (λ e. i ≤ hash e % n) (entries tbl)
  entries-above n i [] placed = tt
  entries-above n i (l ∷ tbl) placed =
      AllIn-append (λ e. i ≤ hash e % n) l (entries tbl)
        (AllIn-map (λ e. hash e % n ≡ i) (λ e. i ≤ hash e % n) (λ e at. omega arith) l placed.0)
        (AllIn-map (λ e. suc i ≤ hash e % n) (λ e. i ≤ hash e % n) (λ e at. omega arith)
          (entries tbl) (entries-above n (suc i) tbl placed.2))

  pub append-IsDistinct :
      (l l' : List A)
      → IsDistinct hash equals l
      → IsDistinct hash equals l'
      → AllIn (λ a. AllIn (λ b. equals a b ≡ false) l') l
      → IsDistinct hash equals (l ++ l')
  append-IsDistinct [] l' d d' apart = d'
  append-IsDistinct (a ∷ l) l' d d' apart = (
    AllIn-append (λ b. equals a b ≡ false) l l' d.0 apart.0,
    append-IsDistinct l l' d.1 d' apart.1,
  )

  module _ (law : IsEquality hash equals) where
    entries-IsDistinct :
        (n i : ℕ) (tbl : List (List A))
        → IsPlaced hash equals n i tbl
        → IsDistinct hash equals (entries tbl)
    entries-IsDistinct n i [] placed = tt
    entries-IsDistinct n i (l ∷ tbl) placed =
        append-IsDistinct l (entries tbl) placed.1 (entries-IsDistinct n (suc i) tbl placed.2) (
          AllIn-map (λ a. hash a % n ≡ i) (λ a. AllIn (λ b. equals a b ≡ false) (entries tbl))
            (λ a at.
              AllIn-map (λ b. suc i ≤ hash b % n) (λ b. equals a b ≡ false)
                (λ b above. elim (Bool-cases (equals a b)) [
                  | inl eq ↦
                      let same : hash a % n ≡ hash b % n =
                        ap (λ (h : ℕ). h % n) (law.hashed a b eq) in
                      absurd (omega arith)
                  | inr ne ↦ ne
                ])
                (entries tbl) (entries-above n (suc i) tbl placed.2))
            l placed.0)

    moved-IsTable :
        (h : DHash A) (n : ℕ) → IsTable hash equals h → 0 < n → IsTable hash equals (moved h n)
    moved-IsTable h n table pos = record {
      sized = length-move_all hash equals n h.tbl (replicate n []) ∙ length-replicate n [];
      some_list = pos;
      placed =
          belonging-IsPlaced n 0 (entries h.tbl) (move_all hash equals n h.tbl (replicate n []))
            (entries-IsDistinct h.tbl_size 0 h.tbl table.placed)
            (λ j.
              let at : 0 + j ≡ j = omega arith in
              moved-belonging hash equals n j h.tbl pos
              ∙ ap (λ (k : ℕ). belonging hash n k (entries h.tbl)) (sym at));
      counted = omega (
        arith,
        table.counted,
        entries-replicate A n,
        entries-move_all n h.tbl (replicate n []) pos (length-replicate n []),
      );
    }

    -- Whether it finds memory or not, `dhashResize` keeps the invariant, and every search finds
    -- afterwards what it found before, where the new size is not 0.
    pub resize-get :
        (memory : Bool) (h : DHash A) (n : ℕ)
        → IsTable hash equals h
        → 0 < n
        → IsTable hash equals (resize hash equals memory h n).1
          × ((ref : A)
              → get hash equals (resize hash equals memory h n).1 ref ≡ get hash equals h ref)
    unfolding resize get
    resize-get false h n table pos = (table, λ ref. refl)
    resize-get true h n table pos = (
      moved-IsTable h n table pos,
      λ ref.
          ap (seek hash equals ref) (moved-belonging hash equals n (hash ref % n) h.tbl pos)
          ∙ seek-belonging hash equals law.hashed n ref (entries h.tbl)
          ∙ sym (get-seek hash equals law h ref table),
    )
