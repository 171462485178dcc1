-- ===== src/DHash/Remove.antt =====
-- What a table holds after an element is taken out.
use native.Mathlib.Nat.{mod-lt}
use mathlib.Core.Option.{some-injective}
use dvb_vulture.Prelude.{
  ℕ, suc, ◌+◌, ◌-◌, ◌/◌, ◌%◌, ◌^◌, ◌<◌, ◌≤◌, ◌≡◌, refl, ap, sym, subst, ◌∙◌, List, [], ◌∷◌, none,
  some, Bool, true, false, ltb, ◌&&◌, ◌==◌, ==_iff, get_or, length, arith, inl, inr, Bool-cases,
  AllIn,
}
use dvb_vulture.DHash.{DHash, seek, get, unlink, unlinked, remove}
use dvb_vulture.DHash.View.{IsEquality, IsDistinct, IsTable}
use dvb_vulture.DHash.Resize.{length-entries-set, resize-get}
use dvb_vulture.DHash.Put.{
  IsPlaced-at, with_list-IsTable, seek-hit, seek-miss, get-with_list_here, get-with_list_other,
}

module _ {ℓ} {A : Type ℓ} (hash : A → ℕ) (equals : A → A → Bool) where
  unlink-hit : (ref e : A) (l : List A) → equals e ref ≡ true → unlink hash equals ref (e ∷ l) ≡ l
  unlink-hit ref e l eq = rw eq refl

  unlink-miss :
      (ref e : A) (l : List A)
      → equals e ref ≡ false
      → unlink hash equals ref (e ∷ l) ≡ e ∷ unlink hash equals ref l
  unlink-miss ref e l ne = rw ne refl

  unlink-all :
      (P : A → Type 0) (ref : A) (l : List A) → AllIn P l → AllIn P (unlink hash equals ref l)
  unlink-all P ref [] all = tt
  unlink-all P ref (e ∷ l) all = elim (Bool-cases (equals e ref)) [
    | inl eq ↦ rw eq all.1
    | inr ne ↦ rw ne (all.0, unlink-all P ref l all.1)
  ]

  unlink-IsDistinct :
      (ref : A) (l : List A)
      → IsDistinct hash equals l
      → IsDistinct hash equals (unlink hash equals ref l)
  unlink-IsDistinct ref [] distinct = tt
  unlink-IsDistinct ref (e ∷ l) distinct = elim (Bool-cases (equals e ref)) [
    | inl eq ↦ rw eq distinct.1
    | inr ne ↦
        rw ne (
          unlink-all (λ b. equals e b ≡ false) ref l distinct.0,
          unlink-IsDistinct ref l distinct.1,
        )
  ]

  length-unlink :
      (ref p : A) (l : List A)
      → seek hash equals ref l ≡ some p
      → length l ≡ suc (length (unlink hash equals ref l))
  length-unlink ref p [] found = absurd (cc)
  length-unlink ref p (e ∷ l) found = elim (Bool-cases (equals e ref)) [
    | inl eq ↦ rw eq refl
    | inr ne ↦
        rw ne (ap suc (length-unlink ref p l (sym (seek-miss hash equals ref e l ne) ∙ found)))
  ]

  seek-equal : (ref p : A) (l : List A) → seek hash equals ref l ≡ some p → equals p ref ≡ true
  seek-equal ref p [] found = absurd (cc)
  seek-equal ref p (e ∷ l) found = elim (Bool-cases (equals e ref)) [
    | inl eq ↦
        let same : e ≡ p = some-injective e p (sym (seek-hit hash equals ref e l eq) ∙ found) in
        subst (λ a. equals a ref ≡ true) same eq
    | inr ne ↦ seek-equal ref p l (sym (seek-miss hash equals ref e l ne) ∙ found)
  ]

  module _ (law : IsEquality hash equals) where
    differs : (a ref x : A) → equals a ref ≡ true → equals ref x ≡ false → equals a x ≡ false
    differs a ref x same other = elim (Bool-cases (equals a x)) [
      | inl eq ↦ absurd (let hit = law.chained ref a x (law.turned ref a ∙ same) eq in cc)
      | inr ne ↦ ne
    ]

    unlink-others :
        (ref x : A) (l : List A)
        → equals ref x ≡ false
        → seek hash equals x (unlink hash equals ref l) ≡ seek hash equals x l
    unlink-others ref x [] other = refl
    unlink-others ref x (e ∷ l) other = elim (Bool-cases (equals e ref)) [
      | inl eq ↦
          ap (seek hash equals x) (unlink-hit ref e l eq)
          ∙ sym (seek-miss hash equals x e l (differs e ref x eq other))
      | inr ne ↦ ap (seek hash equals x) (unlink-miss ref e l ne) ∙ elim (Bool-cases (equals e x)) [
        | inl eq' ↦ rw eq' refl
        | inr ne' ↦ rw ne' (unlink-others ref x l other)
      ]
    ]

    seek-distinct :
        (e ref : A) (l : List A)
        → equals e ref ≡ true
        → AllIn (λ b. equals e b ≡ false) l
        → seek hash equals ref l ≡ none
    seek-distinct e ref [] eq all = refl
    seek-distinct e ref (b ∷ l) eq all = elim (Bool-cases (equals b ref)) [
      | inl eq' ↦
          absurd
            (let hit = law.chained e ref b eq (law.turned ref b ∙ eq') in let miss = all.0 in cc)
      | inr ne' ↦ rw ne' (seek-distinct e ref l eq all.1)
    ]

    seek-unlink :
        (ref : A) (l : List A)
        → IsDistinct hash equals l
        → seek hash equals ref (unlink hash equals ref l) ≡ none
    seek-unlink ref [] distinct = refl
    seek-unlink ref (e ∷ l) distinct = elim (Bool-cases (equals e ref)) [
      | inl eq ↦
          ap (seek hash equals ref) (unlink-hit ref e l eq) ∙ seek-distinct e ref l eq distinct.0
      | inr ne ↦
          ap (seek hash equals ref) (unlink-miss ref e l ne)
          ∙ seek-miss hash equals ref e (unlink hash equals ref l) ne
          ∙ seek-unlink ref l distinct.1
    ]

    -- What `dhashRemove` does to the table where it stops at `p`, before the table shrinks.
    unlinked-IsTable :
        (h : DHash A) (ref p : A)
        → IsTable hash equals h
        → get hash equals h ref ≡ some p
        → h.num_entries < 2 ^ 32
        → IsTable hash equals (unlinked hash equals h ref)
    unfolding get
    unlinked-IsTable h ref p table found small =
        let i : ℕ = hash ref % h.tbl_size in
        let l : List A = get_or h.tbl i [] in
        let at = IsPlaced-at hash equals h.tbl_size 0 i h.tbl table.placed in
        let lt : i < length h.tbl =
          subst (λ (m : ℕ). i < m) (sym table.sized) (mod-lt (hash ref) table.some_list) in
        let shorter : length l ≡ suc (length (unlink hash equals ref l)) =
          length-unlink ref p l found in
        let some_entry : 1 ≤ h.num_entries =
          omega (arith, table.counted, shorter, length-entries-set h.tbl i [] lt) in
        with_list-IsTable hash equals h i (unlink hash equals ref l)
          ((h.num_entries + (2 ^ 32 - 1)) % 2 ^ 32) table (mod-lt (hash ref) table.some_list)
          (unlink-all (λ e. hash e % h.tbl_size ≡ 0 + i) ref l at.0) (unlink-IsDistinct ref l at.1)
          (omega (arith, some_entry, small, shorter))

    unlinked-get :
        (h : DHash A) (ref x : A)
        → IsTable hash equals h
        → equals ref x ≡ false
        → get hash equals (unlinked hash equals h ref) x ≡ get hash equals h x
    unfolding get
    unlinked-get h ref x table other =
        let i : ℕ = hash ref % h.tbl_size in
        let l : List A = unlink hash equals ref (get_or h.tbl i []) in
        let m : ℕ = (h.num_entries + (2 ^ 32 - 1)) % 2 ^ 32 in
        elim (Bool-cases (i == (hash x % h.tbl_size))) [
          | inl hit ↦
              let same : i ≡ hash x % h.tbl_size = (==_iff _ _).0 hit in
              get-with_list_here hash equals h i l m x table same
              ∙ unlink-others ref x (get_or h.tbl i []) other
              ∙ ap (λ (k : ℕ). seek hash equals x (get_or h.tbl k [])) same
          | inr miss ↦
              get-with_list_other hash equals h i l m x (λ same.
                (let hit : (i == (hash x % h.tbl_size)) ≡ true = (==_iff _ _).1 same in cc))
        ]

    unlinked-gone :
        (h : DHash A) (ref : A)
        → IsTable hash equals h
        → get hash equals (unlinked hash equals h ref) ref ≡ none
    unlinked-gone h ref table =
        let i : ℕ = hash ref % h.tbl_size in
        let l : List A = get_or h.tbl i [] in
        get-with_list_here hash equals h i (unlink hash equals ref l)
          ((h.num_entries + (2 ^ 32 - 1)) % 2 ^ 32) ref table refl
        ∙ seek-unlink ref l (IsPlaced-at hash equals h.tbl_size 0 i h.tbl table.placed).1

    -- Where a search for `ref` finds `p`, `dhashRemove` returns `p` and keeps the invariant, whether
    -- the table shrinks, cannot shrink or does not have to: a search for `ref` finds nothing then,
    -- and a search for what is not equal to `ref` finds what it found before.
    pub remove-takes :
        (memory : Bool) (h : DHash A) (ref p : A)
        → IsTable hash equals h
        → get hash equals h ref ≡ some p
        → h.num_entries < 2 ^ 32
        → ((remove hash equals memory h ref).0 ≡ some p)
          × IsTable hash equals (remove hash equals memory h ref).1
          × (get hash equals (remove hash equals memory h ref).1 ref ≡ none)
          × ((x : A)
              → equals ref x ≡ false
              → get hash equals (remove hash equals memory h ref).1 x ≡ get hash equals h x)
    unfolding remove get
    remove-takes memory h ref p table found small =
        let h' = unlinked hash equals h ref in
        let table' = unlinked-IsTable h ref p table found small in
        rw (found, remove)
          (elim (Bool-cases (ltb h'.num_entries (h'.tbl_size / 3) && ltb 32 h'.tbl_size)) [
            | inl shrinks ↦
                let big : 32 < h'.tbl_size = ground (arith, shrinks) in
                let half : 0 < h'.tbl_size / 2 = omega arith in
                let smaller = resize-get hash equals law memory h' (h'.tbl_size / 2) table' half in
                rw shrinks (
                  refl,
                  smaller.0,
                  smaller.1 ref ∙ unlinked-gone h ref table,
                  λ x other. smaller.1 x ∙ unlinked-get h ref x table other,
                )
            | inr stays ↦ rw stays (
              refl,
              table',
              unlinked-gone h ref table,
              λ x other. unlinked-get h ref x table other,
            )
          ])
