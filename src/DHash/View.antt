-- ===== src/DHash/View.antt =====
-- What a table is to its user: a list of the entries, that is searched from its start.
use dvb_vulture.Prelude.{
  append_nil, ℕ, zero, suc, ◌+◌, ◌%◌, ◌<◌, ◌≡◌, ◌≢◌, refl, ap, sym, ◌∙◌, List, [], ◌∷◌, ◌++◌, Bool,
  true, false, ==_iff, ==_ne, get_or, length, arith, AllIn,
}
use dvb_vulture.DHash.{DHash, entries, seek, get}
use dvb_vulture.DHash.Buckets.{belonging, belonging-append, seek-belonging}

-- What the table relies on: the test for equality is symmetric and transitive, and equal elements
-- have one hash value.
pub record IsEquality {ℓ} {A : Type ℓ} (hash : A → ℕ) (equals : A → A → Bool) : Type ℓ where
  pub turned : (a b : A) → equals a b ≡ equals b a
  pub chained : (a b c : A) → equals a b ≡ true → equals b c ≡ true → equals a c ≡ true
  pub hashed : (a b : A) → equals a b ≡ true → hash a ≡ hash b

module _ {ℓ} {A : Type ℓ} (hash : A → ℕ) (equals : A → A → Bool) where
  -- none is equal to one that follows it
  abbrev pub IsDistinct : List A → Type 0
  IsDistinct [] = Unit {0}
  IsDistinct (e ∷ l) = AllIn (λ a. equals e a ≡ false) l × IsDistinct l

  -- Each list has elements that belong there, and no two that are equal.
  abbrev pub IsPlaced : (size i : ℕ) → List (List A) → Type 0
  IsPlaced n i [] = Unit {0}
  IsPlaced n i (l ∷ tbl) = AllIn (λ e. hash e % n ≡ i) l × IsDistinct l × IsPlaced n (suc i) tbl

  -- the invariant of the table
  pub record IsTable (h : DHash A) : Type 0 where
    pub sized : length h.tbl ≡ h.tbl_size
    pub some_list : 0 < h.tbl_size
    pub placed : IsPlaced h.tbl_size 0 h.tbl
    pub counted : h.num_entries ≡ length (entries h.tbl)

  pub belonging-here :
      (n i : ℕ) (l : List A) → AllIn (λ e. hash e % n ≡ i) l → belonging hash n i l ≡ l
  belonging-here n i [] all = refl
  belonging-here n i (e ∷ l) all =
      rw ((==_iff (hash e % n) i).1 all.0) (ap (λ rest. e ∷ rest) (belonging-here n i l all.1))

  belonging-elsewhere :
      (n i k : ℕ) (l : List A) → i ≢ k → AllIn (λ e. hash e % n ≡ i) l → belonging hash n k l ≡ []
  belonging-elsewhere n i k [] ne all = refl
  belonging-elsewhere n i k (e ∷ l) ne all =
      rw (==_ne (hash e % n) k (λ eq. ne (sym all.0 ∙ eq))) (belonging-elsewhere n i k l ne all.1)

  belonging-later :
      (n i k : ℕ) (tbl : List (List A))
      → k < i
      → IsPlaced n i tbl
      → belonging hash n k (entries tbl) ≡ []
  belonging-later n i k [] lt placed = refl
  belonging-later n i k (l ∷ tbl) lt placed =
      belonging-append hash n k l (entries tbl)
      ∙ ap (λ front. front ++ belonging hash n k (entries tbl))
          (belonging-elsewhere n i k l (omega arith) placed.0)
      ∙ belonging-later n (suc i) k tbl (omega arith) placed.2

  -- A list has all the entries that belong there.
  IsPlaced-belonging :
      (n i j : ℕ) (tbl : List (List A))
      → IsPlaced n i tbl
      → get_or tbl j [] ≡ belonging hash n (i + j) (entries tbl)
  IsPlaced-belonging n i j [] placed = refl
  IsPlaced-belonging n i zero (l ∷ tbl) placed =
      let at : i + 0 ≡ i = omega arith in
      sym (
        ap (λ (k : ℕ). belonging hash n k (l ++ entries tbl)) at
        ∙ belonging-append hash n i l (entries tbl)
        ∙ ap (λ front. front ++ belonging hash n i (entries tbl)) (belonging-here n i l placed.0)
        ∙ ap (λ rest. l ++ rest) (belonging-later n (suc i) i tbl (omega arith) placed.2)
        ∙ append_nil l)
  IsPlaced-belonging n i (suc j) (l ∷ tbl) placed =
      let at : i + suc j ≡ suc i + j = omega arith in
      IsPlaced-belonging n (suc i) j tbl placed.2
      ∙ sym (
          ap (λ (k : ℕ). belonging hash n k (l ++ entries tbl)) at
          ∙ belonging-append hash n (suc i + j) l (entries tbl)
          ∙ ap (λ front. front ++ belonging hash n (suc i + j) (entries tbl))
              (belonging-elsewhere n i (suc i + j) l (omega arith) placed.0))

  module _ (law : IsEquality hash equals) where
    -- To search the one list is to search all entries.
    pub get-seek :
        (h : DHash A) (ref : A)
        → IsTable h
        → get hash equals h ref ≡ seek hash equals ref (entries h.tbl)
    unfolding get
    get-seek h ref table =
        let at : 0 + hash ref % h.tbl_size ≡ hash ref % h.tbl_size = omega arith in
        ap (seek hash equals ref) (
          IsPlaced-belonging h.tbl_size 0 (hash ref % h.tbl_size) h.tbl table.placed
          ∙ ap (λ (k : ℕ). belonging hash h.tbl_size k (entries h.tbl)) at)
        ∙ seek-belonging hash equals law.hashed h.tbl_size ref (entries h.tbl)
