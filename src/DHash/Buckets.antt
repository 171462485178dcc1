-- ===== src/DHash/Buckets.antt =====
-- The lists of a table: what is moved to them, and what is found in them.
use native.Mathlib.Nat.{mod-lt}
use mathlib.Core.List.{append_assoc}
use dvb_vulture.Prelude.{
  append_nil, ℕ, zero, suc, ◌%◌, ◌<◌, ◌≡◌, refl, ap, sym, subst, ◌∙◌, List, [], ◌∷◌, ◌++◌, Bool,
  true, ◌==◌, ==_iff, if◌then◌else◌, get_or, length, replicate, length-set, length-replicate,
  get_or-set_self, get_or-set_ne, inl, inr, Bool-cases,
}
use dvb_vulture.DHash.{entries, insert_last, seek, move_list, move_all}

module _ {ℓ} {A : Type ℓ} where
  get_or-replicate : (n i : ℕ) → get_or {A = List A} (replicate n []) i [] ≡ []
  get_or-replicate zero i = refl
  get_or-replicate (suc n) zero = refl
  get_or-replicate (suc n) (suc i) = get_or-replicate n i

  get_or-insert_last :
      (tbl : List (List A)) (i k : ℕ) (e : A)
      → i < length tbl
      → get_or (insert_last tbl i e) k []
        ≡ (if i == k then get_or tbl k [] ++ (e ∷ []) else get_or tbl k [])
  get_or-insert_last tbl i k e lt = elim (Bool-cases (i == k)) [
    | inl eq ↦
        let same : i ≡ k = (==_iff i k).0 eq in
        rw eq (
          subst (λ (j : ℕ). get_or (insert_last tbl i e) j [] ≡ get_or tbl j [] ++ (e ∷ [])) same
            (get_or-set_self tbl i (get_or tbl i [] ++ (e ∷ [])) [] lt))
    | inr ne ↦ rw ne (
        get_or-set_ne tbl i k (get_or tbl i [] ++ (e ∷ [])) []
          (λ same. absurd (let hit : (i == k) ≡ true = (==_iff i k).1 same in cc)))
  ]

  module _ (hash : A → ℕ) where
    -- those that belong to the list at this index of a table of this size
    abbrev pub belonging : (size i : ℕ) → List A → List A
    belonging n i [] = []
    belonging n i (e ∷ l) =
        let rest = belonging n i l in if (hash e % n) == i then e ∷ rest else rest

    pub belonging-append :
        (n i : ℕ) (l l' : List A) → belonging n i (l ++ l') ≡ belonging n i l ++ belonging n i l'
    belonging-append n i [] l' = refl
    belonging-append n i (e ∷ l) l' = elim (Bool-cases ((hash e % n) == i)) [
      | inl hit ↦ rw hit (ap (λ rest. e ∷ rest) (belonging-append n i l l'))
      | inr miss ↦ rw miss (belonging-append n i l l')
    ]

    module _ (equals : A → A → Bool) where
      pub length-move_list :
          (n : ℕ) (l : List A) (tbl : List (List A))
          → length (move_list hash equals n l tbl) ≡ length tbl
      length-move_list n [] tbl = refl
      length-move_list n (e ∷ l) tbl =
          length-move_list n l (insert_last tbl (hash e % n) e)
          ∙ length-set tbl (hash e % n) (get_or tbl (hash e % n) [] ++ (e ∷ []))

      pub length-move_all :
          (n : ℕ) (old tbl : List (List A)) → length (move_all hash equals n old tbl) ≡ length tbl
      length-move_all n [] tbl = refl
      length-move_all n (l ∷ old) tbl =
          length-move_all n old (move_list hash equals n l tbl) ∙ length-move_list n l tbl

      move_list-belonging :
          (n i : ℕ) (l : List A) (tbl : List (List A))
          → 0 < n
          → length tbl ≡ n
          → get_or (move_list hash equals n l tbl) i [] ≡ get_or tbl i [] ++ belonging n i l
      move_list-belonging n i [] tbl pos len = sym (append_nil (get_or tbl i []))
      move_list-belonging n i (e ∷ l) tbl pos len =
          let at : ℕ = hash e % n in
          let lt : at < length tbl = subst (λ (m : ℕ). at < m) (sym len) (mod-lt (hash e) pos) in
          let here = get_or-insert_last tbl at i e lt in
          let later =
            move_list-belonging n i l (insert_last tbl at e) pos
              (length-set tbl at (get_or tbl at [] ++ (e ∷ [])) ∙ len) in
          later ∙ ap (λ front. front ++ belonging n i l) here ∙ elim (Bool-cases (at == i)) [
            | inl hit ↦ rw hit (append_assoc (get_or tbl i []) (e ∷ []) (belonging n i l))
            | inr miss ↦ rw miss refl
          ]

      move_all-belonging :
          (n i : ℕ) (old tbl : List (List A))
          → 0 < n
          → length tbl ≡ n
          → get_or (move_all hash equals n old tbl) i []
            ≡ get_or tbl i [] ++ belonging n i (entries old)
      move_all-belonging n i [] tbl pos len = sym (append_nil (get_or tbl i []))
      move_all-belonging n i (l ∷ old) tbl pos len =
          move_all-belonging n i old (move_list hash equals n l tbl) pos
            (length-move_list n l tbl ∙ len)
          ∙ ap (λ front. front ++ belonging n i (entries old))
              (move_list-belonging n i l tbl pos len)
          ∙ append_assoc (get_or tbl i []) (belonging n i l) (belonging n i (entries old))
          ∙ ap (λ rest. get_or tbl i [] ++ rest) (sym (belonging-append n i l (entries old)))

      -- A list of the table that `dhashResize` has built has what belongs there, in the old order.
      pub moved-belonging :
          (n i : ℕ) (old : List (List A))
          → 0 < n
          → get_or (move_all hash equals n old (replicate n [])) i [] ≡ belonging n i (entries old)
      moved-belonging n i old pos =
          move_all-belonging n i old (replicate n []) pos (length-replicate n [])
          ∙ ap (λ front. front ++ belonging n i (entries old)) (get_or-replicate n i)

      -- To look for an element among those that belong where it belongs is to look among all.
      pub seek-belonging :
          ((a b : A) → equals a b ≡ true → hash a ≡ hash b)
          → (n : ℕ) (ref : A) (l : List A)
          → seek hash equals ref (belonging n (hash ref % n) l) ≡ seek hash equals ref l
      seek-belonging same n ref [] = refl
      seek-belonging same n ref (e ∷ l) = elim (Bool-cases (equals e ref)) [
        | inl eq ↦
            let hit : ((hash e % n) == (hash ref % n)) ≡ true =
              (==_iff (hash e % n) (hash ref % n)).1 (ap (λ (h : ℕ). h % n) (same e ref eq)) in
            rw (hit, eq) refl
        | inr ne ↦ elim (Bool-cases ((hash e % n) == (hash ref % n))) [
          | inl hit ↦ rw (hit, ne) (seek-belonging same n ref l)
          | inr miss ↦ rw (miss, ne) (seek-belonging same n ref l)
        ]
      ]
