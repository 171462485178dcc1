-- ===== src/DList/Join.antt =====
-- An element comes between two parts of a list, or out from between them.
use dvb_vulture.Prelude.{
  ℕ, ◌≡◌, ◌≢◌, refl, ap, sym, subst₂, ◌∙◌, List, [], ◌∷◌, ◌++◌, Option, none, some, AllIn,
  AllIn-map, AllIn-map2, AllIn-split, AllIn-append,
}
use dvb_vulture.DList.{Store, put_at, end_or}
use dvb_vulture.DList.Seg.{
  head_or, last_or, Seg, Fresh, Apart, NoDup, Disjoint, last-all, put_at_other, Seg-same, Seg-front,
  Seg-back, last-append, Seg-append, Seg-split, NoDup-append, NoDup-split,
}

-- The memory holds the list of these elements.
abbrev pub Holds : Store → List ℕ → Type 0
Holds s xs =
    (s.first ≡ head_or xs none)
    × (s.last ≡ last_or none xs)
    × Seg s.next s.prev none xs none
    × NoDup xs

-- `e` is linked in between its neighbours `p` and `q`.
pub record Joins (s s' : Store) (p q : Option ℕ) (e : ℕ) : Type 0 where
  pub first_end : s'.first ≡ end_or p s.first (some e)
  pub last_end : s'.last ≡ end_or q s.last (some e)
  pub next_own : s'.next e ≡ q
  pub prev_own : s'.prev e ≡ p
  pub next_other : (x : ℕ) → x ≢ e → s'.next x ≡ put_at s.next p (some e) x
  pub prev_other : (x : ℕ) → x ≢ e → s'.prev x ≡ put_at s.prev q (some e) x

-- `e` is taken out from between them.
pub record Leaves (s s' : Store) (p q : Option ℕ) (e : ℕ) : Type 0 where
  pub first_end : s'.first ≡ end_or p s.first q
  pub last_end : s'.last ≡ end_or q s.last p
  pub next_other : (x : ℕ) → x ≢ e → s'.next x ≡ put_at s.next p q x
  pub prev_other : (x : ℕ) → x ≢ e → s'.prev x ≡ put_at s.prev q p x

end-last :
    (a : ℕ) (rest : List ℕ) (end new : Option ℕ) → end_or (last_or (some a) rest) end new ≡ end
end-last a [] end new = refl
end-last a (b ∷ rest) end new = end-last b rest end new

-- the first and the last of the two parts with something between them
first-between :
    (ys xs xs' : List ℕ)
    → end_or (last_or none ys) (head_or (ys ++ xs) none) (head_or xs' none)
      ≡ head_or (ys ++ xs') none
first-between [] xs xs' = refl
first-between (a ∷ ys) xs xs' = end-last a ys (some a) (head_or xs' none)

last-between :
    (zs : List ℕ) (back end new : Option ℕ)
    → end ≡ last_or back zs
    → end_or (head_or zs none) end new ≡ last_or new zs
last-between [] back end new e = refl
last-between (z ∷ zs) back end new e = e

Apart-each : (q : Option ℕ) (xs : List ℕ) → Apart q xs → AllIn (λ x. Apart q (x ∷ [])) xs
Apart-each none [] apart = tt
Apart-each none (x ∷ xs) apart = (tt, Apart-each none xs tt)
Apart-each (some a) xs apart =
    AllIn-map (λ x. x ≢ a) (λ x. Fresh a (x ∷ [])) (λ x ne. (ne, tt)) xs apart

pub head-Apart : (ys zs : List ℕ) → Disjoint ys zs → Apart (head_or zs none) ys
head-Apart ys [] apart = tt
head-Apart ys (z ∷ zs) apart =
    AllIn-map (λ y. Fresh y (z ∷ zs)) (λ y. y ≢ z) (λ y fresh e. fresh.0 (sym e)) ys apart

-- The links of both parts, where those of the neighbours are redirected.
parts-Seg :
    (next prev next' prev' : ℕ → Option ℕ) (ys zs : List ℕ) (e : ℕ) (f b f' b' : Option ℕ)
    → Seg next prev none ys f
    → Seg next prev b zs none
    → NoDup (ys ++ zs)
    → Fresh e (ys ++ zs)
    → ((x : ℕ) → x ≢ e → next' x ≡ put_at next (last_or none ys) f' x)
    → ((x : ℕ) → x ≢ e → prev' x ≡ put_at prev (head_or zs none) b' x)
    → Seg next' prev' none ys f' × Seg next' prev' b' zs none
parts-Seg next prev next' prev' ys zs e f b f' b' seg seg' nodup fresh next_other prev_other =
    let d = NoDup-split ys zs nodup in
    let apart = AllIn-split (λ x. x ≢ e) ys zs fresh in
    (
      Seg-same (put_at next (last_or none ys) f') prev next' prev' none f' ys
          (AllIn-map2 (λ x. x ≢ e) (λ x. Apart (head_or zs none) (x ∷ []))
            (λ x. (next' x ≡ put_at next (last_or none ys) f' x) × (prev' x ≡ prev x))
            (λ x ne q.
              (next_other x ne, prev_other x ne ∙ put_at_other prev (head_or zs none) x b' q))
            ys apart.0 (Apart-each (head_or zs none) ys (head-Apart ys zs d.2)))
          (Seg-front next prev none f f' ys d.0 seg),
      Seg-same next (put_at prev (head_or zs none) b') next' prev' b' none zs
          (AllIn-map2 (λ x. x ≢ e) (λ x. Apart (last_or none ys) (x ∷ []))
            (λ x. (next' x ≡ next x) × (prev' x ≡ put_at prev (head_or zs none) b' x))
            (λ x ne q.
              (next_other x ne ∙ put_at_other next (last_or none ys) x f' q, prev_other x ne))
            zs apart.1
            (Apart-each (last_or none ys) zs (last-all (λ q. Apart q zs) none ys tt d.2)))
          (Seg-back next prev b b' none zs d.1 seg'),
    )

pub Joins-Holds :
    (s s' : Store) (ys zs : List ℕ) (e : ℕ)
    → Holds s (ys ++ zs)
    → Fresh e (ys ++ zs)
    → Joins s s' (last_or none ys) (head_or zs none) e
    → Holds s' (ys ++ (e ∷ zs))
Joins-Holds s s' ys zs e holds fresh joins =
    let split = Seg-split s.next s.prev none none ys zs holds.2 in
    let parts =
      parts-Seg s.next s.prev s'.next s'.prev ys zs e (head_or zs none) (last_or none ys) (some e)
        (some e) split.0 split.1 holds.3 fresh joins.next_other joins.prev_other in
    let d = NoDup-split ys zs holds.3 in
    let apart = AllIn-split (λ x. x ≢ e) ys zs fresh in
    (
      joins.first_end
          ∙ ap (λ first. end_or (last_or none ys) first (some e)) holds.0
          ∙ first-between ys zs (e ∷ zs),
      joins.last_end
          ∙ last-between zs (last_or none ys) s.last (some e) (holds.1 ∙ last-append none ys zs)
          ∙ sym (last-append none ys (e ∷ zs)),
      Seg-append s'.next s'.prev none none ys (e ∷ zs) parts.0
          (joins.prev_own, joins.next_own, parts.1),
      NoDup-append ys (e ∷ zs) d.0 (apart.1, d.1)
          (AllIn-map2 (λ y. y ≢ e) (λ y. Fresh y zs) (λ y. Fresh y (e ∷ zs))
            (λ y ne f. ((λ same. ne (sym same)), f)) ys apart.0 d.2),
    )

pub Leaves-Holds :
    (s s' : Store) (ys zs : List ℕ) (e : ℕ)
    → Holds s (ys ++ (e ∷ zs))
    → Leaves s s' (s.prev e) (s.next e) e
    → Holds s' (ys ++ zs)
Leaves-Holds s s' ys zs e holds leaves =
    let split = Seg-split s.next s.prev none none ys (e ∷ zs) holds.2 in
    let left : Leaves s s' (last_or none ys) (head_or zs none) e =
      subst₂ (λ p q. Leaves s s' p q e) split.1.0 split.1.1 leaves in
    let d = NoDup-split ys (e ∷ zs) holds.3 in
    let fresh : Fresh e ys =
      AllIn-map (λ y. Fresh y (e ∷ zs)) (λ y. y ≢ e) (λ y f same. f.0 (sym same)) ys d.2 in
    let nodup : NoDup (ys ++ zs) =
      NoDup-append ys zs d.0 d.1.1
        (AllIn-map (λ y. Fresh y (e ∷ zs)) (λ y. Fresh y zs) (λ y f. f.1) ys d.2) in
    let parts =
      parts-Seg s.next s.prev s'.next s'.prev ys zs e (some e) (some e) (head_or zs none)
        (last_or none ys) split.0 split.1.2 nodup (AllIn-append (λ x. x ≢ e) ys zs fresh d.1.0)
        left.next_other left.prev_other in
    (
      left.first_end
          ∙ ap (λ first. end_or (last_or none ys) first (head_or zs none)) holds.0
          ∙ first-between ys (e ∷ zs) zs,
      left.last_end
          ∙ last-between zs (some e) s.last (last_or none ys)
              (holds.1 ∙ last-append none ys (e ∷ zs))
          ∙ sym (last-append none ys zs),
      Seg-append s'.next s'.prev none none ys zs parts.0 parts.1,
      nodup,
    )
