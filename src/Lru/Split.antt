-- ===== src/Lru/Split.antt =====
-- The middle element and the two parts of the list on its sides.
use mathlib.Core.List.{append_assoc}
use dvb_vulture.Prelude.{
  ℕ, suc, ◌+◌, ◌≡◌, ◌≢◌, refl, sym, subst, ◌∙◌, List, [], ◌∷◌, ◌++◌, none, some, ==_refl, ==_ne,
  length, length-append, AllIn, AllIn-map2, AllIn-append, AllIn-split, arith,
}
use dvb_vulture.DList.{Store}
use dvb_vulture.DList.Seg.{head_or, last_or, Fresh, last-append, Seg-split, NoDup-split}
use dvb_vulture.DList.Join.{Holds, head-Apart}
use dvb_vulture.Lru.{Lru, put_part, lru_l, lru_r}

-- `ys` is before the middle element `m`, and `zs` behind it; all that is kept of this agrees.
pub record IsSplit (s : Lru) (ys : List ℕ) (m : ℕ) (zs : List ℕ) : Type 0 where
  pub holds : Holds s.l (ys ++ (m ∷ zs))
  pub mid_is : s.mid ≡ some m
  pub before_is : s.before ≡ length ys
  pub behind_is : s.behind ≡ length zs
  pub left_part : AllIn (λ x. s.part x ≡ 0) ys
  pub mid_part : s.part m ≡ 2
  pub right_part : AllIn (λ x. s.part x ≡ 1) zs

pub part_self : (part : ℕ → ℕ) (a v : ℕ) → put_part part a v a ≡ v
part_self part a v = rw (==_refl a) refl

pub part_other : (part : ℕ → ℕ) (a v x : ℕ) → x ≢ a → put_part part a v x ≡ part x
part_other part a v x ne = rw (==_ne x a ne) refl

pub part-all :
    (part : ℕ → ℕ) (a v k : ℕ) (xs : List ℕ)
    → Fresh a xs
    → AllIn (λ x. part x ≡ k) xs
    → AllIn (λ x. put_part part a v x ≡ k) xs
part-all part a v k xs fresh all =
    AllIn-map2 (λ x. x ≢ a) (λ x. part x ≡ k) (λ x. put_part part a v x ≡ k)
      (λ x ne e. part_other part a v x ne ∙ e) xs fresh all

-- of the elements of a list, none stands on both sides of another
pub apart :
    (s : Store) (ys : List ℕ) (a : ℕ) (zs : List ℕ)
    → Holds s (ys ++ (a ∷ zs))
    → Fresh a ys × Fresh a zs
apart s ys a zs holds =
    let d = NoDup-split ys (a ∷ zs) holds.3 in (head-Apart ys (a ∷ zs) d.2, d.1.0)

pub next-apart :
    (s : Store) (ys : List ℕ) (a : ℕ) (zs : List ℕ)
    → Holds s (ys ++ (a ∷ zs))
    → (s.prev a ≡ last_or none ys) × (s.next a ≡ head_or zs none)
next-apart s ys a zs holds =
    let split = Seg-split s.next s.prev none none ys (a ∷ zs) holds.2 in (split.1.0, split.1.1)

pub lru_r-IsSplit :
    (s : Lru) (ys : List ℕ) (m z : ℕ) (zs : List ℕ)
    → IsSplit s ys m (z ∷ zs)
    → (s' : Lru) × (lru_r s ≡ some s') × IsSplit s' (ys ++ (m ∷ [])) z zs
unfolding lru_r
lru_r-IsSplit s ys m z zs split =
    let holds' : Holds s.l ((ys ++ (m ∷ [])) ++ (z ∷ zs)) =
      subst (Holds s.l) (sym (append_assoc ys (m ∷ []) (z ∷ zs))) split.holds in
    let at_m = apart s.l ys m (z ∷ zs) split.holds in
    let at_z = apart s.l (ys ++ (m ∷ [])) z zs holds' in
    let s' : Lru = record s {
      part = put_part (put_part s.part m 0) z 2;
      mid = some z;
      before = s.before + 1;
      behind = length zs;
    } in
    (
      s',
      rw (split.behind_is, split.mid_is, (next-apart s.l ys m (z ∷ zs) split.holds).1, lru_r) refl,
      record {
        holds = holds';
        mid_is = refl;
        before_is = omega (arith, split.before_is, length-append ys (m ∷ []));
        behind_is = refl;
        left_part = part-all (put_part s.part m 0) z 2 0 (ys ++ (m ∷ [])) at_z.0 (
            AllIn-append (λ x. put_part s.part m 0 x ≡ 0) ys (m ∷ [])
              (part-all s.part m 0 0 ys at_m.0 split.left_part) (part_self s.part m 0, tt));
        mid_part = part_self (put_part s.part m 0) z 2;
        right_part =
            part-all (put_part s.part m 0) z 2 1 zs at_z.1
              (part-all s.part m 0 1 zs at_m.1.1 split.right_part.1);
      },
    )

pub lru_l-IsSplit :
    (s : Lru) (ys : List ℕ) (p m : ℕ) (zs : List ℕ)
    → IsSplit s (ys ++ (p ∷ [])) m zs
    → (s' : Lru) × (lru_l s ≡ some s') × IsSplit s' ys p (m ∷ zs)
unfolding lru_l
lru_l-IsSplit s ys p m zs split =
    let holds' : Holds s.l (ys ++ (p ∷ m ∷ zs)) =
      subst (Holds s.l) (append_assoc ys (p ∷ []) (m ∷ zs)) split.holds in
    let at_m = apart s.l (ys ++ (p ∷ [])) m zs split.holds in
    let at_p = apart s.l ys p (m ∷ zs) holds' in
    let left = AllIn-split (λ x. s.part x ≡ 0) ys (p ∷ []) split.left_part in
    let fresh = AllIn-split (λ x. x ≢ m) ys (p ∷ []) at_m.0 in
    let count : s.before ≡ suc (length ys) =
      omega (arith, split.before_is, length-append ys (p ∷ [])) in
    let back : s.l.prev m ≡ some p =
      (next-apart s.l (ys ++ (p ∷ [])) m zs split.holds).0 ∙ last-append none ys (p ∷ []) in
    let s' : Lru = record s {
      part = put_part (put_part s.part m 1) p 2;
      mid = some p;
      before = length ys;
      behind = s.behind + 1;
    } in
    (
      s',
      rw (count, split.mid_is, back, lru_l) refl,
      record {
        holds = holds';
        mid_is = refl;
        before_is = refl;
        behind_is = omega (arith, split.behind_is);
        left_part =
            part-all (put_part s.part m 1) p 2 0 ys at_p.0
              (part-all s.part m 1 0 ys fresh.0 left.0);
        mid_part = part_self (put_part s.part m 1) p 2;
        right_part =
            part-all (put_part s.part m 1) p 2 1 (m ∷ zs) at_p.1
              (part_self s.part m 1, part-all s.part m 1 1 zs at_m.1 split.right_part);
      },
    )
