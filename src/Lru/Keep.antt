-- ===== src/Lru/Keep.antt =====
-- To put in the middle and to take the last keep the invariant.
use mathlib.Core.List.{append_assoc}
use dvb_vulture.Prelude.{
  ℕ, ◌+◌, ◌≤◌, ◌<◌, ◌≡◌, ◌≢◌, refl, sym, subst, ◌∙◌, List, [], ◌∷◌, ◌++◌, none, some, ltb, ltb→lt,
  ltb→le, length, length-append, AllIn-append, AllIn-split, arith, inl, inr, Bool-cases,
}
use dvb_vulture.DList.{Store}
use dvb_vulture.DList
use dvb_vulture.DList.Seg.{head_or, Fresh}
use dvb_vulture.DList.Join.{Holds}
use dvb_vulture.DList.Refine.{run-Holds, insert_first_call, insert_after-Holds, insert_before-Holds}
use dvb_vulture.Lru.{Lru, put_part, put_mid}
use dvb_vulture.Lru.Split.{part_self, part_other, part-all}
use dvb_vulture.Lru.Balance.{IsLru}

pub head-some :
    (ys : List ℕ) (m : ℕ) (zs : List ℕ) → (f : ℕ) × (head_or (ys ++ (m ∷ zs)) none ≡ some f)
head-some [] m zs = (m, refl)
head-some (y ∷ ys) m zs = (y, refl)

pub first-some :
    (s : Store) (ys : List ℕ) (m : ℕ) (zs : List ℕ)
    → Holds s (ys ++ (m ∷ zs))
    → (f : ℕ) × (s.first ≡ some f)
first-some s ys m zs holds = let f = head-some ys m zs in (f.0, holds.0 ∙ f.1)

-- `LRUPutMid` of an element that is not in the list, on a list that has the invariant, returns and
-- keeps the invariant: the element is between two parts of what the list was.
pub put_mid-IsLru :
    (s : Lru) (e : ℕ) (xs : List ℕ)
    → IsLru s xs
    → Fresh e xs
    → (s' : Lru) × (ys : List ℕ) × (zs : List ℕ) × (put_mid s e ≡ some s')
      × (xs ≡ ys ++ zs)
      × IsLru s' (ys ++ (e ∷ zs))
unfolding put_mid
put_mid-IsLru s e xs (inl (none_there, is_nil)) fresh =
    let s' : Lru = record {
      l = DList.insert_first s.l e;
      before = 0;
      behind = 0;
      mid = some e;
      part = put_part s.part e 2;
    } in
    (
      s',
      [],
      [],
      simp (none_there.0.0, put_mid) refl,
      is_nil,
      inr (
        [],
        e,
        [],
        refl,
        record {
          holds = run-Holds (insert_first_call e) s.l [] (e ∷ []) none_there.0 (tt, refl);
          mid_is = refl;
          before_is = refl;
          behind_is = refl;
          left_part = tt;
          mid_part = part_self s.part e 2;
          right_part = tt;
        },
        omega arith,
        omega arith,
      ),
    )
put_mid-IsLru s e xs (inr (ys, m, zs, at, split, le, le')) fresh =
    let fresh' : Fresh e (ys ++ (m ∷ zs)) = subst (Fresh e) at fresh in
    let parts = AllIn-split (λ x. x ≢ e) ys (m ∷ zs) fresh' in
    let first = first-some s.l ys m zs split.holds in
    let count : length (ys ++ (e ∷ [])) ≡ length ys + 1 = length-append ys (e ∷ []) in
    let b : s.before ≡ length ys = split.before_is in
    let c : s.behind ≡ length zs = split.behind_is in
    elim (Bool-cases (ltb s.before s.behind)) [
      | inl less ↦
          let lt : s.before < s.behind = ltb→lt s.before s.behind less in
          let s' : Lru = record s {
            l = DList.insert_before s.l e m;
            before = s.before + 1;
            part = put_part s.part e 0;
          } in
          (
            s',
            ys,
            m ∷ zs,
            simp (first.1, split.mid_is, less, put_mid) refl,
            at,
            inr (
              ys ++ (e ∷ []),
              m,
              zs,
              sym (append_assoc ys (e ∷ []) (m ∷ zs)),
              record {
                holds =
                    subst (Holds s'.l) (sym (append_assoc ys (e ∷ []) (m ∷ zs)))
                      (insert_before-Holds s.l e m ys zs split.holds fresh');
                mid_is = split.mid_is;
                before_is = omega arith;
                behind_is = split.behind_is;
                left_part =
                    AllIn-append (λ x. put_part s.part e 0 x ≡ 0) ys (e ∷ [])
                      (part-all s.part e 0 0 ys parts.0 split.left_part) (part_self s.part e 0, tt);
                mid_part = part_other s.part e 0 m parts.1.0 ∙ split.mid_part;
                right_part = part-all s.part e 0 1 zs parts.1.1 split.right_part;
              },
              omega arith,
              omega arith,
            ),
          )
      | inr not_less ↦
          let ge : s.behind ≤ s.before = ltb→le s.before s.behind not_less in
          let s' : Lru = record s {
            l = DList.insert_after s.l m e;
            behind = s.behind + 1;
            part = put_part s.part e 1;
          } in
          (
            s',
            ys ++ (m ∷ []),
            zs,
            simp (first.1, split.mid_is, not_less, put_mid) refl,
            at ∙ sym (append_assoc ys (m ∷ []) zs),
            inr (
              ys,
              m,
              e ∷ zs,
              append_assoc ys (m ∷ []) (e ∷ zs),
              record {
                holds = insert_after-Holds s.l m e ys zs split.holds fresh';
                mid_is = split.mid_is;
                before_is = split.before_is;
                behind_is = omega arith;
                left_part = part-all s.part e 1 0 ys parts.0 split.left_part;
                mid_part = part_other s.part e 1 m parts.1.0 ∙ split.mid_part;
                right_part =
                    (part_self s.part e 1, part-all s.part e 1 1 zs parts.1.1 split.right_part);
              },
              omega arith,
              omega arith,
            ),
          )
    ]
