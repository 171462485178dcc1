-- ===== src/Lru/Leave.antt =====
-- An element leaves the list from before, behind or at the middle.
use mathlib.Core.List.{append_assoc}
use dvb_vulture.Prelude.{
  ℕ, suc, ◌+◌, ◌≤◌, ◌≡◌, ◌≢◌, refl, sym, subst, ◌∙◌, List, [], ◌∷◌, ◌++◌, none, some, length,
  length-append, AllIn-append, AllIn-split, arith, inl,
}
use dvb_vulture.DList.{Store}
use dvb_vulture.DList
use dvb_vulture.DList.Seg.{last-append}
use dvb_vulture.DList.Join.{Holds}
use dvb_vulture.Lru.{Lru, put_part, remove, emptied, lru_balance}
use dvb_vulture.Lru.Split.{IsSplit, part_self, part_other, part-all, apart, next-apart}
use dvb_vulture.Lru.Balance.{IsLru, balance-IsLru}
use dvb_vulture.Lru.Keep.{first-some}
use dvb_vulture.Lru.Steps.{
  remove-steps, count_before, count_behind, count_none, leave_left, leave_right, leave_none,
  other_mid, own_mid, removed,
}

-- What `LRURemove` comes to: the list has these elements then.
abbrev pub Removes : Lru → ℕ → List ℕ → Type 0
Removes s e xs = (s' : Lru) × (remove s e ≡ some (0, s')) × IsLru s' xs

-- an element before the middle one
pub left-Removes :
    (s : Lru) (front : List ℕ) (e : ℕ) (cs : List ℕ) (m : ℕ) (zs : List ℕ)
    → IsSplit s (front ++ (e ∷ cs)) m zs
    → length (front ++ (e ∷ cs)) ≤ length zs
    → length zs ≤ length (front ++ (e ∷ cs)) + 1
    → Removes s e ((front ++ cs) ++ (m ∷ zs))
left-Removes s front e cs m zs split le le' =
    let n : length (front ++ (e ∷ cs)) ≡ length front + suc (length cs) =
      length-append front (e ∷ cs) in
    let n' : length (front ++ cs) ≡ length front + length cs = length-append front cs in
    let first = first-some s.l (front ++ (e ∷ cs)) m zs split.holds in
    let parts = AllIn-split (λ x. s.part x ≡ 0) front (e ∷ cs) split.left_part in
    let fresh =
      AllIn-split (λ x. x ≢ m) front (e ∷ cs) (apart s.l (front ++ (e ∷ cs)) m zs split.holds).0 in
    let count : s.before ≡ suc (length (front ++ cs)) = omega (arith, split.before_is) in
    let s2 : Lru = record s { l = DList.remove s.l e; before = length (front ++ cs) } in
    let holds : Holds s2.l ((front ++ cs) ++ (m ∷ zs)) =
      subst (Holds s2.l) (sym (append_assoc front cs (m ∷ zs))) (
        removed s.l front e (cs ++ (m ∷ zs))
          (subst (Holds s.l) (append_assoc front (e ∷ cs) (m ∷ zs)) split.holds)) in
    let balanced =
      balance-IsLru s2 (front ++ cs) m zs
        (record {
          holds = holds;
          mid_is = split.mid_is;
          before_is = refl;
          behind_is = split.behind_is;
          left_part = AllIn-append (λ x. s.part x ≡ 0) front cs parts.0 parts.1.1;
          mid_part = split.mid_part;
          right_part = split.right_part;
        })
        (omega arith) (omega arith) in
    (
      balanced.0,
      remove-steps s e first.0 s s2 balanced.0 first.1
          (rw (other_mid s e m split.mid_is (λ same. fresh.1.0 (sym same))) refl)
          (count_before (record s { l = DList.remove s.l e }) e (length (front ++ cs)) parts.1.0
            count)
          balanced.1,
      balanced.2,
    )

-- an element behind the middle one
pub right-Removes :
    (s : Lru) (ys : List ℕ) (m : ℕ) (cs : List ℕ) (e : ℕ) (bs : List ℕ)
    → IsSplit s ys m (cs ++ (e ∷ bs))
    → length ys ≤ length (cs ++ (e ∷ bs))
    → length (cs ++ (e ∷ bs)) ≤ length ys + 1
    → Removes s e (ys ++ (m ∷ (cs ++ bs)))
right-Removes s ys m cs e bs split le le' =
    let n : length (cs ++ (e ∷ bs)) ≡ length cs + suc (length bs) = length-append cs (e ∷ bs) in
    let n' : length (cs ++ bs) ≡ length cs + length bs = length-append cs bs in
    let first = first-some s.l ys m (cs ++ (e ∷ bs)) split.holds in
    let parts = AllIn-split (λ x. s.part x ≡ 1) cs (e ∷ bs) split.right_part in
    let fresh =
      AllIn-split (λ x. x ≢ m) cs (e ∷ bs) (apart s.l ys m (cs ++ (e ∷ bs)) split.holds).1 in
    let count : s.behind ≡ suc (length (cs ++ bs)) = omega (arith, split.behind_is) in
    let s2 : Lru = record s { l = DList.remove s.l e; behind = length (cs ++ bs) } in
    let holds : Holds s2.l (ys ++ (m ∷ (cs ++ bs))) =
      subst (Holds s2.l) (append_assoc ys (m ∷ cs) bs) (
        removed s.l (ys ++ (m ∷ cs)) e bs
          (subst (Holds s.l) (sym (append_assoc ys (m ∷ cs) (e ∷ bs))) split.holds)) in
    let balanced =
      balance-IsLru s2 ys m (cs ++ bs)
        (record {
          holds = holds;
          mid_is = split.mid_is;
          before_is = split.before_is;
          behind_is = refl;
          left_part = split.left_part;
          mid_part = split.mid_part;
          right_part = AllIn-append (λ x. s.part x ≡ 1) cs bs parts.0 parts.1.1;
        })
        (omega arith) (omega arith) in
    (
      balanced.0,
      remove-steps s e first.0 s s2 balanced.0 first.1
          (rw (other_mid s e m split.mid_is (λ same. fresh.1.0 (sym same))) refl)
          (count_behind (record s { l = DList.remove s.l e }) e (length (cs ++ bs)) parts.1.0 count)
          balanced.1,
      balanced.2,
    )

-- the middle element, with one before it
pub mid-Removes :
    (s : Lru) (front : List ℕ) (p e : ℕ) (zs : List ℕ)
    → IsSplit s (front ++ (p ∷ [])) e zs
    → length (front ++ (p ∷ [])) ≤ length zs
    → length zs ≤ length (front ++ (p ∷ [])) + 1
    → Removes s e ((front ++ (p ∷ [])) ++ zs)
mid-Removes s front p e zs split le le' =
    let n : length (front ++ (p ∷ [])) ≡ length front + 1 = length-append front (p ∷ []) in
    let first = first-some s.l (front ++ (p ∷ [])) e zs split.holds in
    let back : s.l.prev e ≡ some p =
      (next-apart s.l (front ++ (p ∷ [])) e zs split.holds).0 ∙ last-append none front (p ∷ []) in
    let count : s.before ≡ suc (length front) = omega (arith, split.before_is) in
    let at_e = apart s.l (front ++ (p ∷ [])) e zs split.holds in
    let at_p =
      apart s.l front p (e ∷ zs)
        (subst (Holds s.l) (append_assoc front (p ∷ []) (e ∷ zs)) split.holds) in
    let fresh = AllIn-split (λ x. x ≢ e) front (p ∷ []) at_e.0 in
    let left = AllIn-split (λ x. s.part x ≡ 0) front (p ∷ []) split.left_part in
    let s1 : Lru = record s {
      mid = some p;
      part = put_part (put_part s.part e 1) p 2;
      before = length front;
      behind = s.behind + 1;
    } in
    let s2 : Lru = record s1 { l = DList.remove s.l e; behind = length zs } in
    let balanced =
      balance-IsLru s2 front p zs
        (record {
          holds =
              subst (Holds s2.l) (append_assoc front (p ∷ []) zs)
                (removed s.l (front ++ (p ∷ [])) e zs split.holds);
          mid_is = refl;
          before_is = refl;
          behind_is = refl;
          left_part =
              part-all (put_part s.part e 1) p 2 0 front at_p.0
                (part-all s.part e 1 0 front fresh.0 left.0);
          mid_part = part_self (put_part s.part e 1) p 2;
          right_part =
              part-all (put_part s.part e 1) p 2 1 zs at_p.1.1
                (part-all s.part e 1 1 zs at_e.1 split.right_part);
        })
        (omega arith) (omega arith) in
    let ne : e ≢ p = at_p.1.0 in
    (
      balanced.0,
      remove-steps s e first.0 s1 s2 balanced.0 first.1
          (rw (own_mid s e split.mid_is) (leave_left s e p (length front) back count))
          (count_behind (record s1 { l = DList.remove s.l e }) e (length zs)
            (part_other (put_part s.part e 1) p 2 e ne ∙ part_self s.part e 1)
            (omega (arith, split.behind_is)))
          balanced.1,
      subst (IsLru balanced.0) (sym (append_assoc front (p ∷ []) zs)) balanced.2,
    )

-- the middle element, which is the first
pub first-Removes :
    (s : Lru) (e q : ℕ) (zs : List ℕ)
    → IsSplit s [] e (q ∷ zs)
    → length zs ≤ 0
    → Removes s e (q ∷ zs)
first-Removes s e q zs split le =
    let first = first-some s.l [] e (q ∷ zs) split.holds in
    let ends = next-apart s.l [] e (q ∷ zs) split.holds in
    let at_e = (apart s.l [] e (q ∷ zs) split.holds).1 in
    let at_q = (apart s.l (e ∷ []) q zs split.holds).1 in
    let count : s.behind ≡ suc (length zs) = split.behind_is in
    let s1 : Lru = record s {
      mid = some q;
      part = put_part (put_part s.part e 0) q 2;
      before = s.before + 1;
      behind = length zs;
    } in
    let s2 : Lru = record s1 { l = DList.remove s.l e; before = 0 } in
    let balanced =
      balance-IsLru s2 [] q zs
        (record {
          holds = removed s.l [] e (q ∷ zs) split.holds;
          mid_is = refl;
          before_is = refl;
          behind_is = refl;
          left_part = tt;
          mid_part = part_self (put_part s.part e 0) q 2;
          right_part =
              part-all (put_part s.part e 0) q 2 1 zs at_q
                (part-all s.part e 0 1 zs at_e.1 split.right_part.1);
        })
        (omega arith) (omega arith) in
    (
      balanced.0,
      remove-steps s e first.0 s1 s2 balanced.0 first.1
          (rw (own_mid s e split.mid_is) (leave_right s e q (length zs) ends.0 ends.1 count))
          (count_before (record s1 { l = DList.remove s.l e }) e 0
            (part_other (put_part s.part e 0) q 2 e (λ same. at_e.0 (sym same))
              ∙ part_self s.part e 0)
            (omega (arith, split.before_is)))
          balanced.1,
      balanced.2,
    )

-- the only element
pub only-Removes : (s : Lru) (e : ℕ) → IsSplit s [] e [] → Removes s e []
unfolding lru_balance
only-Removes s e split =
    let first = first-some s.l [] e [] split.holds in
    let ends = next-apart s.l [] e [] split.holds in
    let s1 : Lru = record s { mid = none } in
    let s2 : Lru = emptied (record s1 { l = DList.remove s.l e }) in
    (
      s2,
      remove-steps s e first.0 s1 s2 s2 first.1
          (rw (own_mid s e split.mid_is) (leave_none s e ends.0 ends.1))
          (count_none (record s1 { l = DList.remove s.l e }) e split.mid_part) refl,
      inl ((removed s.l [] e [] split.holds, refl, refl, refl), refl),
    )
