-- ===== src/Lru/Turn.antt =====
-- An element and the one before it change places, on either side of the middle or at it.
use mathlib.Core.List.{append_assoc}
use dvb_vulture.Prelude.{
  ℕ, suc, ◌+◌, ◌≤◌, ◌≡◌, ◌≢◌, refl, sym, subst, ◌∙◌, List, [], ◌∷◌, ◌++◌, some, length,
  length-append, AllIn-append, AllIn-split, arith, inr,
}
use dvb_vulture.DList.{Store}
use dvb_vulture.DList
use dvb_vulture.DList.Join.{Holds}
use dvb_vulture.DList.Refine.{insert_before-Holds}
use dvb_vulture.Lru.{Lru, put_part, fwd, fwd_mid}
use dvb_vulture.Lru.Split.{IsSplit, part_self, part_other, part-all, apart}
use dvb_vulture.Lru.Balance.{IsLru}
use dvb_vulture.Lru.Steps.{removed, own_mid, other_mid}

-- the list with the element in front of the one before it
abbrev turned : Store → (e p : ℕ) → Store
turned s e p = DList.insert_before (DList.remove s e) e p

turned-Holds :
    (s : Store) (front : List ℕ) (p e : ℕ) (bs : List ℕ)
    → Holds s (front ++ (p ∷ e ∷ bs))
    → Holds (turned s e p) (front ++ (e ∷ p ∷ bs))
turned-Holds s front p e bs holds =
    let out : Holds (DList.remove s e) (front ++ (p ∷ bs)) =
      subst (Holds (DList.remove s e)) (append_assoc front (p ∷ []) bs) (
        removed s (front ++ (p ∷ [])) e bs
          (subst (Holds s) (sym (append_assoc front (p ∷ []) (e ∷ bs))) holds)) in
    let fresh =
      apart s (front ++ (p ∷ [])) e bs
        (subst (Holds s) (sym (append_assoc front (p ∷ []) (e ∷ bs))) holds) in
    let left = AllIn-split (λ x. x ≢ e) front (p ∷ []) fresh.0 in
    insert_before-Holds (DList.remove s e) e p front bs out
      (AllIn-append (λ x. x ≢ e) front (p ∷ bs) left.0 (left.1.0, fresh.1))

pub fwd-steps :
    (s : Lru) (e p : ℕ)
    → s.l.prev e ≡ some p
    → fwd s e ≡ record (fwd_mid s e p) { l = turned (fwd_mid s e p).l e p }
unfolding fwd
fwd-steps s e p back = simp (back, fwd) refl

-- What `LRUFwd` comes to.
abbrev pub Turns : Lru → (e p : ℕ) → List ℕ → Type 0
Turns s e p xs = IsLru (record (fwd_mid s e p) { l = turned (fwd_mid s e p).l e p }) xs

-- both before the middle
pub left-Turns :
    (s : Lru) (front : List ℕ) (p e : ℕ) (cs : List ℕ) (m : ℕ) (zs : List ℕ)
    → IsSplit s (front ++ (p ∷ e ∷ cs)) m zs
    → length (front ++ (p ∷ e ∷ cs)) ≤ length zs
    → length zs ≤ length (front ++ (p ∷ e ∷ cs)) + 1
    → Turns s e p ((front ++ (e ∷ p ∷ cs)) ++ (m ∷ zs))
left-Turns s front p e cs m zs split le le' =
    let n : length (front ++ (p ∷ e ∷ cs)) ≡ length front + suc (suc (length cs)) =
      length-append front (p ∷ e ∷ cs) in
    let n' : length (front ++ (e ∷ p ∷ cs)) ≡ length front + suc (suc (length cs)) =
      length-append front (e ∷ p ∷ cs) in
    let at_m =
      AllIn-split (λ x. x ≢ m) front (p ∷ e ∷ cs)
        (apart s.l (front ++ (p ∷ e ∷ cs)) m zs split.holds).0 in
    let parts = AllIn-split (λ x. s.part x ≡ 0) front (p ∷ e ∷ cs) split.left_part in
    let not_e = other_mid s e m split.mid_is (λ same. at_m.1.1.0 (sym same)) in
    let not_p = other_mid s p m split.mid_is (λ same. at_m.1.0 (sym same)) in
    rw (not_e, not_p)
      (inr (
        front ++ (e ∷ p ∷ cs),
        m,
        zs,
        refl,
        record {
          holds = subst (Holds (turned s.l e p)) (sym (append_assoc front (e ∷ p ∷ cs) (m ∷ zs))) (
              turned-Holds s.l front p e (cs ++ (m ∷ zs))
                (subst (Holds s.l) (append_assoc front (p ∷ e ∷ cs) (m ∷ zs)) split.holds));
          mid_is = split.mid_is;
          before_is = omega (arith, split.before_is);
          behind_is = split.behind_is;
          left_part =
              AllIn-append (λ x. s.part x ≡ 0) front (e ∷ p ∷ cs) parts.0
                (parts.1.1.0, (parts.1.0, parts.1.1.1));
          mid_part = split.mid_part;
          right_part = split.right_part;
        },
        omega arith,
        omega arith,
      ))

-- both behind the middle
pub right-Turns :
    (s : Lru) (ys : List ℕ) (m : ℕ) (cs : List ℕ) (p e : ℕ) (bs : List ℕ)
    → IsSplit s ys m (cs ++ (p ∷ e ∷ bs))
    → length ys ≤ length (cs ++ (p ∷ e ∷ bs))
    → length (cs ++ (p ∷ e ∷ bs)) ≤ length ys + 1
    → Turns s e p (ys ++ (m ∷ (cs ++ (e ∷ p ∷ bs))))
right-Turns s ys m cs p e bs split le le' =
    let n : length (cs ++ (p ∷ e ∷ bs)) ≡ length cs + suc (suc (length bs)) =
      length-append cs (p ∷ e ∷ bs) in
    let n' : length (cs ++ (e ∷ p ∷ bs)) ≡ length cs + suc (suc (length bs)) =
      length-append cs (e ∷ p ∷ bs) in
    let at_m =
      AllIn-split (λ x. x ≢ m) cs (p ∷ e ∷ bs)
        (apart s.l ys m (cs ++ (p ∷ e ∷ bs)) split.holds).1 in
    let parts = AllIn-split (λ x. s.part x ≡ 1) cs (p ∷ e ∷ bs) split.right_part in
    let not_e = other_mid s e m split.mid_is (λ same. at_m.1.1.0 (sym same)) in
    let not_p = other_mid s p m split.mid_is (λ same. at_m.1.0 (sym same)) in
    rw (not_e, not_p)
      (inr (
        ys,
        m,
        cs ++ (e ∷ p ∷ bs),
        refl,
        record {
          holds = subst (Holds (turned s.l e p)) (append_assoc ys (m ∷ cs) (e ∷ p ∷ bs)) (
              turned-Holds s.l (ys ++ (m ∷ cs)) p e bs
                (subst (Holds s.l) (sym (append_assoc ys (m ∷ cs) (p ∷ e ∷ bs))) split.holds));
          mid_is = split.mid_is;
          before_is = split.before_is;
          behind_is = omega (arith, split.behind_is);
          left_part = split.left_part;
          mid_part = split.mid_part;
          right_part =
              AllIn-append (λ x. s.part x ≡ 1) cs (e ∷ p ∷ bs) parts.0
                (parts.1.1.0, (parts.1.0, parts.1.1.1));
        },
        omega arith,
        omega arith,
      ))

-- the middle element
pub mid-Turns :
    (s : Lru) (front : List ℕ) (p e : ℕ) (zs : List ℕ)
    → IsSplit s (front ++ (p ∷ [])) e zs
    → length (front ++ (p ∷ [])) ≤ length zs
    → length zs ≤ length (front ++ (p ∷ [])) + 1
    → Turns s e p (front ++ (e ∷ p ∷ zs))
mid-Turns s front p e zs split le le' =
    let n : length (front ++ (p ∷ [])) ≡ length front + 1 = length-append front (p ∷ []) in
    let n' : length (front ++ (e ∷ [])) ≡ length front + 1 = length-append front (e ∷ []) in
    let holds = subst (Holds s.l) (append_assoc front (p ∷ []) (e ∷ zs)) split.holds in
    let at_e = apart s.l (front ++ (p ∷ [])) e zs split.holds in
    let at_p = apart s.l front p (e ∷ zs) holds in
    let fresh = AllIn-split (λ x. x ≢ e) front (p ∷ []) at_e.0 in
    let left = AllIn-split (λ x. s.part x ≡ 0) front (p ∷ []) split.left_part in
    let assoc : (front ++ (e ∷ [])) ++ (p ∷ zs) ≡ front ++ (e ∷ p ∷ zs) =
      append_assoc front (e ∷ []) (p ∷ zs) in
    rw (own_mid s e split.mid_is) (
      inr (
        front ++ (e ∷ []),
        p,
        zs,
        sym assoc,
        record {
          holds = subst (Holds (turned s.l e p)) (sym assoc) (turned-Holds s.l front p e zs holds);
          mid_is = refl;
          before_is = omega (arith, split.before_is);
          behind_is = split.behind_is;
          left_part =
              part-all (put_part s.part e 0) p 2 0 (front ++ (e ∷ []))
                (AllIn-append (λ x. x ≢ p) front (e ∷ []) at_p.0 (at_p.1.0, tt))
                (AllIn-append (λ x. put_part s.part e 0 x ≡ 0) front (e ∷ [])
                  (part-all s.part e 0 0 front fresh.0 left.0) (part_self s.part e 0, tt));
          mid_part = part_self (put_part s.part e 0) p 2;
          right_part =
              part-all (put_part s.part e 0) p 2 1 zs at_p.1.1
                (part-all s.part e 0 1 zs at_e.1 split.right_part);
        },
        omega arith,
        omega arith,
      ))

-- the element behind the middle one
pub next-Turns :
    (s : Lru) (ys : List ℕ) (p e : ℕ) (bs : List ℕ)
    → IsSplit s ys p (e ∷ bs)
    → length ys ≤ length bs + 1
    → length bs ≤ length ys
    → Turns s e p (ys ++ (e ∷ p ∷ bs))
next-Turns s ys p e bs split le le' =
    let at_p = apart s.l ys p (e ∷ bs) split.holds in
    let at_e =
      apart s.l (ys ++ (p ∷ [])) e bs
        (subst (Holds s.l) (sym (append_assoc ys (p ∷ []) (e ∷ bs))) split.holds) in
    let fresh = AllIn-split (λ x. x ≢ e) ys (p ∷ []) at_e.0 in
    let not_e = other_mid s e p split.mid_is (λ same. at_p.1.0 (sym same)) in
    rw (not_e, own_mid s p split.mid_is)
      (inr (
        ys,
        e,
        p ∷ bs,
        refl,
        record {
          holds = turned-Holds s.l ys p e bs split.holds;
          mid_is = refl;
          before_is = split.before_is;
          behind_is = split.behind_is;
          left_part =
              part-all (put_part s.part p 1) e 2 0 ys fresh.0
                (part-all s.part p 1 0 ys at_p.0 split.left_part);
          mid_part = part_self (put_part s.part p 1) e 2;
          right_part = (
            part_other (put_part s.part p 1) e 2 p fresh.1.0 ∙ part_self s.part p 1,
            part-all (put_part s.part p 1) e 2 1 bs at_e.1
                (part-all s.part p 1 1 bs at_p.1.1 split.right_part.1),
          );
        },
        omega arith,
        omega arith,
      ))
