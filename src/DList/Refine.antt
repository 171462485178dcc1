-- ===== src/DList/Refine.antt =====
-- Any calls on a list do to the memory what they do to the sequence of the elements.
use dvb_vulture.Prelude.{
  append_nil, ℕ, ◌≡◌, ◌≢◌, sym, subst, subst₂, List, [], ◌∷◌, ◌++◌, none, some, AllIn-split,
}
use mathlib.Core.List.{append_assoc}
use dvb_vulture.DList.{Store, insert_first, insert_last, insert_after, insert_before, remove}
use dvb_vulture.DList.Seg.{last_or, Fresh, Apart, last-append, Seg-split}
use dvb_vulture.DList.Join.{Holds, Joins, Joins-Holds, Leaves-Holds}
use dvb_vulture.DList.Links.{
  head-Fresh, last-Fresh, insert_first-Joins, insert_last-Joins, insert_after-Joins,
  insert_before-Joins, remove-Leaves,
}

-- a call of one of the functions that change a list
pub data Call : Type 0 where
  insert_first_call : (e : ℕ) → Call
  insert_last_call : (e : ℕ) → Call
  insert_after_call : (a b : ℕ) → Call
  insert_before_call : (a b : ℕ) → Call
  remove_call : (e : ℕ) → Call

abbrev pub run : Call → Store → Store
run (insert_first_call e) s = insert_first s e
run (insert_last_call e) s = insert_last s e
run (insert_after_call a b) s = insert_after s a b
run (insert_before_call a b) s = insert_before s a b
run (remove_call e) s = remove s e

abbrev pub run_all : List Call → Store → Store
run_all [] s = s
run_all (c ∷ calls) s = run_all calls (run c s)

-- What a call does to the sequence: an element that is put in must not be there, one beside which
-- it is put, or that is taken out, must be.
abbrev pub Does : Call → List ℕ → List ℕ → Type 0
Does (insert_first_call e) xs xs' = Fresh e xs × (xs' ≡ e ∷ xs)
Does (insert_last_call e) xs xs' = Fresh e xs × (xs' ≡ xs ++ (e ∷ []))
Does (insert_after_call a b) xs xs' =
    Fresh b xs
    × ((ys : List ℕ) × (zs : List ℕ) × (xs ≡ ys ++ (a ∷ zs)) × (xs' ≡ ys ++ (a ∷ b ∷ zs)))
Does (insert_before_call a b) xs xs' =
    Fresh a xs
    × ((ys : List ℕ) × (zs : List ℕ) × (xs ≡ ys ++ (b ∷ zs)) × (xs' ≡ ys ++ (a ∷ b ∷ zs)))
Does (remove_call e) xs xs' =
    (ys : List ℕ) × (zs : List ℕ) × (xs ≡ ys ++ (e ∷ zs)) × (xs' ≡ ys ++ zs)

abbrev pub DoAll : List Call → List ℕ → List ℕ → Type 0
DoAll [] xs xs' = xs' ≡ xs
DoAll (c ∷ calls) xs xs' = (mid : List ℕ) × Does c xs mid × DoAll calls mid xs'

pub insert_after-Holds :
    (s : Store) (a b : ℕ) (ys zs : List ℕ)
    → Holds s (ys ++ (a ∷ zs))
    → Fresh b (ys ++ (a ∷ zs))
    → Holds (insert_after s a b) (ys ++ (a ∷ b ∷ zs))
insert_after-Holds s a b ys zs holds fresh =
    let from = append_assoc ys (a ∷ []) zs in
    let split = Seg-split s.next s.prev none none ys (a ∷ zs) holds.2 in
    let other = (AllIn-split (λ x. x ≢ b) ys (a ∷ zs) fresh).1 in
    let last : last_or none (ys ++ (a ∷ [])) ≡ some a = last-append none ys (a ∷ []) in
    subst (Holds (insert_after s a b)) (append_assoc ys (a ∷ []) (b ∷ zs)) (
      Joins-Holds s (insert_after s a b) (ys ++ (a ∷ [])) zs b (subst (Holds s) (sym from) holds)
        (subst (Fresh b) (sym from) fresh)
        (subst₂ (λ p q. Joins s (insert_after s a b) p q b) (sym last) split.1.1
          (insert_after-Joins s a b (λ same. other.0 (sym same))
            (subst (λ q. Apart q (b ∷ [])) (sym split.1.1) (head-Fresh b zs other.1)))))

pub insert_before-Holds :
    (s : Store) (a b : ℕ) (ys zs : List ℕ)
    → Holds s (ys ++ (b ∷ zs))
    → Fresh a (ys ++ (b ∷ zs))
    → Holds (insert_before s a b) (ys ++ (a ∷ b ∷ zs))
insert_before-Holds s a b ys zs holds fresh =
    let split = Seg-split s.next s.prev none none ys (b ∷ zs) holds.2 in
    let apart = AllIn-split (λ x. x ≢ a) ys (b ∷ zs) fresh in
    Joins-Holds s (insert_before s a b) ys (b ∷ zs) a holds fresh (
      subst (λ p. Joins s (insert_before s a b) p (some b) a) split.1.0
        (insert_before-Joins s a b (λ same. apart.1.0 (sym same))
          (subst (λ q. Apart q (a ∷ [])) (sym split.1.0) (last-Fresh a ys apart.0))))

pub run-Holds :
    (c : Call) (s : Store) (xs xs' : List ℕ) → Holds s xs → Does c xs xs' → Holds (run c s) xs'
run-Holds (insert_first_call e) s xs xs' holds does =
    subst (Holds (insert_first s e)) (sym does.1) (
      Joins-Holds s (insert_first s e) [] xs e holds does.0 (
        subst (λ q. Joins s (insert_first s e) none q e) holds.0
          (insert_first-Joins s e
            (subst (λ q. Apart q (e ∷ [])) (sym holds.0) (head-Fresh e xs does.0)))))
run-Holds (insert_last_call e) s xs xs' holds does =
    let all : xs ++ [] ≡ xs = append_nil xs in
    subst (Holds (insert_last s e)) (sym does.1) (
      Joins-Holds s (insert_last s e) xs [] e (subst (Holds s) (sym all) holds)
        (subst (Fresh e) (sym all) does.0)
        (subst (λ p. Joins s (insert_last s e) p none e) holds.1
          (insert_last-Joins s e
            (subst (λ q. Apart q (e ∷ [])) (sym holds.1) (last-Fresh e xs does.0)))))
run-Holds (insert_after_call a b) s xs xs' holds (fresh, (ys, zs, from, to)) =
    subst (Holds (insert_after s a b)) (sym to)
      (insert_after-Holds s a b ys zs (subst (Holds s) from holds) (subst (Fresh b) from fresh))
run-Holds (insert_before_call a b) s xs xs' holds (fresh, (ys, zs, from, to)) =
    subst (Holds (insert_before s a b)) (sym to)
      (insert_before-Holds s a b ys zs (subst (Holds s) from holds) (subst (Fresh a) from fresh))
run-Holds (remove_call e) s xs xs' holds (ys, zs, from, to) =
    subst (Holds (remove s e)) (sym to)
      (Leaves-Holds s (remove s e) ys zs e (subst (Holds s) from holds) (remove-Leaves s e))

-- Any sequence of calls on a list in memory, none of which puts in an element that is there or names
-- one that is not, leaves in memory the list of the elements that it makes of the sequence: `first`
-- and `last` are its ends, and the links of each element are its neighbours, both ways.
pub run_all-Holds :
    (calls : List Call) (s : Store) (xs xs' : List ℕ)
    → Holds s xs
    → DoAll calls xs xs'
    → Holds (run_all calls s) xs'
run_all-Holds [] s xs xs' holds does = subst (Holds s) (sym does) holds
run_all-Holds (c ∷ calls) s xs xs' holds (mid, does, rest) =
    run_all-Holds calls (run c s) mid xs' (run-Holds c s xs mid holds does) rest
