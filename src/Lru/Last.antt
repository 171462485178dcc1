-- ===== src/Lru/Last.antt =====
-- `LRURemoveLast` keeps the invariant.
use mathlib.Core.List.{append_assoc}
use dvb_vulture.Prelude.{
  ℕ, suc, ◌+◌, ◌≤◌, ◌<◌, ◌≡◌, refl, ap, sym, subst, ◌∙◌, List, [], ◌∷◌, ◌++◌, Option, none, some,
  ◌>>=◌, ltb, ltb→lt, ltb→le, if◌then◌else◌, length, length-append, AllIn-split, append_nil, arith,
  ◌⊎◌, inl, inr, Bool-cases,
}
use dvb_vulture.DList.{Store}
use dvb_vulture.DList
use dvb_vulture.DList.Seg.{last-append}
use dvb_vulture.DList.Join.{Holds}
use dvb_vulture.Lru.{Lru, remove_last, emptied, lru_l, count_last}
use dvb_vulture.Lru.Split.{IsSplit}
use dvb_vulture.Lru.Balance.{IsLru, snoc-cases, left-IsLru}
use dvb_vulture.Lru.Keep.{first-some}
use dvb_vulture.Lru.Steps.{removed}

-- What `LRURemoveLast` comes to, on an empty list and on another.
abbrev pub TakesLast : Lru → List ℕ → Type 0
TakesLast s xs =
    ((xs ≡ []) × (remove_last s ≡ some (none, s)))
    ⊎ ((front : List ℕ) × (e : ℕ) × (s' : Lru) × (xs ≡ front ++ (e ∷ []))
        × (remove_last s ≡ some (some e, s'))
        × IsLru s' front)

abbrev counted : Lru → ℕ → Option Lru
counted s e = elim (DList.remove s.l e).first [
  | none ↦ some (emptied (record s { l = DList.remove s.l e }))
  | some f' ↦ count_last (record s { l = DList.remove s.l e })
]

last_steps :
    (s : Lru) (f e : ℕ) (s' : Lru)
    → s.l.first ≡ some f
    → s.l.last ≡ some e
    → counted s e ≡ some s'
    → remove_last s ≡ some (some e, s')
unfolding remove_last
last_steps s f e s' first last count =
    simp (first, remove_last) (simp last (ap (λ r. r >>= (λ s''. some (some e, s''))) count))

counted_none :
    (s : Lru) (e : ℕ)
    → (DList.remove s.l e).first ≡ none
    → counted s e ≡ some (emptied (record s { l = DList.remove s.l e }))
counted_none s e first = simp (first, counted) refl

counted_one :
    (s : Lru) (e f n : ℕ) (s' : Lru)
    → (DList.remove s.l e).first ≡ some f
    → s.behind ≡ suc n
    → (if ltb n s.before
        then lru_l (record s { l = DList.remove s.l e; behind = n })
        else some (record s { l = DList.remove s.l e; behind = n }))
      ≡ some s'
    → counted s e ≡ some s'
counted_one s e f n s' first count turn = simp (first, counted) (rw (count, count_last) turn)

last-only : (s : Lru) (m : ℕ) → IsSplit s [] m [] → TakesLast s (m ∷ [])
last-only s m split =
    let holds = removed s.l [] m [] split.holds in
    inr (
      [],
      m,
      emptied (record s { l = DList.remove s.l m }),
      refl,
      last_steps s m m (emptied (record s { l = DList.remove s.l m })) split.holds.0 split.holds.1
          (counted_none s m holds.0),
      inl ((holds, refl, refl, refl), refl),
    )

last-behind :
    (s : Lru) (ys : List ℕ) (m : ℕ) (zs : List ℕ) (e : ℕ)
    → IsSplit s ys m (zs ++ (e ∷ []))
    → length ys ≤ length zs + 1
    → length zs ≤ length ys
    → (s' : Lru) × (remove_last s ≡ some (some e, s')) × IsLru s' (ys ++ (m ∷ zs))
last-behind s ys m zs e split le le' =
    let n : length (zs ++ (e ∷ [])) ≡ length zs + 1 = length-append zs (e ∷ []) in
    let assoc : (ys ++ (m ∷ zs)) ++ (e ∷ []) ≡ ys ++ (m ∷ (zs ++ (e ∷ []))) =
      append_assoc ys (m ∷ zs) (e ∷ []) in
    let whole : Holds s.l ((ys ++ (m ∷ zs)) ++ (e ∷ [])) =
      subst (Holds s.l) (sym assoc) split.holds in
    let last : s.l.last ≡ some e = whole.1 ∙ last-append none (ys ++ (m ∷ zs)) (e ∷ []) in
    let holds : Holds (DList.remove s.l e) (ys ++ (m ∷ zs)) =
      subst (Holds (DList.remove s.l e)) (append_nil (ys ++ (m ∷ zs)))
        (removed s.l (ys ++ (m ∷ zs)) e [] whole) in
    let first = first-some s.l ys m (zs ++ (e ∷ [])) split.holds in
    let first' = first-some (DList.remove s.l e) ys m zs holds in
    let b : s.before ≡ length ys = split.before_is in
    let c : s.behind ≡ suc (length zs) = omega (arith, split.behind_is) in
    let s1 : Lru = record s { l = DList.remove s.l e; behind = length zs } in
    let split1 : IsSplit s1 ys m zs = record {
      holds = holds;
      mid_is = split.mid_is;
      before_is = split.before_is;
      behind_is = refl;
      left_part = split.left_part;
      mid_part = split.mid_part;
      right_part = (AllIn-split (λ x. s.part x ≡ 1) zs (e ∷ []) split.right_part).0;
    } in
    elim (Bool-cases (ltb (length zs) s.before)) [
      | inl less ↦
          let lt : length zs < s.before = ltb→lt (length zs) s.before less in
          let moved = left-IsLru s1 ys m zs split1 (omega arith) in
          (
            moved.0,
            last_steps s first.0 e moved.0 first.1 last
                (counted_one s e first'.0 (length zs) moved.0 first'.1 c (rw less moved.1)),
            moved.2,
          )
      | inr not_less ↦
          let ge : s.before ≤ length zs = ltb→le (length zs) s.before not_less in
          (
            s1,
            last_steps s first.0 e s1 first.1 last
                (counted_one s e first'.0 (length zs) s1 first'.1 c (rw not_less refl)),
            inr (ys, m, zs, refl, split1, omega arith, omega arith),
          )
    ]

alone :
    (s : Lru) (ys : List ℕ) (m : ℕ) (zs xs : List ℕ)
    → xs ≡ ys ++ (m ∷ zs)
    → IsSplit s ys m zs
    → length ys ≤ 0
    → zs ≡ []
    → TakesLast s xs
alone s [] m zs xs at split le e =
    subst (TakesLast s) (sym (at ∙ ap (λ t. m ∷ t) e))
      (last-only s m (subst (IsSplit s [] m) e split))
alone s (y ∷ ys) m zs xs at split le e = absurd (omega arith)

-- `LRURemoveLast` on a list that has the invariant returns NULL where the list is empty, and else
-- the last element, and keeps the invariant: the others are the list.
pub remove_last-IsLru : (s : Lru) (xs : List ℕ) → IsLru s xs → TakesLast s xs
unfolding remove_last
remove_last-IsLru s xs (inl (empty, is_nil)) = inl (is_nil, simp (empty.0.0, remove_last) refl)
remove_last-IsLru s xs (inr (ys, m, zs, at, split, le, le')) = elim (snoc-cases zs) [
  | inl e ↦
      let none_behind : length zs ≡ 0 = ap length e in alone s ys m zs xs at split (omega arith) e
  | inr (rest, e, at') ↦
      let n : length zs ≡ length rest + 1 = ap length at' ∙ length-append rest (e ∷ []) in
      let taken =
        last-behind s ys m rest e (subst (IsSplit s ys m) at' split) (omega arith) (omega arith) in
      inr (
        ys ++ (m ∷ rest),
        e,
        taken.0,
        at ∙ ap (λ t. ys ++ (m ∷ t)) at' ∙ sym (append_assoc ys (m ∷ rest) (e ∷ [])),
        taken.1,
        taken.2,
      )
]
