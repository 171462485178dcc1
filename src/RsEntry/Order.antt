-- ===== src/RsEntry/Order.antt =====
-- The order of the schedule.
use dvb_vulture.Prelude.{
  ℕ, ◌≡◌, ◌≤◌, refl, ap, sym, subst, ltb→le, ◌∙◌, List, [], ◌∷◌, ◌++◌, Bool, true, false, ltb,
  arith, inl, inr, Bool-cases,
}
use dvb_vulture.Prelude.Sign.{Sign, less, same, more, flip}
use dvb_vulture.RsEntry.{
  RsEntry, Int32, pos, negsuc, compare_key, compare_id, or_else, rs_entry_cmp, not_less,
  rs_insert_entry,
}

compare_key-flip : (a b : ℕ) → compare_key b a ≡ flip (compare_key a b)
unfolding compare_key
compare_key-flip a b = ground arith

compare_id-flip : (a b : Int32) → compare_id b a ≡ flip (compare_id a b)
unfolding compare_id
compare_id-flip (pos a) (pos b) = compare_key-flip a b
compare_id-flip (pos a) (negsuc b) = refl
compare_id-flip (negsuc a) (pos b) = refl
compare_id-flip (negsuc a) (negsuc b) = compare_key-flip b a

or_else-flip : (a b a' b' : Sign) → a' ≡ flip a → b' ≡ flip b → or_else a' b' ≡ flip (or_else a b)
unfolding or_else
or_else-flip less b a' b' e f = ap (λ s. or_else s b') e
or_else-flip same b a' b' e f = ap (λ s. or_else s b') e ∙ f
or_else-flip more b a' b' e f = ap (λ s. or_else s b') e

rs_entry_cmp-flip : (x y : RsEntry) → rs_entry_cmp y x ≡ flip (rs_entry_cmp x y)
unfolding rs_entry_cmp
rs_entry_cmp-flip x y =
    or_else-flip _ _ _ _
      (or_else-flip _ _ _ _
        (or_else-flip _ _ _ _
          (or_else-flip _ _ _ _
            (or_else-flip _ _ _ _ (compare_key-flip y.start_time x.start_time)
              (compare_key-flip x.position y.position))
            (compare_key-flip x.freq y.freq))
          (compare_key-flip x.pol y.pol))
        (compare_key-flip x.pnr y.pnr))
      (compare_id-flip x.evt_id y.evt_id)

-- `x` may stand before `y`.
abbrev pub goes_before : RsEntry → RsEntry → Bool
goes_before x y = not_less (rs_entry_cmp x y)

by_flip : (s : Sign) → not_less s ≡ false → not_less (flip s) ≡ true
unfolding not_less
by_flip less h = refl
by_flip same h = refl
by_flip more h = absurd (ground (arith, h))

total : (x y : RsEntry) → goes_before x y ≡ false → goes_before y x ≡ true
total x y h = ap not_less (rs_entry_cmp-flip x y) ∙ by_flip (rs_entry_cmp x y) h

-- each entry may stand before the next one
abbrev pub IsSorted : List RsEntry → Type 0
IsSorted [] = Unit {0}
IsSorted (x ∷ []) = Unit {0}
IsSorted (x ∷ y ∷ sched) = (goes_before x y ≡ true) × IsSorted (y ∷ sched)

insert_nil : (e : RsEntry) → rs_insert_entry e [] ≡ e ∷ []
unfolding rs_insert_entry
insert_nil e = refl

tail-IsSorted : (x : RsEntry) (sched : List RsEntry) → IsSorted (x ∷ sched) → IsSorted sched
tail-IsSorted x [] s = tt
tail-IsSorted x (y ∷ sched) s = s.1

insert_later :
    (e y : RsEntry) (sched : List RsEntry)
    → goes_before e y ≡ false
    → rs_insert_entry e (y ∷ sched) ≡ y ∷ rs_insert_entry e sched
unfolding rs_insert_entry
insert_later e y sched later = rw later refl

insert_first :
    (e y : RsEntry) (sched : List RsEntry)
    → goes_before e y ≡ true
    → rs_insert_entry e (y ∷ sched) ≡ e ∷ y ∷ sched
unfolding rs_insert_entry
insert_first e y sched first = rw first refl

insert_under :
    (e x : RsEntry) (sched : List RsEntry)
    → goes_before x e ≡ true
    → IsSorted (x ∷ sched)
    → IsSorted (rs_insert_entry e sched)
    → IsSorted (x ∷ rs_insert_entry e sched)
unfolding rs_insert_entry
insert_under e x [] h s r = (h, tt)
insert_under e x (y ∷ sched) h s r = elim (Bool-cases (goes_before e y)) [
  | inl first ↦ subst (λ t. IsSorted (x ∷ t)) (sym (insert_first e y sched first)) (h, (first, s.1))
  | inr later ↦
      let later' = insert_later e y sched later in
      subst (λ t. IsSorted (x ∷ t)) (sym later') (s.0, subst IsSorted later' r)
]

insert-IsSorted :
    (e : RsEntry) (sched : List RsEntry) → IsSorted sched → IsSorted (rs_insert_entry e sched)
insert-IsSorted e [] s = nothing
  where
    nothing : IsSorted (rs_insert_entry e [])
    nothing = subst IsSorted (sym (insert_nil e)) tt
insert-IsSorted e (x ∷ sched) s = elim (Bool-cases (goes_before e x)) [
  | inl first ↦ subst IsSorted (sym (insert_first e x sched first)) (first, s)
  | inr later ↦ subst IsSorted (sym (insert_later e x sched later)) (
      insert_under e x sched (total e x later) s
        (insert-IsSorted e sched (tail-IsSorted x sched s)))
]

-- where the entry goes
insert_splits :
    (e : RsEntry) (sched : List RsEntry)
    → (front : List RsEntry) × (rest : List RsEntry) × (sched ≡ front ++ rest)
      × (rs_insert_entry e sched ≡ front ++ (e ∷ rest))
insert_splits e [] = ([], [], refl, insert_nil e)
insert_splits e (x ∷ sched) = elim (Bool-cases (goes_before e x)) [
  | inl first ↦ ([], x ∷ sched, refl, insert_first e x sched first)
  | inr later ↦
      let (front, rest, before, after) = insert_splits e sched in
      (
        x ∷ front,
        rest,
        ap (λ t. x ∷ t) before,
        insert_later e x sched later ∙ ap (λ t. x ∷ t) after,
      )
]

pub goes_before-start : (x y : RsEntry) → goes_before x y ≡ true → x.start_time ≤ y.start_time
unfolding rs_entry_cmp or_else not_less compare_key
goes_before-start x y h = elim (Bool-cases (ltb y.start_time x.start_time)) [
  | inl after ↦ absurd (ground (arith, after, h))
  | inr not_after ↦ ltb→le y.start_time x.start_time not_after
]

-- `rsInsertEntry` puts a new entry between the entries of a schedule, which stay in their order,
-- and keeps a schedule sorted: each entry compares as not less than the next one. Of two entries
-- that are sorted so the first does not start after the second.
pub rs_insert_entry-IsSorted :
    (e : RsEntry) (sched : List RsEntry)
    → IsSorted sched
    → IsSorted (rs_insert_entry e sched)
      × ((front : List RsEntry) × (rest : List RsEntry) × (sched ≡ front ++ rest)
          × (rs_insert_entry e sched ≡ front ++ (e ∷ rest)))
      × ((x y : RsEntry) → IsSorted (x ∷ y ∷ []) → x.start_time ≤ y.start_time)
rs_insert_entry-IsSorted e sched s =
    (insert-IsSorted e sched s, insert_splits e sched, λ x y p. goes_before-start x y p.0)
