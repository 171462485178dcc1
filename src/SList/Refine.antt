-- ===== src/SList/Refine.antt =====
-- Any calls on a singly linked list do to the memory what they do to the sequence of the elements:
-- they do to the links what those on a doubly linked list do to the links forward.
use dvb_vulture.Prelude.{
  ℕ, ◌≡◌, ◌≢◌, refl, ap, sym, subst, ◌∙◌, List, [], ◌∷◌, ◌++◌, Option, none, some,
}
use mathlib.Core.List.{append_assoc}
use dvb_vulture.DList.{Store, put, put_at, end_or}
use dvb_vulture.DList
use dvb_vulture.DList.Seg.{Fresh, put_self, put_other, Seg-split, NoDup-split}
use dvb_vulture.DList.Join.{Holds, Leaves-Holds}
use dvb_vulture.DList.Links.{remove-Leaves}
use dvb_vulture.DList.Refine.{run-Holds, insert_after-Holds, insert_first_call, insert_last_call}
use dvb_vulture.SList.{SList, insert_first, insert_last, insert_after, remove_first, remove_next}

-- the memory with links back
abbrev pub with_prev : SList → (ℕ → Option ℕ) → Store
with_prev s prev = record { first = s.first; last = s.last; next = s.next; prev = prev }

-- With some links back, the memory holds the doubly linked list of these elements.
abbrev pub HoldsForward : SList → List ℕ → Type 0
HoldsForward s xs = (prev : ℕ → Option ℕ) × Holds (with_prev s prev) xs

insert_first-HoldsForward :
    (s : SList) (e : ℕ) (xs : List ℕ)
    → HoldsForward s xs
    → Fresh e xs
    → HoldsForward (insert_first s e) (e ∷ xs)
unfolding insert_first DList.insert_first
insert_first-HoldsForward s e xs (prev, holds) fresh =
    let d = with_prev s prev in
    (
      (DList.insert_first d e).prev,
      run-Holds (insert_first_call e) d xs (e ∷ xs) holds (fresh, refl),
    )

insert_last-HoldsForward :
    (s : SList) (e : ℕ) (xs : List ℕ)
    → HoldsForward s xs
    → Fresh e xs
    → HoldsForward (insert_last s e) (xs ++ (e ∷ []))
unfolding insert_last DList.insert_last
insert_last-HoldsForward s e xs (prev, holds) fresh =
    let d = with_prev s prev in
    (
      (DList.insert_last d e).prev,
      run-Holds (insert_last_call e) d xs (xs ++ (e ∷ [])) holds (fresh, refl),
    )

insert_after-HoldsForward :
    (s : SList) (a b : ℕ) (ys zs : List ℕ)
    → HoldsForward s (ys ++ (a ∷ zs))
    → Fresh b (ys ++ (a ∷ zs))
    → HoldsForward (insert_after s (some a) b) (ys ++ (a ∷ b ∷ zs))
unfolding insert_after DList.insert_after
insert_after-HoldsForward s a b ys zs (prev, holds) fresh =
    let d = with_prev s prev in
    ((DList.insert_after d a b).prev, insert_after-Holds d a b ys zs holds fresh)

-- what `dlistRemove` leaves, from the neighbours of the element
abbrev without : Store → (e : ℕ) → (p q : Option ℕ) → Store
without s e p q = record {
  first = end_or p s.first q;
  last = end_or q s.last p;
  next = put (put_at s.next p q) e none;
  prev = put (put_at s.prev q p) e none;
}

without-Holds :
    (s : Store) (ys : List ℕ) (e : ℕ) (zs : List ℕ) (p : Option ℕ)
    → Holds s (ys ++ (e ∷ zs))
    → s.prev e ≡ p
    → Holds (without s e p (s.next e)) (ys ++ zs)
unfolding DList.remove
without-Holds s ys e zs p holds same =
    subst (λ q. Holds (without s e q (s.next e)) (ys ++ zs)) same
      (Leaves-Holds s (DList.remove s e) ys zs e holds (remove-Leaves s e))

remove_first-HoldsForward :
    (s : SList) (e : ℕ) (xs : List ℕ)
    → HoldsForward s (e ∷ xs)
    → ((remove_first s).0 ≡ some e) × HoldsForward (remove_first s).1 xs
unfolding remove_first
remove_first-HoldsForward s e xs (prev, holds) =
    let d = with_prev s prev in
    let taken : remove_first s ≡ (
      some e,
      record { first = s.next e; last = end_or (s.next e) s.last none; next = put s.next e none },
    ) =
      simp (holds.0, remove_first) refl in
    subst (λ r. (r.0 ≡ some e) × HoldsForward r.1 xs) (sym taken)
      (refl, ((without d e none (s.next e)).prev, without-Holds d [] e xs none holds holds.2.0))

remove_next-HoldsForward :
    (s : SList) (a e : ℕ) (ys zs : List ℕ)
    → HoldsForward s (ys ++ (a ∷ e ∷ zs))
    → ((remove_next s (some a)).0 ≡ some e)
      × HoldsForward (remove_next s (some a)).1 (ys ++ (a ∷ zs))
unfolding remove_next
remove_next-HoldsForward s a e ys zs (prev, holds) =
    let d = with_prev s prev in
    let split = Seg-split s.next prev none none ys (a ∷ e ∷ zs) holds.2 in
    let apart : e ≢ a = (NoDup-split ys (a ∷ e ∷ zs) holds.3).1.0.0 in
    let next' : ℕ → Option ℕ = put (put s.next a (s.next e)) e none in
    let own : s.next e ≡ next' a = sym (
      put_other (put s.next a (s.next e)) e a none (λ same. apart (sym same))
      ∙ put_self s.next a (s.next e)) in
    let left : Holds (without d e (some a) (s.next e)) (ys ++ (a ∷ zs)) =
      subst (Holds (without d e (some a) (s.next e))) (append_assoc ys (a ∷ []) zs) (
        without-Holds d (ys ++ (a ∷ [])) e zs (some a)
          (subst (Holds d) (sym (append_assoc ys (a ∷ []) (e ∷ zs))) holds) split.1.2.0) in
    let same_last : Holds
        (record {
          first = s.first;
          last = end_or (next' a) s.last (some a);
          next = next';
          prev = put (put_at prev (s.next e) (some a)) e none;
        })
        (ys ++ (a ∷ zs)) =
      subst
        (λ q.
          Holds
            (record {
              first = s.first;
              last = end_or q s.last (some a);
              next = next';
              prev = put (put_at prev (s.next e) (some a)) e none;
            })
            (ys ++ (a ∷ zs)))
        own left in
    let taken : remove_next s (some a)
        ≡ (some e, record s { last = end_or (next' a) s.last (some a); next = next' }) =
      simp (split.1.1, remove_next) refl in
    subst (λ r. (r.0 ≡ some e) × HoldsForward r.1 (ys ++ (a ∷ zs))) (sym taken)
      (refl, (put (put_at prev (s.next e) (some a)) e none, same_last))

-- With NULL for the element, `slistInsertAfter` is `slistInsertFirst`.
insert_after-insert_first : (s : SList) (b : ℕ) → insert_after s none b ≡ insert_first s b
unfolding insert_after insert_first
insert_after-insert_first s b =
    ap
      (λ q. record { first = some b; last = end_or q s.last (some b); next = put s.next b s.first })
      (put_self s.next b s.first)
