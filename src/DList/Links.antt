-- ===== src/DList/Links.antt =====
-- What each function of the list does to the links of an element and its neighbours.
use dvb_vulture.Prelude.{
  ℕ, ◌≡◌, ◌≢◌, refl, ap, sym, ◌∙◌, List, [], ◌∷◌, Option, none, some, ◌==◌, AllIn-map, Bool-cases,
  inl, inr,
}
use dvb_vulture.DList.{
  Store, put, put_at, end_or, insert_first, insert_last, insert_after, insert_before, remove,
}
use dvb_vulture.DList.Seg.{
  head_or, last_or, Fresh, Apart, head-all, last-all, put_self, put_other, put_at_other,
}
use dvb_vulture.DList.Join.{Joins, Leaves}

-- A write to another element may come first.
put_at-put :
    (links : ℕ → Option ℕ) (e x : ℕ) (v q p : Option ℕ)
    → x ≢ e
    → put_at (put links e v) q p x ≡ put_at links q p x
put_at-put links e x v none p ne = put_other links e x v ne
put_at-put links e x v (some a) p ne = elim (Bool-cases (x == a)) [
  | inl eq ↦ rw eq refl
  | inr other ↦ rw other (put_other links e x v ne)
]

-- A write elsewhere keeps what was written to the element.
put_at-put_self :
    (links : ℕ → Option ℕ) (e : ℕ) (v q p : Option ℕ)
    → Apart q (e ∷ [])
    → put_at (put links e v) q p e ≡ v
put_at-put_self links e v q p apart = put_at_other (put links e v) q e p apart ∙ put_self links e v

-- The ends of a list are not an element that is not in it.
pub head-Fresh : (e : ℕ) (xs : List ℕ) → Fresh e xs → Apart (head_or xs none) (e ∷ [])
head-Fresh e xs fresh =
    head-all (λ q. Apart q (e ∷ [])) xs none tt
      (AllIn-map (λ x. x ≢ e) (λ x. Fresh x (e ∷ [])) (λ x ne. ((λ same. ne (sym same)), tt)) xs
        fresh)

pub last-Fresh : (e : ℕ) (xs : List ℕ) → Fresh e xs → Apart (last_or none xs) (e ∷ [])
last-Fresh e xs fresh =
    last-all (λ q. Apart q (e ∷ [])) none xs tt
      (AllIn-map (λ x. x ≢ e) (λ x. Fresh x (e ∷ [])) (λ x ne. ((λ same. ne (sym same)), tt)) xs
        fresh)

pub insert_first-Joins :
    (s : Store) (e : ℕ) → Apart s.first (e ∷ []) → Joins s (insert_first s e) none s.first e
unfolding insert_first
insert_first-Joins s e apart = record {
  first_end = refl;
  last_end = refl;
  next_own = put_self s.next e s.first;
  prev_own = put_at-put_self s.prev e none s.first (some e) apart;
  next_other = λ x ne. put_other s.next e x s.first ne;
  prev_other = λ x ne. put_at-put s.prev e x none s.first (some e) ne;
}

pub insert_last-Joins :
    (s : Store) (e : ℕ) → Apart s.last (e ∷ []) → Joins s (insert_last s e) s.last none e
unfolding insert_last
insert_last-Joins s e apart = record {
  first_end = refl;
  last_end = refl;
  next_own = put_at-put_self s.next e none s.last (some e) apart;
  prev_own = put_self s.prev e s.last;
  next_other = λ x ne. put_at-put s.next e x none s.last (some e) ne;
  prev_other = λ x ne. put_other s.prev e x s.last ne;
}

pub insert_after-Joins :
    (s : Store) (a b : ℕ)
    → b ≢ a
    → Apart (s.next a) (b ∷ [])
    → Joins s (insert_after s a b) (some a) (s.next a) b
unfolding insert_after
insert_after-Joins s a b ne apart =
    let next' : ℕ → Option ℕ = put (put s.next b (s.next a)) a (some b) in
    let own : next' b ≡ s.next a =
      put_other (put s.next b (s.next a)) a b (some b) ne ∙ put_self s.next b (s.next a) in
    record {
      first_end = refl;
      last_end = ap (λ q. end_or q s.last (some b)) own;
      next_own = own;
      prev_own =
          ap (λ q. put_at (put s.prev b (some a)) q (some b) b) own
          ∙ put_at-put_self s.prev b (some a) (s.next a) (some b) apart;
      next_other = λ x other. put_at-put s.next b x (s.next a) (some a) (some b) other;
      prev_other = λ x other.
          ap (λ q. put_at (put s.prev b (some a)) q (some b) x) own
          ∙ put_at-put s.prev b x (some a) (s.next a) (some b) other;
    }

pub insert_before-Joins :
    (s : Store) (a b : ℕ)
    → a ≢ b
    → Apart (s.prev b) (a ∷ [])
    → Joins s (insert_before s a b) (s.prev b) (some b) a
unfolding insert_before
insert_before-Joins s a b ne apart =
    let prev' : ℕ → Option ℕ = put (put s.prev a (s.prev b)) b (some a) in
    let own : prev' a ≡ s.prev b =
      put_other (put s.prev a (s.prev b)) b a (some a) ne ∙ put_self s.prev a (s.prev b) in
    record {
      first_end = ap (λ p. end_or p s.first (some a)) own;
      last_end = refl;
      next_own =
          ap (λ p. put_at (put s.next a (some b)) p (some a) a) own
          ∙ put_at-put_self s.next a (some b) (s.prev b) (some a) apart;
      prev_own = own;
      next_other = λ x other.
          ap (λ p. put_at (put s.next a (some b)) p (some a) x) own
          ∙ put_at-put s.next a x (some b) (s.prev b) (some a) other;
      prev_other = λ x other. put_at-put s.prev a x (s.prev b) (some b) (some a) other;
    }

pub remove-Leaves : (s : Store) (e : ℕ) → Leaves s (remove s e) (s.prev e) (s.next e) e
unfolding remove
remove-Leaves s e = record {
  first_end = refl;
  last_end = refl;
  next_other = λ x ne. put_other (put_at s.next (s.prev e) (s.next e)) e x none ne;
  prev_other = λ x ne. put_other (put_at s.prev (s.next e) (s.prev e)) e x none ne;
}
