-- ===== src/Lru/Balance.antt =====
-- The middle element moves towards the longer part.
use mathlib.Core.List.{append_assoc}
use dvb_vulture.Prelude.{
  ℕ, ◌+◌, ◌≤◌, ◌<◌, ◌≡◌, refl, ap, sym, subst, ◌∙◌, List, [], ◌∷◌, ◌++◌, none, some, ◌&&◌, ◌==◌,
  ltb, ltb→lt, ltb→le, length, length-append, arith, ◌⊎◌, inl, inr, Bool-cases,
}
use dvb_vulture.DList.Join.{Holds}
use dvb_vulture.Lru.{Lru, lru_l, lru_r, lru_balance}
use dvb_vulture.Lru.Split.{IsSplit, lru_l-IsSplit, lru_r-IsSplit}

-- the empty list
abbrev pub IsEmpty : Lru → Type 0
IsEmpty s = Holds s.l [] × (s.mid ≡ none) × (s.before ≡ 0) × (s.behind ≡ 0)

-- The invariant of `lru_balance`: the list has these elements, and there are as many before the
-- middle element as behind it, or one less.
abbrev pub IsLru : Lru → List ℕ → Type 0
IsLru s xs =
    (IsEmpty s × (xs ≡ []))
    ⊎ ((ys : List ℕ) × (m : ℕ) × (zs : List ℕ) × (xs ≡ ys ++ (m ∷ zs))
        × IsSplit s ys m zs
        × (length ys ≤ length zs)
        × (length zs ≤ length ys + 1))

pub snoc-cases : (ys : List ℕ) → (ys ≡ []) ⊎ ((front : List ℕ) × (p : ℕ) × (ys ≡ front ++ (p ∷ [])))
snoc-cases [] = inl refl
snoc-cases (y ∷ ys) = inr (elim (snoc-cases ys) [
  | inl e ↦ ([], y, ap (λ rest. y ∷ rest) e)
  | inr (front, p, e) ↦ (y ∷ front, p, ap (λ rest. y ∷ rest) e)
])

-- A move to the left of the middle element.
pub left-IsLru :
    (s : Lru) (ys : List ℕ) (m : ℕ) (zs : List ℕ)
    → IsSplit s ys m zs
    → length ys ≡ length zs + 1
    → (s' : Lru) × (lru_l s ≡ some s') × IsLru s' (ys ++ (m ∷ zs))
left-IsLru s ys m zs split more = elim (snoc-cases ys) [
  | inl e ↦ absurd (let none_left : length ys ≡ 0 = ap length e in omega arith)
  | inr (front, p, e) ↦
      let count : length ys ≡ length front + 1 = ap length e ∙ length-append front (p ∷ []) in
      let moved = lru_l-IsSplit s front p m zs (subst (λ xs. IsSplit s xs m zs) e split) in
      (
        moved.0,
        moved.1,
        inr (
          front,
          p,
          m ∷ zs,
          ap (λ xs. xs ++ (m ∷ zs)) e ∙ append_assoc front (p ∷ []) (m ∷ zs),
          moved.2,
          omega arith,
          omega arith,
        ),
      )
]

right-IsLru :
    (s : Lru) (ys : List ℕ) (m : ℕ) (zs : List ℕ)
    → IsSplit s ys m zs
    → length zs ≡ length ys + 2
    → (s' : Lru) × (lru_r s ≡ some s') × IsLru s' (ys ++ (m ∷ zs))
right-IsLru s ys m [] split more = absurd (omega arith)
right-IsLru s ys m (z ∷ zs) split more =
    let count : length (ys ++ (m ∷ [])) ≡ length ys + 1 = length-append ys (m ∷ []) in
    let moved = lru_r-IsSplit s ys m z zs split in
    (
      moved.0,
      moved.1,
      inr (
        ys ++ (m ∷ []),
        z,
        zs,
        sym (append_assoc ys (m ∷ []) (z ∷ zs)),
        moved.2,
        omega arith,
        omega arith,
      ),
    )

-- One move is enough where one element has come or gone.
pub balance-IsLru :
    (s : Lru) (ys : List ℕ) (m : ℕ) (zs : List ℕ)
    → IsSplit s ys m zs
    → length ys ≤ length zs + 1
    → length zs ≤ length ys + 2
    → (s' : Lru) × (lru_balance s ≡ some s') × IsLru s' (ys ++ (m ∷ zs))
unfolding lru_balance
balance-IsLru s ys m zs split le le' =
    let b : s.before ≡ length ys = split.before_is in
    let c : s.behind ≡ length zs = split.behind_is in
    elim (Bool-cases ((s.before == 0) && (s.behind == 0))) [
      | inl both ↦
          let zero_left : s.before ≡ 0 = ground (arith, both) in
          let zero_right : s.behind ≡ 0 = ground (arith, both) in
          (s, rw both refl, inr (ys, m, zs, refl, split, omega arith, omega arith))
      | inr some_left ↦ elim (Bool-cases (ltb (s.before + 1) s.behind)) [
        | inl right ↦
            let lt : s.before + 1 < s.behind = ltb→lt (s.before + 1) s.behind right in
            let moved = right-IsLru s ys m zs split (omega arith) in
            (moved.0, rw (some_left, right) moved.1, moved.2)
        | inr no_right ↦
            let ge : s.behind ≤ s.before + 1 = ltb→le (s.before + 1) s.behind no_right in
            elim (Bool-cases (ltb s.behind s.before)) [
              | inl left ↦
                  let lt : s.behind < s.before = ltb→lt s.behind s.before left in
                  let moved = left-IsLru s ys m zs split (omega arith) in
                  (moved.0, rw (some_left, no_right, left) moved.1, moved.2)
              | inr no_left ↦
                  let ge' : s.before ≤ s.behind = ltb→le s.behind s.before no_left in
                  (
                    s,
                    rw (some_left, no_right, no_left) refl,
                    inr (ys, m, zs, refl, split, omega arith, omega arith),
                  )
            ]
      ]
    ]
