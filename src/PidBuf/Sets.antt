-- ===== src/PidBuf/Sets.antt =====
-- What the arrays stand for: a list of pids, and its members.
use dvb_vulture.Prelude.{
  ℕ, zero, suc, ◌+◌, ◌≤◌, ◌<◌, ◌≡◌, refl, ap, sym, ◌∙◌, List, [], ◌∷◌, ◌++◌, length, take, set,
  Bool, true, false, ◌==◌, ◌||◌, ◌&&◌, ==_iff, if◌then◌else◌, arith, inl, inr, Bool-cases,
  length-append,
}
use dvb_vulture.PidBuf.{PidBuf, scan, elements}

abbrev pub member : ℕ → List ℕ → Bool
member v [] = false
member v (x ∷ xs) = (x == v) || member v xs

-- no element twice
abbrev pub IsUnique : List ℕ → Type 0
IsUnique [] = Unit {0}
IsUnique (x ∷ xs) = (member x xs ≡ false) × IsUnique xs

-- The count is that of the memory; NULL counts 0.
abbrev pub IsWhole : PidBuf → Type 0
IsWhole p = p.num ≡ length (elements p.pids)

pub scan-member : (v n : ℕ) (xs : List ℕ) → scan v xs n ≡ member v (take n xs)
unfolding scan
scan-member v zero xs = refl
scan-member v (suc n) [] = refl
scan-member v (suc n) (x ∷ xs) = ap (λ b. (x == v) || b) (scan-member v n xs)

pub or_assoc : (a b c : Bool) → ((a || b) || c) ≡ (a || (b || c))
or_assoc true b c = refl
or_assoc false b c = refl

pub member-append : (v : ℕ) (xs ys : List ℕ) → member v (xs ++ ys) ≡ (member v xs || member v ys)
member-append v [] ys = refl
member-append v (x ∷ xs) ys =
    ap (λ b. (x == v) || b) (member-append v xs ys)
    ∙ sym (or_assoc (x == v) (member v xs) (member v ys))

-- One element more, behind those that count.
pub take-set :
    (i : ℕ) (xs : List ℕ) (v : ℕ)
    → i < length xs
    → take (i + 1) (set xs i v) ≡ take i xs ++ (v ∷ [])
take-set i [] v h = absurd (omega arith)
take-set zero (x ∷ xs) v h = refl
take-set (suc i) (x ∷ xs) v h =
    let e : suc i + 1 ≡ suc (i + 1) = omega arith in
    ap (λ (k : ℕ). take k (x ∷ set xs i v)) e ∙ ap (λ t. x ∷ t) (take-set i xs v (omega arith))

-- an element behind the others, unless it is among them
abbrev pub insert : ℕ → List ℕ → List ℕ
insert v xs = if member v xs then xs else xs ++ (v ∷ [])

abbrev pub insert_all : List ℕ → List ℕ → List ℕ
insert_all [] xs = xs
insert_all (v ∷ vs) xs = insert_all vs (insert v xs)

or_absorb : (v u : ℕ) (xs : List ℕ) → member u xs ≡ true → (member v xs || (u == v)) ≡ member v xs
or_absorb v u [] h = ground arith
or_absorb v u (x ∷ xs) h = ground (arith, or_absorb v u xs)

pub member-insert : (v u : ℕ) (xs : List ℕ) → member v (insert u xs) ≡ (member v xs || (u == v))
member-insert v u xs = elim (Bool-cases (member u xs)) [
  | inl there ↦ rw there (sym (or_absorb v u xs there))
  | inr new ↦ rw new (member-append v xs (u ∷ []) ∙ ground arith)
]

-- The members are those of both lists.
pub member-insert_all :
    (v : ℕ) (vs xs : List ℕ) → member v (insert_all vs xs) ≡ (member v xs || member v vs)
member-insert_all v [] xs = ground arith
member-insert_all v (u ∷ vs) xs =
    member-insert_all v vs (insert u xs)
    ∙ ap (λ b. b || member v vs) (member-insert v u xs)
    ∙ or_assoc (member v xs) (u == v) (member v vs)

IsUnique-append :
    (v : ℕ) (xs : List ℕ) → IsUnique xs → member v xs ≡ false → IsUnique (xs ++ (v ∷ []))
IsUnique-append v [] u new = (refl, tt)
IsUnique-append v (x ∷ xs) u new = (
  member-append x xs (v ∷ []) ∙ ground (arith, u.0, new),
  IsUnique-append v xs u.1 (ground (arith, new)),
)

pub IsUnique-insert : (v : ℕ) (xs : List ℕ) → IsUnique xs → IsUnique (insert v xs)
IsUnique-insert v xs u = elim (Bool-cases (member v xs)) [
  | inl there ↦ rw there u
  | inr new ↦ rw new (IsUnique-append v xs u new)
]

pub IsUnique-insert_all : (vs xs : List ℕ) → IsUnique xs → IsUnique (insert_all vs xs)
IsUnique-insert_all [] xs u = u
IsUnique-insert_all (v ∷ vs) xs u = IsUnique-insert_all vs (insert v xs) (IsUnique-insert v xs u)

pub length-insert : (v : ℕ) (xs : List ℕ) → length (insert v xs) ≤ length xs + 1
length-insert v xs = elim (Bool-cases (member v xs)) [
  | inl there ↦ rw there (omega arith)
  | inr new ↦ rw new (omega (arith, length-append xs (v ∷ [])))
]

pub length-insert_all : (vs xs : List ℕ) → length (insert_all vs xs) ≤ length xs + length vs
length-insert_all [] xs = omega arith
length-insert_all (v ∷ vs) xs =
    let rest : length (insert_all vs (insert v xs)) ≤ length (insert v xs) + length vs =
      length-insert_all vs (insert v xs) in
    omega (arith, rest, length-insert v xs)

-- the elements that pass a test
abbrev pub select : (ℕ → Bool) → List ℕ → List ℕ
select p [] = []
select p (x ∷ xs) = if p x then x ∷ select p xs else select p xs

select_step :
    (v x : ℕ) (m : Bool) (p : ℕ → Bool)
    → (b : Bool) → p x ≡ b
    → (if b then (x == v) || (m && p v) else m && p v) ≡ (((x == v) || m) && p v)
select_step v x m p b e = elim (Bool-cases (x == v)) [
  | inl same ↦
      let at : p v ≡ b = sym (ap p ((==_iff x v).0 same)) ∙ e in rw (same, at) (by_values b m)
  | inr other ↦ rw other (either b (m && p v))
]
  where
    by_values : (c d : Bool) → (if c then true else d && c) ≡ c
    by_values true d = refl
    by_values false true = refl
    by_values false false = refl

    either : (c d : Bool) → (if c then d else d) ≡ d
    either true d = refl
    either false d = refl

pub member-select :
    (v : ℕ) (p : ℕ → Bool) (xs : List ℕ) → member v (select p xs) ≡ (member v xs && p v)
member-select v p [] = refl
member-select v p (x ∷ xs) = elim (Bool-cases (p x)) [
  | inl passes ↦
      rw passes (
        ap (λ b. (x == v) || b) (member-select v p xs)
        ∙ select_step v x (member v xs) p true passes)
  | inr fails ↦ rw fails (member-select v p xs ∙ select_step v x (member v xs) p false fails)
]

pub IsUnique-select : (p : ℕ → Bool) (xs : List ℕ) → IsUnique xs → IsUnique (select p xs)
IsUnique-select p [] u = tt
IsUnique-select p (x ∷ xs) u = elim (Bool-cases (p x)) [
  | inl passes ↦ rw passes (member-select x p xs ∙ ap (λ b. b && p x) u.0, IsUnique-select p xs u.1)
  | inr fails ↦ rw fails (IsUnique-select p xs u.1)
]
