-- ===== src/DList/Walk.antt =====
-- The loops over a list reach each element once, in order, and end.
use dvb_vulture.Prelude.{
  append_nil, ℕ, zero, suc, ◌+◌, ◌<◌, ◌≡◌, refl, ap, sym, ◌∙◌, List, [], ◌∷◌, ◌++◌, Option, none,
  some, length, arith,
}
use mathlib.Core.List.{append_assoc}
use dvb_vulture.DList.{Store, for_each, count}
use dvb_vulture.DList.Seg.{head_or, last_or, Seg}
use dvb_vulture.DList.Join.{Holds}

abbrev pub reverse : List ℕ → List ℕ
reverse [] = []
reverse (a ∷ rest) = reverse rest ++ (a ∷ [])

forward :
    (next prev : ℕ → Option ℕ) (fuel : ℕ) (back : Option ℕ) (xs : List ℕ)
    → Seg next prev back xs none
    → length xs < fuel
    → for_each next fuel (head_or xs none) ≡ some xs
unfolding for_each
forward next prev zero back xs seg lt = absurd (omega arith)
forward next prev (suc fuel) back [] seg lt = refl
forward next prev (suc fuel) back (a ∷ rest) seg lt =
    rw (seg.1, for_each) (rw (forward next prev fuel (some a) rest seg.2 (omega arith)) refl)

one_more :
    (prev : ℕ → Option ℕ) (k a : ℕ) (back : Option ℕ) (tail : List ℕ)
    → prev a ≡ back
    → for_each prev k back ≡ some tail
    → for_each prev (suc k) (some a) ≡ some (a ∷ tail)
unfolding for_each
one_more prev k a back tail link ends = rw (link, for_each) (rw ends refl)

backward :
    (next prev : ℕ → Option ℕ) (k fuel : ℕ) (back front : Option ℕ) (xs tail : List ℕ)
    → Seg next prev back xs front
    → for_each prev k back ≡ some tail
    → fuel ≡ length xs + k
    → for_each prev fuel (last_or back xs) ≡ some (reverse xs ++ tail)
backward next prev k fuel back front [] tail seg ends e =
    let same : fuel ≡ k = omega arith in ap (λ (n : ℕ). for_each prev n back) same ∙ ends
backward next prev k fuel back front (a ∷ rest) tail seg ends e =
    backward next prev (suc k) fuel (some a) front rest (a ∷ tail) seg.2
      (one_more prev k a back tail seg.0 ends) (omega arith)
    ∙ ap some (sym (append_assoc (reverse rest) (a ∷ []) tail))

counts :
    (next prev : ℕ → Option ℕ) (fuel : ℕ) (back : Option ℕ) (xs : List ℕ)
    → Seg next prev back xs none
    → length xs < fuel
    → count next fuel (head_or xs none) ≡ some (length xs)
unfolding count
counts next prev zero back xs seg lt = absurd (omega arith)
counts next prev (suc fuel) back [] seg lt = refl
counts next prev (suc fuel) back (a ∷ rest) seg lt =
    let more : length rest + 1 ≡ suc (length rest) = omega arith in
    rw (seg.1, count) (rw (counts next prev fuel (some a) rest seg.2 (omega arith)) (ap some more))

-- The loops of `dlistForEach`, `dlistForEachRev` and `dlistCount` end after one round more than the
-- list in memory has elements: the first reaches them in their order, the second in the reverse
-- order, and the third returns their number.
pub for_each-all :
    (s : Store) (xs : List ℕ)
    → Holds s xs
    → (for_each s.next (length xs + 1) s.first ≡ some xs)
      × (for_each s.prev (length xs + 1) s.last ≡ some (reverse xs))
      × (count s.next (length xs + 1) s.first ≡ some (length xs))
unfolding for_each
for_each-all s xs holds = (
  ap (for_each s.next (length xs + 1)) holds.0
      ∙ forward s.next s.prev (length xs + 1) none xs holds.2 (omega arith),
  ap (for_each s.prev (length xs + 1)) holds.1
      ∙ backward s.next s.prev 1 (length xs + 1) none none xs [] holds.2 refl refl
      ∙ ap some (append_nil (reverse xs)),
  ap (count s.next (length xs + 1)) holds.0
      ∙ counts s.next s.prev (length xs + 1) none xs holds.2 (omega arith),
)
