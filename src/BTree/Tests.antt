-- ===== src/BTree/Tests.antt =====
-- Trees of numbers, put in one after the other.
use dvb_vulture.Prelude.{
  ℕ, ◌≡◌, ◌≢◌, refl, [], ◌∷◌, none, some, true, false, ltb, ◌==◌, if◌then◌else◌, arith,
}
use dvb_vulture.Prelude.Sign.{Sign, less, same, more, IsComparison}
use dvb_vulture.BTree.{
  Tree, empty, node, top, right_of, plug, rise, round, balance_right, remove, find, insert_at,
  insert, get_or_ins, walk,
}
use dvb_vulture.BTree.Balance.{IsAvl}
use dvb_vulture.BTree.InOrder.{flat}
use dvb_vulture.BTree.Visits.{IsTraversal, walk-IsTraversal}
use dvb_vulture.BTree.Order.{IsSorted, pick, place, status_of}
use dvb_vulture.BTree.Insert.{kept, insert-place, find-insert}
use dvb_vulture.BTree.Remove.{remove-others}

abbrev by_number : ℕ → ℕ → Sign
by_number a b = if ltb a b then more else if ltb b a then less else same

by_number-IsComparison : IsComparison by_number
by_number-IsComparison = record {
  flipped = λ (a b : ℕ). ground arith;
  chained = λ (a b c : ℕ) f g. ground arith;
  alike = λ (a b c : ℕ) f g. ground arith;
}

abbrev leaf : ℕ → Tree ℕ
leaf v = node 1 empty v empty

-- 20 has no right child, and 10, put in below, makes the tree turn.
abbrev uneven : Tree ℕ
uneven = node 3 (node 2 (leaf 10) 20 empty) 30 (leaf 40)

abbrev even : Tree ℕ
even = node 3 (node 2 (leaf 5) 10 (leaf 20)) 30 (leaf 40)

insert-turns : insert by_number uneven 5 ≡ (0, even)
unfolding insert insert_at rise round balance_right plug
insert-turns = refl

insert-twice : insert by_number even 20 ≡ (2, even)
unfolding insert insert_at plug
insert-twice = refl

remove-turns :
    remove (λ v. v == 40) 1 empty 40 empty (right_of 3 (node 2 (leaf 10) 20 empty) 30 top)
    ≡ node 2 (leaf 10) 20 (leaf 30)
unfolding remove rise round balance_right
remove-turns = refl

get_or_ins-both :
    (get_or_ins by_number true uneven 5 ≡ (some 5, even))
    × (get_or_ins by_number false uneven 5 ≡ (none, uneven))
    × (get_or_ins by_number false uneven 20 ≡ (some 20, uneven))
unfolding get_or_ins find insert insert_at rise round balance_right plug
get_or_ins-both = (refl, refl, refl)

leaf-IsAvl : (v : ℕ) → IsAvl (leaf v)
leaf-IsAvl v = (tt, tt, refl, (omega arith, omega arith))

twenty-IsAvl : IsAvl (node 2 (leaf 10) 20 empty)
twenty-IsAvl = (leaf-IsAvl 10, tt, refl, (omega arith, omega arith))

uneven-IsAvl : IsAvl uneven
uneven-IsAvl = (twenty-IsAvl, leaf-IsAvl 40, refl, (omega arith, omega arith))

uneven-IsSorted : IsSorted by_number (flat uneven [])
uneven-IsSorted = ((refl, (refl, (refl, tt))), ((refl, (refl, tt)), ((refl, tt), (tt, tt))))

insert-place_example :
    (flat (insert by_number uneven 5).1 [] ≡ place by_number 5 (flat uneven []))
    × ((insert by_number uneven 5).0 ≡ status_of by_number (pick by_number 5 (flat uneven [])))
    × IsAvl (insert by_number uneven 5).1
    × IsSorted by_number (flat (insert by_number uneven 5).1 [])
insert-place_example =
    insert-place by_number by_number-IsComparison uneven 5 uneven-IsAvl uneven-IsSorted

find-insert_example :
    (find by_number (insert by_number uneven 5).1 5 ≡ some (kept 5 (find by_number uneven 5)))
    × ((x : ℕ)
        → by_number 5 x ≢ same
        → find by_number (insert by_number uneven 5).1 x ≡ find by_number uneven x)
find-insert_example =
    find-insert by_number by_number-IsComparison uneven 5 uneven-IsAvl uneven-IsSorted

-- the root of `even`, which has two children
remove-others_example :
    (flat (remove (λ v. v == 30) 3 (node 2 (leaf 5) 10 (leaf 20)) 30 (leaf 40) top) []
      ≡ 5 ∷ 10 ∷ 20 ∷ 40 ∷ [])
    × IsAvl (remove (λ v. v == 30) 3 (node 2 (leaf 5) 10 (leaf 20)) 30 (leaf 40) top)
remove-others_example =
    remove-others (λ v. v == 30) 3 (node 2 (leaf 5) 10 (leaf 20)) 30 (leaf 40) top
      (
        (leaf-IsAvl 5, leaf-IsAvl 20, refl, (omega arith, omega arith)),
        leaf-IsAvl 40,
        refl,
        (omega arith, omega arith),
      )
      tt refl (refl, (refl, (refl, (refl, tt))))

walk-visits :
    walk (node 2 (leaf 10) 20 empty) 0 ≡ (20, 0, 0) ∷ (10, 3, 1) ∷ (20, 1, 0) ∷ (20, 2, 0) ∷ []
unfolding walk
walk-visits = refl

walk-IsTraversal_example : IsTraversal uneven 0 (walk uneven 0)
walk-IsTraversal_example = walk-IsTraversal uneven 0
