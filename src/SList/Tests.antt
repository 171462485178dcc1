-- ===== src/SList/Tests.antt =====
-- Lists at small addresses.
use dvb_vulture.Prelude.{ℕ, ◌≡◌, refl, none, some}
use dvb_vulture.SList.{
  SList, init, insert_first, insert_last, insert_after, remove_first, remove_next,
}

abbrev nothing : SList
nothing = record { first = none; last = none; next = λ (a : ℕ). none }

abbrev three : SList
three = insert_after (insert_last (insert_first nothing 10) 20) (some 10) 30

three-ends : (three.first ≡ some 10) × (three.last ≡ some 20) × (three.next 10 ≡ some 30)
unfolding insert_first insert_last insert_after
three-ends = (refl, refl, refl)

-- The last element leaves, and the one before it is the last.
remove_next-last :
    ((remove_next three (some 30)).0 ≡ some 20) × ((remove_next three (some 30)).1.last ≡ some 30)
unfolding insert_first insert_last insert_after remove_next
remove_next-last = (refl, refl)

remove_first-empty : remove_first nothing ≡ (none, nothing)
unfolding remove_first
remove_first-empty = refl

init-empty : (init three).first ≡ none
unfolding init
init-empty = refl
