-- ===== src/DList/Tests.antt =====
-- Lists at small addresses.
use dvb_vulture.Prelude.{ℕ, ◌≡◌, refl, List, [], ◌∷◌, none, some, ◌==◌, if◌then◌else◌, arith}
use dvb_vulture.DList.{
  Store, init, insert_first, insert_last, insert_after, insert_before, remove, for_each, count,
}
use dvb_vulture.DList.Join.{Holds}
use dvb_vulture.DList.Refine.{
  Call, insert_first_call, insert_last_call, insert_after_call, insert_before_call, remove_call,
  run_all, DoAll, run_all-Holds,
}
use dvb_vulture.DList.Walk.{reverse, for_each-all}

-- two elements, at 10 and 20
abbrev two : Store
two = record {
  first = some 10;
  last = some 20;
  next = λ (a : ℕ). if a == 10 then some 20 else none;
  prev = λ (a : ℕ). if a == 20 then some 10 else none;
}

two-Holds : Holds two (10 ∷ 20 ∷ [])
two-Holds =
    (refl, refl, (refl, refl, (refl, refl, tt)), (((λ e. absurd (omega arith)), tt), (tt, tt)))

abbrev calls : List Call
calls =
    insert_after_call 10 30
    ∷ insert_before_call 40 10
    ∷ remove_call 10
    ∷ insert_last_call 10
    ∷ insert_first_call 50
    ∷ []

calls-Do : DoAll calls (10 ∷ 20 ∷ []) (50 ∷ 40 ∷ 30 ∷ 20 ∷ 10 ∷ [])
calls-Do = (
  10 ∷ 30 ∷ 20 ∷ [],
  (((λ e. absurd (omega arith)), ((λ e. absurd (omega arith)), tt)), ([], 20 ∷ [], refl, refl)),
  (
    40 ∷ 10 ∷ 30 ∷ 20 ∷ [],
    (
      (
        (λ e. absurd (omega arith)),
        ((λ e. absurd (omega arith)), ((λ e. absurd (omega arith)), tt)),
      ),
      ([], 30 ∷ 20 ∷ [], refl, refl),
    ),
    (
      40 ∷ 30 ∷ 20 ∷ [],
      (40 ∷ [], 30 ∷ 20 ∷ [], refl, refl),
      (
        40 ∷ 30 ∷ 20 ∷ 10 ∷ [],
        (
          (
            (λ e. absurd (omega arith)),
            ((λ e. absurd (omega arith)), ((λ e. absurd (omega arith)), tt)),
          ),
          refl,
        ),
        (
          50 ∷ 40 ∷ 30 ∷ 20 ∷ 10 ∷ [],
          (
            (
              (λ e. absurd (omega arith)),
              (
                (λ e. absurd (omega arith)),
                ((λ e. absurd (omega arith)), ((λ e. absurd (omega arith)), tt)),
              ),
            ),
            refl,
          ),
          refl,
        ),
      ),
    ),
  ),
)

run_all-Holds_example : Holds (run_all calls two) (50 ∷ 40 ∷ 30 ∷ 20 ∷ 10 ∷ [])
run_all-Holds_example =
    run_all-Holds calls two (10 ∷ 20 ∷ []) (50 ∷ 40 ∷ 30 ∷ 20 ∷ 10 ∷ []) two-Holds calls-Do

run_all-walked :
    for_each (run_all calls two).prev 6 (run_all calls two).last
    ≡ some (10 ∷ 20 ∷ 30 ∷ 40 ∷ 50 ∷ [])
unfolding for_each insert_first insert_last insert_after insert_before remove
run_all-walked = refl

init-empty : (init two).first ≡ none
unfolding init
init-empty = refl

for_each-all_example :
    (for_each two.next 3 two.first ≡ some (10 ∷ 20 ∷ []))
    × (for_each two.prev 3 two.last ≡ some (reverse (10 ∷ 20 ∷ [])))
    × (count two.next 3 two.first ≡ some 2)
for_each-all_example = for_each-all two (10 ∷ 20 ∷ []) two-Holds
