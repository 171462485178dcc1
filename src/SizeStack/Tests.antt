-- ===== src/SizeStack/Tests.antt =====
-- Runs of the size stack at concrete addresses.
use dvb_vulture.Prelude.{◌+◌, ◌≤◌, ◌≡◌, refl, List, [], ◌∷◌, replicate, arith}
use dvb_vulture.SizeStack.{
  SizeStack, start_at, end_at, push, advance, rewind, Call, push_bound, move_on, step, run, init,
}
use dvb_vulture.SizeStack.Bounds.{IsNested, init-IsNested, run-IsNested, advance_guards}

abbrev fresh : SizeStack
fresh = record { num_bounds = 0; start = replicate 32 0; end = replicate 32 0; ptr = 1000 }

-- the head of a section of 20 bytes: the length field, then a bound of 17 bytes
abbrev calls : List Call
calls = push_bound 20 ∷ move_on 1 2 ∷ move_on 2 1 ∷ push_bound 17 ∷ []

fresh-IsNested : IsNested fresh
unfolding init
fresh-IsNested = init-IsNested 1000 refl

-- the inner bound is 1003 to 1020, as the outer one ends at 1020
run-calls :
    ((run fresh calls).ptr ≡ 1003)
    × ((run fresh calls).num_bounds ≡ 2)
    × (end_at (run fresh calls) 1 ≡ 1020)
unfolding run step
run-calls = (refl, refl, refl)

-- one byte too many is refused, and so is a move below the inner bound
refusals :
    ((push (run fresh calls) 18).0 ≡ 1)
    × ((advance (run fresh calls) 16 1).0 ≡ 0)
    × ((advance (run fresh calls) 16 2).0 ≡ 1)
    × ((rewind (run fresh calls) 1 1).0 ≡ 1)
unfolding run step push advance rewind
refusals = (refl, refl, refl, refl)

run-IsNested_example : IsNested (run fresh calls)
run-IsNested_example = run-IsNested calls fresh fresh-IsNested

advance_guards_example :
    let s' = (advance (run fresh calls) 16 1).1 in
    (s'.ptr ≡ (run fresh calls).ptr + 16)
    × (start_at (run fresh calls) 0 ≤ s'.ptr)
    × (s'.ptr + 1 ≤ end_at (run fresh calls) 0)
unfolding run step push advance
advance_guards_example =
    advance_guards (run fresh calls) 16 1 0 (run-IsNested calls fresh fresh-IsNested) refl
      (omega arith)
