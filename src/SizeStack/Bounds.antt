-- ===== src/SizeStack/Bounds.antt =====
-- What the size stack promises a parser: while the call it just made returned 0, the pointer and
-- the bytes it asked for lie inside every bound on the stack.
use dvb_vulture.Prelude.{
  ℕ, ◌+◌, ◌-◌, ◌≤◌, ◌<◌, ◌≡◌, ◌⊎◌, ◌↔◌, inl, inr, ltb, leb, ◌&&◌, Bool-cases, some, List, [], ◌∷◌,
  length, arith, length-replicate, length-set, get_or-set_self, get_or-set_ne,
}
use native.Mathlib.Decide.{ℕ_discrete}
use dvb_vulture.SizeStack.{
  SizeStack, max_bounds, start_at, end_at, init, pop, push, pushed, advance, rewind, Call,
  push_bound, pop_bound, move_on, move_back, step, run,
}

-- The arrays have their 32 slots, each bound lies inside those below it, and the pointer lies
-- inside all of them.
pub record IsNested (s : SizeStack) : Type 0 where
  pub count : s.num_bounds ≤ max_bounds
  pub starts : length s.start ≡ max_bounds
  pub ends : length s.end ≡ max_bounds
  pub nested :
      (i j : ℕ)
      → i ≤ j
      → j < s.num_bounds
      → (start_at s i ≤ start_at s j) × (end_at s j ≤ end_at s i)
  pub inside : (i : ℕ) → i < s.num_bounds → (start_at s i ≤ s.ptr) × (s.ptr ≤ end_at s i)

-- A stack that `sizeStackInit` returns is well nested.
pub init-IsNested : (p : ℕ) {s : SizeStack} → init p ≡ some s → IsNested s
unfolding init
init-IsNested p {s} h = record {
  count = ground arith;
  starts = ground (arith, length-replicate max_bounds (s.ptr));
  ends = ground arith;
  nested = λ i j le lt. absurd (ground arith);
  inside = λ i lt. absurd (ground arith);
}

pop-IsNested : (s : SizeStack) → IsNested s → IsNested (pop s).1
unfolding pop
pop-IsNested s v = record {
  count = ground (arith, v.count);
  starts = ground arith;
  ends = ground arith;
  nested = λ i j le lt. ground (arith, v.nested i j);
  inside = λ i lt. ground (arith, v.inside i);
}

advance-IsNested : (s : SizeStack) (dist space : ℕ) → IsNested s → IsNested (advance s dist space).1
unfolding advance
advance-IsNested s dist space v = record {
  count = ground arith;
  starts = ground arith;
  ends = ground arith;
  nested = λ i j le lt. ground (arith, v.nested i j);
  inside = λ i lt. ground (arith, v.inside i, v.nested i (s.num_bounds - 1));
}

rewind-IsNested : (s : SizeStack) (dist space : ℕ) → IsNested s → IsNested (rewind s dist space).1
unfolding rewind
rewind-IsNested s dist space v = record {
  count = ground arith;
  starts = ground arith;
  ends = ground arith;
  nested = λ i j le lt. ground (arith, v.nested i j);
  inside = λ i lt. ground (arith, v.inside i, v.nested i (s.num_bounds - 1));
}

-- The slot that a push fills, and the slots below it, which it leaves alone.
pushed_at :
    (s : SizeStack) (size j : ℕ)
    → IsNested s
    → s.num_bounds < max_bounds
    → j < s.num_bounds + 1
    → ((j ≡ s.num_bounds)
        × (start_at (pushed s size) j ≡ s.ptr)
        × (end_at (pushed s size) j ≡ s.ptr + size))
      ⊎ ((j < s.num_bounds)
          × (start_at (pushed s size) j ≡ start_at s j)
          × (end_at (pushed s size) j ≡ end_at s j))
pushed_at s size j v room lt = elim (ℕ_discrete s.num_bounds j) [
  | yes e ↦ inl (
    omega arith,
    ground (arith, get_or-set_self s.start s.num_bounds s.ptr 0, v.starts),
    ground (arith, get_or-set_self s.end s.num_bounds (s.ptr + size) 0, v.ends),
  )
  | no ne ↦ inr (
    omega arith,
    get_or-set_ne s.start s.num_bounds j s.ptr 0 ne,
    get_or-set_ne s.end s.num_bounds j (s.ptr + size) 0 ne,
  )
]

-- A push that fits keeps the stack nested.
pushed-IsNested :
    (s : SizeStack) (size : ℕ)
    → IsNested s
    → s.num_bounds < max_bounds
    → (0 < s.num_bounds → s.ptr + size ≤ end_at s (s.num_bounds - 1))
    → IsNested (pushed s size)
pushed-IsNested s size v room fits = record {
  count = omega arith;
  starts = omega (arith, length-set s.start s.num_bounds s.ptr, v.starts);
  ends = omega (arith, length-set s.end s.num_bounds (s.ptr + size), v.ends);
  nested = λ i j le lt. ground (
    arith,
    pushed_at s size i v room,
    pushed_at s size j v room,
    v.nested i j,
    v.nested i (s.num_bounds - 1),
    v.inside i,
    fits,
  );
  inside = λ i lt.
      ground (arith, pushed_at s size i v room, v.inside i, v.nested i (s.num_bounds - 1), fits);
}

push-IsNested : (s : SizeStack) (size : ℕ) → IsNested s → IsNested (push s size).1
unfolding push
push-IsNested s size v = elim (Bool-cases (leb max_bounds s.num_bounds)) [
  | inl is_full ↦ rw is_full v
  | inr room ↦
      elim (Bool-cases (ltb 0 s.num_bounds && ltb (end_at s (s.num_bounds - 1)) (s.ptr + size))) [
        | inl out ↦ rw (room, out) v
        | inr fits ↦ rw (room, fits) (pushed-IsNested s size v (ground arith) (ground arith))
      ]
]

-- Whatever a parser calls on a well nested stack, and whether or not the calls succeed, the stack
-- stays well nested.
pub run-IsNested : (calls : List Call) (s : SizeStack) → IsNested s → IsNested (run s calls)
unfolding run step
run-IsNested [] s v = v
run-IsNested (push_bound n ∷ calls) s v = run-IsNested calls (push s n).1 (push-IsNested s n v)
run-IsNested (pop_bound ∷ calls) s v = run-IsNested calls (pop s).1 (pop-IsNested s v)
run-IsNested (move_on d n ∷ calls) s v =
    run-IsNested calls (advance s d n).1 (advance-IsNested s d n v)
run-IsNested (move_back d n ∷ calls) s v =
    run-IsNested calls (rewind s d n).1 (rewind-IsNested s d n v)

-- When `sizeStackAdvance` returns 0 on a well nested stack, the pointer has moved on by `dist`
-- and it and the `space` bytes from there on lie inside every bound of the stack.
pub advance_guards :
    (s : SizeStack) (dist space i : ℕ)
    → IsNested s
    → (advance s dist space).0 ≡ 0
    → i < s.num_bounds
    → let s' = (advance s dist space).1 in
      (s'.ptr ≡ s.ptr + dist) × (start_at s i ≤ s'.ptr) × (s'.ptr + space ≤ end_at s i)
unfolding advance
advance_guards s dist space i v h lt = ground (arith, v.inside i, v.nested i (s.num_bounds - 1))

-- On a well nested stack with a bound, `sizeStackAdvance` returns 0 exactly when the bytes asked
-- for lie inside the innermost bound, and `sizeStackRewind` exactly when the target lies in it
-- and so do the bytes from there on; where one returns another status the stack is unchanged.
pub moves_exact :
    (s : SizeStack) (dist space : ℕ)
    → IsNested s
    → 0 < s.num_bounds
    → (((advance s dist space).0 ≡ 0) ↔ (s.ptr + dist + space ≤ end_at s (s.num_bounds - 1)))
      × (((rewind s dist space).0 ≡ 0) ↔ (
          (s.ptr + space ≤ end_at s (s.num_bounds - 1) + dist)
          × (start_at s (s.num_bounds - 1) + dist ≤ s.ptr)))
      × (((advance s dist space).0 ≡ 0) ⊎ ((advance s dist space).1 ≡ s))
      × (((rewind s dist space).0 ≡ 0) ⊎ ((rewind s dist space).1 ≡ s))
unfolding advance rewind
moves_exact s dist space v some_bound = (
  (λ h. ground arith, λ h. ground arith),
  (λ h. (ground arith, ground arith), λ h. ground arith),
  ground arith,
  ground arith,
)
