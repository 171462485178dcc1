-- ===== src/SizeStack.antt =====
-- common/size_stack.c: the stack of nested size constraints that the section parsers check
-- their read pointer against.
--
-- A pointer is its address, a number, and NULL is 0. The two C arrays are lists of 32 addresses.
-- An operation returns its status beside the new stack. A pointer difference is compared with
-- the subtrahend moved to the other side, since `-` on ℕ stops at 0.
pub mod Bounds
pub mod Tests
use dvb_vulture.Prelude.{
  ℕ, ◌+◌, ◌-◌, ◌≤◌, ◌<◌, List, [], ◌∷◌, replicate, get_or, set, Option, none, some, ltb, leb, ◌==◌,
  if◌then◌else◌, ◌&&◌, ◌||◌,
}

-- `SizeStack`
pub record SizeStack : Type 0 where
  pub num_bounds : ℕ
  pub start : List ℕ
  pub end : List ℕ
  pub ptr : ℕ

abbrev pub max_bounds : ℕ
max_bounds = 32

abbrev pub start_at : SizeStack → ℕ → ℕ
start_at s i = get_or s.start i 0

abbrev pub end_at : SizeStack → ℕ → ℕ
end_at s i = get_or s.end i 0

-- `sizeStackInit`: `none` is the error return.
pub init : ℕ → Option SizeStack
init ptr = if ptr == 0 then none else some fresh
  where
    fresh : SizeStack
    fresh = record {
      num_bounds = 0;
      start = replicate max_bounds 0;
      end = replicate max_bounds 0;
      ptr = ptr;
    }

-- `sizeStackPop`
pub pop : SizeStack → ℕ × SizeStack
pop s = if s.num_bounds == 0 then (1, s) else (0, record s { num_bounds = s.num_bounds - 1 })

-- the writes of `sizeStackPush` once its tests have passed
abbrev pub pushed : SizeStack → ℕ → SizeStack
pushed s size = record {
  num_bounds = s.num_bounds + 1;
  start = set s.start s.num_bounds s.ptr;
  end = set s.end s.num_bounds (s.ptr + size);
  ptr = s.ptr;
}

-- `sizeStackPush`
pub push : SizeStack → ℕ → ℕ × SizeStack
push s size =
    if leb max_bounds s.num_bounds
    then (1, s)
    else if ltb 0 s.num_bounds && ltb (end_at s (s.num_bounds - 1)) (s.ptr + size)
    then (1, s)
    else (0, pushed s size)

-- `sizeStackAdvance`
pub advance : SizeStack → (dist space : ℕ) → ℕ × SizeStack
advance s dist space =
    if ltb 0 s.num_bounds && ltb (end_at s (s.num_bounds - 1)) (s.ptr + dist + space)
    then (1, s)
    else (0, record s { ptr = s.ptr + dist })

-- `sizeStackRewind`: `ptr - dist + space > end[i]`, then `ptr - dist < start[i]`
pub rewind : SizeStack → (dist space : ℕ) → ℕ × SizeStack
rewind s dist space =
    if ltb 0 s.num_bounds
      && (ltb (end_at s (s.num_bounds - 1) + dist) (s.ptr + space)
          || ltb s.ptr (start_at s (s.num_bounds - 1) + dist))
    then (1, s)
    else (0, record s { ptr = s.ptr - dist })

-- a parser's calls, in order
pub data Call : Type 0 where
  push_bound : ℕ → Call
  pop_bound : Call
  move_on : ℕ → ℕ → Call
  move_back : ℕ → ℕ → Call

pub step : SizeStack → Call → SizeStack
unfolding push pop advance rewind
step s (push_bound size) = (push s size).1
step s pop_bound = (pop s).1
step s (move_on dist space) = (advance s dist space).1
step s (move_back dist space) = (rewind s dist space).1

pub run : SizeStack → List Call → SizeStack
run s [] = s
run s (c ∷ calls) = run (step s c) calls
