-- ===== src/PidBuf.antt =====
-- stream/pidbuf.c: arrays of pids without duplicates.
--
-- An array and its count are the two variables that a caller keeps. The list is the memory that
-- the pointer has, of 16-bit elements, and `none` is NULL; the count is a `uint16_t`. Whether the
-- allocator has room for a number of elements is an argument, and what fresh memory of `realloc`
-- holds, which nothing reads, is 0 here. The debug print `pidbufDump` is left out.
pub mod Sets
pub mod Merge
pub mod Remove
pub mod Difference
pub mod Tests
use dvb_vulture.Prelude.{
  ℕ, zero, suc, ◌+◌, ◌-◌, ◌%◌, List, [], ◌∷◌, ◌++◌, length, take, drop, set, get_or, replicate,
  Option, none, some, Bool, true, false, ltb, ◌==◌, ◌||◌, not, if◌then◌else◌,
}
use dvb_vulture.Prelude.Buffer.{write}

pub record PidBuf : Type 0 where
  pub pids : Option (List ℕ)
  pub num : ℕ

-- whether an allocation of this many elements would succeed
abbrev pub Memory : Type 0
Memory = ℕ → Bool

-- what a pointer that may be NULL points to
abbrev pub elements : Option (List ℕ) → List ℕ
elements none = []
elements (some xs) = xs

-- `utlCalloc`, which gives NULL where it is asked for nothing
pub calloc : Memory → ℕ → Option (List ℕ)
calloc memory n = if n == 0 || not (memory n) then none else some (replicate n 0)

-- `utlRealloc`, which keeps what fits of the old elements
pub realloc : Memory → List ℕ → ℕ → Option (List ℕ)
realloc memory xs n = if memory n then some (take n xs ++ replicate (n - length xs) 0) else none

-- the loop of `pidbufContains`
pub scan : ℕ → List ℕ → (size : ℕ) → Bool
scan v xs zero = false
scan v [] (suc size) = false
scan v (x ∷ xs) (suc size) = (x == v) || scan v xs size

-- `pidbufContains`
pub contains : ℕ → Option (List ℕ) → (size : ℕ) → Bool
contains v none size = false
contains v (some xs) size = scan v xs size

-- what the loop of `pidbufMergeUniq` does with an element of `b`
pub place : ℕ → List ℕ → (final_num : ℕ) → List ℕ × ℕ
place v rv final_num =
    if scan v rv final_num then (rv, final_num) else (set rv final_num v, (final_num + 1) % 65536)

-- the loop of `pidbufMergeUniq`
pub merge_loop : List ℕ → List ℕ → (final_num : ℕ) → List ℕ × ℕ
merge_loop [] rv final_num = (rv, final_num)
merge_loop (v ∷ b) rv final_num = let s = place v rv final_num in merge_loop b s.0 s.1

-- `pidbufMergeUniq`: what it returns and what it writes to `num_ret`, if it does
pub merge_uniq : Memory → (a b : PidBuf) → Option (List ℕ) × Option ℕ
merge_uniq memory a b = elim (calloc memory ((a.num + b.num) % 65536)) [
  | none ↦ (none, none)
  | some rv ↦
      let s =
        merge_loop (take b.num (elements b.pids)) (write rv 0 (take a.num (elements a.pids)))
          a.num in
      (realloc memory s.0 s.1, some s.1)
]

-- `pidbufAddPid`: what it returns, and the caller's variables afterwards
pub add_pid : Memory → ℕ → PidBuf → Option (List ℕ) × PidBuf
add_pid memory pid p =
    if contains pid p.pids p.num
    then (p.pids, p)
    else elim (realloc memory (elements p.pids) (p.num + 1)) [
      | none ↦ (none, p)
      | some grown ↦
          let buf2 = set grown p.num pid in
          (some buf2, record { pids = some buf2; num = (p.num + 1) % 65536 })
    ]

-- The variables of `pidbufRmvPid`'s loop; `hit` is that `rv` is set.
pub record Removal : Type 0 where
  pub buf2 : List ℕ
  pub num2 : ℕ
  pub hit : Bool

-- the body of the loop
pub rmv_at : (pid i : ℕ) → Removal → Removal
rmv_at pid i r =
    if get_or r.buf2 i 0 == pid
    then record {
      buf2 = write r.buf2 i (take (r.num2 - i - 1) (drop (i + 1) r.buf2));
      num2 = r.num2 - 1;
      hit = true;
    }
    else r

-- The loop, with its variable i. As `num2` never grows, that many rounds are enough.
pub rmv_loop : (rounds pid i : ℕ) → Removal → Removal
rmv_loop zero pid i r = r
rmv_loop (suc rounds) pid i r =
    let rest = rmv_loop rounds pid (i + 1) (rmv_at pid i r) in if ltb i r.num2 then rest else r

-- `pidbufRmvPid`
pub rmv_pid : Memory → ℕ → PidBuf → Option (List ℕ) × PidBuf
rmv_pid memory pid p =
    let r = rmv_loop p.num pid 0 (record { buf2 = elements p.pids; num2 = p.num; hit = false }) in
    if r.hit
    then (
      realloc memory r.buf2 r.num2,
      record { pids = realloc memory r.buf2 r.num2; num = r.num2 },
    )
    else (none, p)

-- the loop of `pidbufDifference`
pub difference_loop : Memory → List ℕ → (b rv : PidBuf) → PidBuf
difference_loop memory [] b rv = rv
difference_loop memory (v ∷ a) b rv =
    let added = add_pid memory v rv in
    let there = contains v b.pids b.num in
    let rest = difference_loop memory a b (if there then rv else added.1) in
    if there then rest else elim added.0 [ none ↦ rv | some _ ↦ rest ]

-- `pidbufDifference`: the array that it returns, with `num_ret`
pub difference : Memory → (a b : PidBuf) → PidBuf
difference memory a b =
    difference_loop memory (take a.num (elements a.pids)) b (record { pids = none; num = 0 })

-- `pidbufDup`
pub dup : Memory → PidBuf → Option (List ℕ)
dup memory a = elim (calloc memory a.num) [
  | none ↦ none
  | some rv ↦ some (write rv 0 (take a.num (elements a.pids)))
]
