-- ===== src/PidBuf/Remove.antt =====
-- `pidbufRmvPid` takes a pid out.
use dvb_vulture.Prelude.{
  ℕ, zero, suc, ◌+◌, ◌-◌, ◌≤◌, ◌<◌, ◌≡◌, refl, ap, sym, ◌∙◌, subst, subst₂, List, [], ◌∷◌, ◌++◌,
  length, take, drop, get_or, Bool, true, false, ◌==◌, ◌||◌, ◌&&◌, ==_iff, not, if◌then◌else◌,
  arith, inl, inr, Bool-cases, ltb, lt→ltb, le→ltb, length-append, length-take, Option, none,
  take_all, take-append, take-take_le,
}
use dvb_vulture.Prelude.Buffer.{write, write_lem, length-write}
use dvb_vulture.PidBuf.{PidBuf, Memory, elements, realloc, Removal, rmv_at, rmv_loop, rmv_pid}
use dvb_vulture.PidBuf.Sets.{member, IsUnique, IsWhole, select, member-select, IsUnique-select}
use dvb_vulture.PidBuf.Merge.{realloc_shrinks}

-- the loop on the elements that it has not reached: one that has moved up is passed over
pub sweep : ℕ → List ℕ → List ℕ
sweep pid [] = []
sweep pid (x ∷ []) = if x == pid then [] else x ∷ []
sweep pid (x ∷ y ∷ xs) = if x == pid then y ∷ sweep pid xs else x ∷ sweep pid (y ∷ xs)

-- the elements that count
abbrev counted : Removal → List ℕ
counted r = take r.num2 r.buf2

take_nil : (m : ℕ) → [] ≡ take {A = ℕ} m []
take_nil zero = refl
take_nil (suc m) = refl

drop-take : (k n : ℕ) (xs : List ℕ) → drop k (take n xs) ≡ take (n - k) (drop k xs)
drop-take zero n xs = let e : n - 0 ≡ n = omega arith in ap (λ (m : ℕ). take m xs) (sym e)
drop-take (suc k) zero [] = take_nil (0 - suc k)
drop-take (suc k) zero (x ∷ xs) =
    let e : 0 - suc k ≡ 0 = omega arith in ap (λ (m : ℕ). take m (drop k xs)) (sym e)
drop-take (suc k) (suc n) [] = take_nil (suc n - suc k)
drop-take (suc k) (suc n) (x ∷ xs) =
    let e : suc n - suc k ≡ n - k = omega arith in
    drop-take k n xs ∙ ap (λ (m : ℕ). take m (drop k xs)) (sym e)

drop_past : (front rest : List ℕ) (x : ℕ) → drop (length front + 1) (front ++ (x ∷ rest)) ≡ rest
drop_past [] rest x = refl
drop_past (f ∷ front) rest x =
    let e : suc (length front) + 1 ≡ suc (length front + 1) = omega arith in
    ap (λ (k : ℕ). drop k (f ∷ (front ++ (x ∷ rest)))) e ∙ drop_past front rest x

append_assoc : (xs ys zs : List ℕ) → xs ++ (ys ++ zs) ≡ (xs ++ ys) ++ zs
append_assoc [] ys zs = refl
append_assoc (x ∷ xs) ys zs = ap (λ t. x ∷ t) (append_assoc xs ys zs)

-- The one at `length front` is taken out.
module _ (front rest buf : List ℕ) (x n : ℕ) (e : take n buf ≡ front ++ (x ∷ rest))
    (fits : n ≤ length buf) where
  sizes : n ≡ length front + suc (length rest)
  sizes = omega (arith, length-take n buf, ap length e, length-append front (x ∷ rest), fits)

  before : take (length front) buf ≡ front
  before =
      sym (take-take_le (length front) n buf (omega (arith, sizes)))
      ∙ ap (take (length front)) e
      ∙ take-append front (x ∷ rest)

  behind : take (n - length front - 1) (drop (length front + 1) buf) ≡ rest
  behind =
      let k : n - length front - 1 ≡ n - (length front + 1) = omega arith in
      ap (λ (m : ℕ). take m (drop (length front + 1) buf)) k
      ∙ sym (drop-take (length front + 1) n buf)
      ∙ ap (drop (length front + 1)) e
      ∙ drop_past front rest x

  drop_one :
      take
        (n - 1)
        (write buf (length front) (take (n - length front - 1) (drop (length front + 1) buf)))
      ≡ front ++ rest
  drop_one =
      let junk = drop (length rest) (drop (length front) buf) in
      let k : n - 1 ≡ length (front ++ rest) = omega (arith, sizes, length-append front rest) in
      ap (λ t. take (n - 1) (write buf (length front) t)) behind
      ∙ ap (take (n - 1)) (write_lem (length front) rest buf (omega (arith, sizes, fits)))
      ∙ ap (λ t. take (n - 1) (t ++ (rest ++ junk))) before
      ∙ ap (take (n - 1)) (append_assoc front rest junk)
      ∙ ap (λ (m : ℕ). take m ((front ++ rest) ++ junk)) k
      ∙ take-append (front ++ rest) junk

get_or-front : (front rest : List ℕ) (x : ℕ) → get_or (front ++ (x ∷ rest)) (length front) 0 ≡ x
get_or-front [] rest x = refl
get_or-front (f ∷ front) rest x = get_or-front front rest x

get_or-take : (i n : ℕ) (xs : List ℕ) → i < n → get_or (take n xs) i 0 ≡ get_or xs i 0
get_or-take i zero xs h = absurd (omega arith)
get_or-take i (suc n) [] h = refl
get_or-take zero (suc n) (x ∷ xs) h = refl
get_or-take (suc i) (suc n) (x ∷ xs) h = get_or-take i n xs (omega arith)

-- The elements that count, whether one was taken out, and that they fit the memory.
abbrev Shows : Removal → (hit : Bool) → List ℕ → Type 0
Shows r hit xs = (counted r ≡ xs) × (r.hit ≡ hit) × (r.num2 ≤ length r.buf2)

num2_lem : (r : Removal) (hit : Bool) (xs : List ℕ) → Shows r hit xs → r.num2 ≡ length xs
num2_lem r hit xs s = omega (arith, length-take r.num2 r.buf2, ap length s.0, s.2)

stops : (rounds pid i : ℕ) (r : Removal) → r.num2 ≤ i → rmv_loop rounds pid i r ≡ r
unfolding rmv_loop
stops zero pid i r h = refl
stops (suc rounds) pid i r h = let past : ltb i r.num2 ≡ false = le→ltb i r.num2 h in rw past refl

goes_on :
    (rounds pid i : ℕ) (r : Removal)
    → i < r.num2
    → rmv_loop (suc rounds) pid i r ≡ rmv_loop rounds pid (i + 1) (rmv_at pid i r)
unfolding rmv_loop
goes_on rounds pid i r h = let here : ltb i r.num2 ≡ true = lt→ltb i r.num2 h in rw here refl

module _ (pid x : ℕ) (front rest : List ℕ) (r : Removal) (hit : Bool)
    (s : Shows r hit (front ++ (x ∷ rest))) where
  here : get_or r.buf2 (length front) 0 ≡ x
  here =
      let n = num2_lem r hit (front ++ (x ∷ rest)) s in
      sym (
        get_or-take (length front) r.num2 r.buf2 (omega (arith, n, length-append front (x ∷ rest))))
      ∙ ap (λ t. get_or t (length front) 0) s.0
      ∙ get_or-front front rest x

  rmv_at-hit : (x == pid) ≡ true → Shows (rmv_at pid (length front) r) true (front ++ rest)
  unfolding rmv_at
  rmv_at-hit same =
      let r' : Removal = record {
        buf2 =
            write r.buf2 (length front)
              (take (r.num2 - length front - 1) (drop (length front + 1) r.buf2));
        num2 = r.num2 - 1;
        hit = true;
      } in
      let opened : rmv_at pid (length front) r ≡ r' =
        ap (λ (k : ℕ). if k == pid then r' else r) here ∙ ap (λ b. if b then r' else r) same in
      subst (λ t. Shows t true (front ++ rest)) (sym opened)
        (
          drop_one front rest r.buf2 x r.num2 s.0 s.2,
          refl,
          omega (
            arith,
            s.2,
            length-write (take (r.num2 - length front - 1) (drop (length front + 1) r.buf2)) r.buf2
                (length front),
          ),
        )

  rmv_at-miss : (x == pid) ≡ false → rmv_at pid (length front) r ≡ r
  unfolding rmv_at
  rmv_at-miss other =
      let miss : (get_or r.buf2 (length front) 0 == pid) ≡ false =
        ap (λ (k : ℕ). k == pid) here ∙ other in
      rw miss refl

length-snoc : (front : List ℕ) (y : ℕ) → length front + 1 ≡ length (front ++ (y ∷ []))
length-snoc front y = omega (arith, length-append front (y ∷ []))

abbrev Swept : (rounds pid : ℕ) (front rest : List ℕ) → Removal → Bool → Type 0
Swept rounds pid front rest r hit =
    Shows (rmv_loop rounds pid (length front) r) (hit || member pid rest) (front ++ sweep pid rest)

or_false : (b : Bool) → (b || false) ≡ b
or_false true = refl
or_false false = refl

or_true : (b : Bool) → (b || true) ≡ true
or_true true = refl
or_true false = refl

-- A round, and what the others do from the next element on.
carry :
    (rounds pid z : ℕ) (front rest : List ℕ) (r : Removal) (hit : Bool)
    → length front < r.num2
    → Swept rounds pid (front ++ (z ∷ [])) rest (rmv_at pid (length front) r) hit
    → Shows
        (rmv_loop (suc rounds) pid (length front) r)
        (hit || member pid rest)
        (front ++ (z ∷ sweep pid rest))
carry rounds pid z front rest r hit inside s =
    let to = sym (append_assoc front (z ∷ []) (sweep pid rest)) in
    let from_next =
      ap (λ (k : ℕ). rmv_loop rounds pid k (rmv_at pid (length front) r)) (length-snoc front z) in
    subst₂ (λ t xs. Shows t (hit || member pid rest) xs)
      (sym (goes_on rounds pid (length front) r inside ∙ from_next)) to s

snoc-Shows :
    (r : Removal) (hit : Bool) (front rest : List ℕ) (z : ℕ)
    → Shows r hit (front ++ (z ∷ rest))
    → Shows r hit ((front ++ (z ∷ [])) ++ rest)
snoc-Shows r hit front rest z s = (s.0 ∙ append_assoc front (z ∷ []) rest, s.1, s.2)

loop_sweeps :
    (rounds pid : ℕ) (front rest : List ℕ) (r : Removal) (hit : Bool)
    → Shows r hit (front ++ rest)
    → length rest ≤ rounds
    → Swept rounds pid front rest r hit
unfolding sweep
loop_sweeps rounds pid front [] r hit s enough =
    let n = num2_lem r hit (front ++ []) s in
    let still = stops rounds pid (length front) r (omega (arith, n, length-append front [])) in
    subst₂ (λ t b. Shows t b (front ++ [])) (sym still) (sym (or_false hit)) s
loop_sweeps zero pid front (x ∷ rest) r hit s enough = absurd (omega arith)
loop_sweeps (suc rounds) pid front (x ∷ []) r hit s enough =
    let n = num2_lem r hit (front ++ (x ∷ [])) s in
    let inside : length front < r.num2 = omega (arith, n, length-append front (x ∷ [])) in
    elim (Bool-cases (x == pid)) [
      | inl same ↦
          let gone = rmv_at-hit pid x front [] r hit s same in
          let r' = rmv_at pid (length front) r in
          let n' = num2_lem r' true (front ++ []) gone in
          let over =
            stops rounds pid (length front + 1) r' (omega (arith, n', length-append front [])) in
          rw (same, or_true hit)
            (subst (λ t. Shows t true (front ++ []))
              (sym (goes_on rounds pid (length front) r inside ∙ over)) gone)
      | inr other ↦
          let kept = rmv_at-miss pid x front [] r hit s other in
          let rest_done =
            loop_sweeps rounds pid (front ++ (x ∷ [])) [] r hit (snoc-Shows r hit front [] x s)
              (omega arith) in
          rw other (
            carry rounds pid x front [] r hit inside
              (subst (λ t. Swept rounds pid (front ++ (x ∷ [])) [] t hit) (sym kept) rest_done))
    ]
loop_sweeps (suc rounds) pid front (x ∷ y ∷ rest) r hit s enough =
    let n = num2_lem r hit (front ++ (x ∷ y ∷ rest)) s in
    let inside : length front < r.num2 = omega (arith, n, length-append front (x ∷ y ∷ rest)) in
    elim (Bool-cases (x == pid)) [
      | inl same ↦
          let gone = rmv_at-hit pid x front (y ∷ rest) r hit s same in
          let rest_done =
            loop_sweeps rounds pid (front ++ (y ∷ [])) rest (rmv_at pid (length front) r) true
              (snoc-Shows (rmv_at pid (length front) r) true front rest y gone) (omega arith) in
          rw (same, or_true hit) (carry rounds pid y front rest r true inside rest_done)
      | inr other ↦
          let kept = rmv_at-miss pid x front (y ∷ rest) r hit s other in
          let rest_done =
            loop_sweeps rounds pid (front ++ (x ∷ [])) (y ∷ rest) r hit
              (snoc-Shows r hit front (y ∷ rest) x s) (omega arith) in
          rw other (
            carry rounds pid x front (y ∷ rest) r hit inside (
              subst (λ t. Swept rounds pid (front ++ (x ∷ [])) (y ∷ rest) t hit) (sym kept)
                rest_done))
    ]

abbrev pub other_than : ℕ → ℕ → Bool
other_than pid x = not (x == pid)

-- In an array without duplicates nothing is passed over that should go.
sweep-select : (pid : ℕ) (xs : List ℕ) → IsUnique xs → sweep pid xs ≡ select (other_than pid) xs
unfolding sweep
sweep-select pid [] u = refl
sweep-select pid (x ∷ []) u = ground arith
sweep-select pid (x ∷ y ∷ xs) u = elim (Bool-cases (x == pid)) [
  | inl same ↦
      let next : (y == pid) ≡ false = ground (arith, u.0) in
      rw (same, next) (ap (λ t. y ∷ t) (sweep-select pid xs u.1.1))
  | inr other ↦ rw other (ap (λ t. x ∷ t) (sweep-select pid (y ∷ xs) u.1))
]

start : PidBuf → Removal
start p = record { buf2 = elements p.pids; num2 = p.num; hit = false }

last : ℕ → PidBuf → Removal
last pid p = rmv_loop p.num pid 0 (start p)

last-Shows :
    (pid : ℕ) (p : PidBuf)
    → IsWhole p
    → Shows (last pid p) (member pid (elements p.pids)) (sweep pid (elements p.pids))
unfolding last start
last-Shows pid p w =
    let whole : take p.num (elements p.pids) ≡ elements p.pids =
      take_all p.num (elements p.pids) (omega (arith, w)) in
    loop_sweeps p.num pid [] (elements p.pids) (start p) false (whole, refl, omega (arith, w))
      (omega (arith, w))

realloc_fails :
    (memory : Memory) (xs : List ℕ) (n : ℕ) → memory n ≡ false → realloc memory xs n ≡ none
unfolding realloc
realloc_fails memory xs n failed = rw failed refl

shrunk :
    (memory : Memory) (xs : List ℕ) (n : ℕ)
    → ((k : ℕ) → 0 < k → memory k ≡ true)
    → n ≤ length xs
    → elements (realloc memory xs n) ≡ take n xs
shrunk memory xs zero room h = elim (Bool-cases (memory 0)) [
  | inl there ↦ ap elements (realloc_shrinks memory xs 0 there h)
  | inr failed ↦ ap elements (realloc_fails memory xs 0 failed)
]
shrunk memory xs (suc n) room h =
    ap elements (realloc_shrinks memory xs (suc n) (room (suc n) (omega arith)) h)

rmv_pid_lem :
    (memory : Memory) (pid : ℕ) (p : PidBuf)
    → let r = last pid p in
      let rv = realloc memory r.buf2 r.num2 in
      (r.hit ≡ true → rmv_pid memory pid p ≡ (rv, record { pids = rv; num = r.num2 }))
      × (r.hit ≡ false → rmv_pid memory pid p ≡ (none, p))
unfolding rmv_pid last start
rmv_pid_lem memory pid p = (λ hit. rw hit refl, λ miss. rw miss refl)

absent :
    (v pid : ℕ) (xs : List ℕ)
    → member pid xs ≡ false
    → member v xs ≡ (member v xs && not (v == pid))
absent v pid xs new = elim (Bool-cases (v == pid)) [
  | inl same ↦ rw (same, (==_iff v pid).0 same, new) refl
  | inr other ↦ rw other (either (member v xs))
]
  where
    either : (b : Bool) → b ≡ (b && true)
    either true = refl
    either false = refl

abbrev Removed : ℕ → PidBuf → Option (List ℕ) × PidBuf → Type 0
Removed pid p out =
    ((v : ℕ) → member v (elements out.1.pids) ≡ (member v (elements p.pids) && not (v == pid)))
    × IsUnique (elements out.1.pids)
    × IsWhole out.1
    × (member pid (elements p.pids) ≡ true → out.0 ≡ out.1.pids)
    × (member pid (elements p.pids) ≡ false → out ≡ (none, p))

-- With memory, and for an array without duplicates whose count is its length, `pidbufRmvPid` takes
-- just the pid out: what is left is without duplicates, its members are the others, and the count
-- is right; the new pointer is returned where the pid was in the array. Where it was not, NULL is
-- returned and nothing changes.
pub rmv_pid_removes :
    (memory : Memory) (pid : ℕ) (p : PidBuf)
    → ((n : ℕ) → 0 < n → memory n ≡ true)
    → IsWhole p
    → IsUnique (elements p.pids)
    → let after = (rmv_pid memory pid p).1 in
      let left = elements after.pids in
      ((v : ℕ) → member v left ≡ (member v (elements p.pids) && not (v == pid)))
      × IsUnique left
      × IsWhole after
      × (member pid (elements p.pids) ≡ true → (rmv_pid memory pid p).0 ≡ after.pids)
      × (member pid (elements p.pids) ≡ false → rmv_pid memory pid p ≡ (none, p))
rmv_pid_removes memory pid p room w u =
    let xs = elements p.pids in
    let r = last pid p in
    let shown = last-Shows pid p w in
    let opened = rmv_pid_lem memory pid p in
    elim (Bool-cases (member pid xs)) [
      | inl there ↦
          let left : elements (realloc memory r.buf2 r.num2) ≡ select (other_than pid) xs =
            shrunk memory r.buf2 r.num2 room shown.2 ∙ shown.0 ∙ sweep-select pid xs u in
          subst (Removed pid p) (sym (opened.0 (shown.1 ∙ there))) (
            λ v. ap (member v) left ∙ member-select v (other_than pid) xs,
            subst IsUnique (sym left) (IsUnique-select (other_than pid) xs u),
            num2_lem r (member pid xs) (sweep pid xs) shown
                ∙ ap length (sym (left ∙ sym (sweep-select pid xs u))),
            λ _. refl,
            λ new. absurd (ground (arith, there, new)),
          )
      | inr new ↦
          subst (Removed pid p) (sym (opened.1 (shown.1 ∙ new))) (
            λ v. absent v pid xs new,
            u,
            w,
            λ there. absurd (ground (arith, there, new)),
            λ _. refl,
          )
    ]
