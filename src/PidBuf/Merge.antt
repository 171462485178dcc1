-- ===== src/PidBuf/Merge.antt =====
-- `pidbufMergeUniq` joins two arrays.
use dvb_vulture.Prelude.{
  ℕ, ◌+◌, ◌-◌, ◌%◌, ◌≤◌, ◌<◌, ◌≡◌, refl, ap, sym, ◌∙◌, subst, ap₂, List, [], ◌∷◌, ◌++◌, length,
  take, drop, set, replicate, true, false, ◌==◌, ◌||◌, arith, inl, inr, Bool-cases, length-append,
  length-set, length-replicate, some, Option, take_all, take-append,
}
use dvb_vulture.Prelude.Buffer.{write, write_lem, length-write}
use dvb_vulture.PidBuf.{
  PidBuf, Memory, elements, calloc, realloc, scan, place, merge_loop, merge_uniq,
}
use dvb_vulture.PidBuf.Sets.{
  member, insert, insert_all, IsUnique, IsWhole, scan-member, take-set, length-insert,
  member-insert_all, IsUnique-insert_all, length-insert_all,
}

-- The memory begins with `xs`, which `n` counts.
abbrev Holds : List ℕ × ℕ → List ℕ → Type 0
Holds s xs = (take s.1 s.0 ≡ xs) × (s.1 ≡ length xs)

place-Holds :
    (v n : ℕ) (rv xs : List ℕ)
    → Holds (rv, n) xs
    → n < length rv
    → length rv < 65536
    → Holds (place v rv n) (insert v xs) × (length (place v rv n).0 ≡ length rv)
unfolding place
place-Holds v n rv xs h room small =
    let at : scan v rv n ≡ member v xs = scan-member v n rv ∙ ap (member v) h.0 in
    elim (Bool-cases (member v xs)) [
      | inl there ↦ rw (at, there) (h, refl)
      | inr new ↦
          let next : (n + 1) % 65536 ≡ n + 1 = omega arith in
          let more : take (n + 1) (set rv n v) ≡ xs ++ (v ∷ []) =
            take-set n rv v room ∙ ap (λ t. t ++ (v ∷ [])) h.0 in
          rw (at, new, next)
            ((more, omega (arith, length-append xs (v ∷ []), h.1)), length-set rv n v)
    ]

merge_loop-Holds :
    (b rv xs : List ℕ) (n : ℕ)
    → Holds (rv, n) xs
    → n + length b ≤ length rv
    → length rv < 65536
    → Holds (merge_loop b rv n) (insert_all b xs) × (length (merge_loop b rv n).0 ≡ length rv)
unfolding merge_loop
merge_loop-Holds [] rv xs n h room small = (h, refl)
merge_loop-Holds (v ∷ b) rv xs n h room small =
    let s = place-Holds v n rv xs h (omega arith) small in
    let rest =
      merge_loop-Holds b (place v rv n).0 (insert v xs) (place v rv n).1 s.0
        (omega (arith, s.0.1, s.1, h.1, length-insert v xs)) (omega (arith, s.1)) in
    (rest.0, rest.1 ∙ s.1)

pub realloc_shrinks :
    (memory : Memory) (xs : List ℕ) (n : ℕ)
    → memory n ≡ true
    → n ≤ length xs
    → realloc memory xs n ≡ some (take n xs)
unfolding realloc
realloc_shrinks memory xs n room h =
    let none_new : n - length xs ≡ 0 = omega arith in
    rw (room, none_new) (ap some (append_nil (take n xs)))
  where
    append_nil : (ys : List ℕ) → ys ++ [] ≡ ys
    append_nil [] = refl
    append_nil (y ∷ ys) = ap (λ t. y ∷ t) (append_nil ys)

take-elements : (p : PidBuf) → IsWhole p → take p.num (elements p.pids) ≡ elements p.pids
take-elements p w = take_all p.num (elements p.pids) (omega (arith, w))

filled-Holds :
    (xs : List ℕ) (n : ℕ)
    → length xs ≤ n
    → Holds (write (replicate n 0) 0 xs, length xs) xs × (length (write (replicate n 0) 0 xs) ≡ n)
filled-Holds xs n h =
    let size = length-replicate n 0 in
    let e = write_lem 0 xs (replicate n 0) (omega (arith, size)) in
    (
      (ap (take (length xs)) e ∙ take-append xs (drop (length xs) (replicate n 0)), refl),
      length-write xs (replicate n 0) 0 ∙ size,
    )

calloc_lem :
    (memory : Memory) (n : ℕ) → memory n ≡ true → 0 < n → calloc memory n ≡ some (replicate n 0)
unfolding calloc
calloc_lem memory n room h =
    let positive : (n == 0) ≡ false = ground arith in rw (positive, room) refl

abbrev finish : Memory → List ℕ × ℕ → Option (List ℕ) × Option ℕ
finish memory s = (realloc memory s.0 s.1, some s.1)

opened :
    (memory : Memory) (a b : PidBuf)
    → ((n : ℕ) → memory n ≡ true)
    → 0 < a.num + b.num
    → a.num + b.num < 65536
    → merge_uniq memory a b
      ≡ finish memory (
          merge_loop
            (take b.num (elements b.pids))
            (write (replicate (a.num + b.num) 0) 0 (take a.num (elements a.pids)))
            a.num)
unfolding merge_uniq
opened memory a b room some_pid small =
    let worst : (a.num + b.num) % 65536 ≡ a.num + b.num = omega arith in
    let rv = calloc_lem memory (a.num + b.num) (room (a.num + b.num)) some_pid in
    rw (worst, rv, merge_uniq) refl

finish_lem :
    (memory : Memory) (s : List ℕ × ℕ) (xs : List ℕ)
    → ((n : ℕ) → memory n ≡ true)
    → Holds s xs
    → s.1 ≤ length s.0
    → finish memory s ≡ (some xs, some (length xs))
finish_lem memory s xs room h fits =
    ap₂ (λ o n. (o, some n)) (realloc_shrinks memory s.0 s.1 (room s.1) fits ∙ ap some h.0) h.1

-- With memory, and for arrays whose counts are their lengths, with at least one and at most 65535
-- elements in all, `pidbufMergeUniq` joins the two: the result is allocated and its length is what
-- is written to `num_ret`, its members are those of either array, and it holds none twice if the
-- first array does not.
pub merge_uniq_joins :
    (memory : Memory) (a b : PidBuf)
    → ((n : ℕ) → memory n ≡ true)
    → IsWhole a
    → IsWhole b
    → 0 < a.num + b.num
    → a.num + b.num < 65536
    → (r : List ℕ) × (merge_uniq memory a b ≡ (some r, some (length r)))
      × ((v : ℕ) → member v r ≡ (member v (elements a.pids) || member v (elements b.pids)))
      × (IsUnique (elements a.pids) → IsUnique r)
merge_uniq_joins memory a b room wa wb some_pid small =
    let xs = elements a.pids in
    let ys = elements b.pids in
    let start = write (replicate (a.num + b.num) 0) 0 xs in
    let filled = filled-Holds xs (a.num + b.num) (omega (arith, wa)) in
    let size : length start ≡ a.num + b.num = filled.1 in
    let loop =
      merge_loop-Holds ys start xs a.num (subst (λ (k : ℕ). Holds (start, k) xs) (sym wa) filled.0)
        (omega (arith, wb, size)) (omega (arith, size)) in
    let fits = length-insert_all ys xs in
    let s = merge_loop ys start a.num in
    (
      insert_all ys xs,
      opened memory a b room some_pid small
          ∙ ap₂
              (λ first second.
                finish memory
                  (merge_loop second (write (replicate (a.num + b.num) 0) 0 first) a.num))
              (take-elements a wa) (take-elements b wb)
          ∙ finish_lem memory s (insert_all ys xs) room loop.0
              (omega (arith, loop.0.1, loop.1, fits, size, wa, wb)),
      λ v. member-insert_all v ys xs,
      IsUnique-insert_all ys xs,
    )
