-- ===== src/PidBuf/Difference.antt =====
-- `pidbufAddPid` and `pidbufDifference`.
use dvb_vulture.Prelude.{
  ℕ, ◌+◌, ◌-◌, ◌%◌, ◌≤◌, ◌<◌, ◌≡◌, refl, ap, sym, ◌∙◌, subst, ap₂, List, [], ◌∷◌, ◌++◌, length,
  take, set, Bool, true, false, ◌&&◌, not, if◌then◌else◌, arith, inl, inr, Bool-cases,
  length-append, some, Option, none, take_all,
}
use dvb_vulture.PidBuf.{
  PidBuf, Memory, elements, realloc, contains, add_pid, difference_loop, difference,
}
use dvb_vulture.PidBuf.Sets.{
  member, insert, insert_all, IsUnique, IsWhole, scan-member, length-insert, select, member-select,
  member-insert_all, IsUnique-insert_all,
}

pub contains_lem :
    (v : ℕ) (p : PidBuf) → IsWhole p → contains v p.pids p.num ≡ member v (elements p.pids)
unfolding contains
contains_lem v p w = by_pointer p.pids w
  where
    by_pointer :
        (o : Option (List ℕ))
        → p.num ≡ length (elements o)
        → contains v o p.num ≡ member v (elements o)
    by_pointer none e = refl
    by_pointer (some xs) e =
        scan-member v p.num xs ∙ ap (member v) (take_all p.num xs (omega arith))

-- The array holds these, and only these.
abbrev pub Is : PidBuf → List ℕ → Type 0
Is p xs = (elements p.pids ≡ xs) × IsWhole p

realloc_grows :
    (memory : Memory) (xs : List ℕ)
    → memory (length xs + 1) ≡ true
    → realloc memory xs (length xs + 1) ≡ some (xs ++ (0 ∷ []))
unfolding realloc
realloc_grows memory xs room =
    let one : length xs + 1 - length xs ≡ 1 = omega arith in
    let all : take (length xs + 1) xs ≡ xs = take_all (length xs + 1) xs (omega arith) in
    rw (room, one, all) refl

set_last : (xs : List ℕ) (v : ℕ) → set (xs ++ (0 ∷ [])) (length xs) v ≡ xs ++ (v ∷ [])
set_last [] v = refl
set_last (x ∷ xs) v = ap (λ t. x ∷ t) (set_last xs v)

add_pid_lem :
    (memory : Memory) (v : ℕ) (p : PidBuf)
    → ((n : ℕ) → 0 < n → memory n ≡ true)
    → IsWhole p
    → p.num < 65535
    → (member v (elements p.pids) ≡ true → add_pid memory v p ≡ (p.pids, p))
      × (member v (elements p.pids) ≡ false
          → let buf2 = elements p.pids ++ (v ∷ []) in
            add_pid memory v p ≡ (some buf2, record { pids = some buf2; num = p.num + 1 }))
unfolding add_pid
add_pid_lem memory v p room w small = (
  λ there. let old = contains_lem v p w ∙ there in rw old refl,
  λ new.
      let old = contains_lem v p w ∙ new in
      let next : (p.num + 1) % 65536 ≡ p.num + 1 = omega arith in
      let grown : realloc memory (elements p.pids) (p.num + 1)
          ≡ some (elements p.pids ++ (0 ∷ [])) =
        ap (λ (k : ℕ). realloc memory (elements p.pids) (k + 1)) w
        ∙ realloc_grows memory (elements p.pids)
            (room (length (elements p.pids) + 1) (omega arith)) in
      let last : set (elements p.pids ++ (0 ∷ [])) p.num v ≡ elements p.pids ++ (v ∷ []) =
        ap (λ (k : ℕ). set (elements p.pids ++ (0 ∷ [])) k v) w ∙ set_last (elements p.pids) v in
      rw (old, grown, next, last) refl,
)

pointer :
    (v : ℕ) (o : Option (List ℕ)) → member v (elements o) ≡ true → (ys : List ℕ) × (o ≡ some ys)
pointer v none h = absurd (ground (arith, h))
pointer v (some ys) h = (ys, refl)

-- The array afterwards, and that the result is not NULL.
abbrev Added : Option (List ℕ) × PidBuf → List ℕ → Type 0
Added out xs = Is out.1 xs × ((ys : List ℕ) × (out.0 ≡ some ys))

-- Neither outcome is NULL.
add_pid-Is :
    (memory : Memory) (v : ℕ) (p : PidBuf) (xs : List ℕ)
    → ((n : ℕ) → 0 < n → memory n ≡ true)
    → Is p xs
    → length xs < 65535
    → Added (add_pid memory v p) (insert v xs)
add_pid-Is memory v p xs room is small =
    let lem = add_pid_lem memory v p room is.1 (omega (arith, is.1, ap length is.0)) in
    elim (Bool-cases (member v xs)) [
      | inl there ↦
          let there' = ap (member v) is.0 ∙ there in
          rw there (subst (λ t. Added t xs) (sym (lem.0 there')) (is, pointer v p.pids there'))
      | inr new ↦
          let new' = ap (member v) is.0 ∙ new in
          let size = length-append (elements p.pids) (v ∷ []) in
          rw new (
            subst (λ t. Added t (xs ++ (v ∷ []))) (sym (lem.1 new'))
              (
                (ap (λ t. t ++ (v ∷ [])) is.0, omega (arith, is.1, size)),
                (elements p.pids ++ (v ∷ []), refl),
              ))
    ]

-- what `pidbufDifference` is after
abbrev outside : PidBuf → ℕ → Bool
outside b v = not (member v (elements b.pids))

difference_loop-nil : (memory : Memory) (b rv : PidBuf) → difference_loop memory [] b rv ≡ rv
unfolding difference_loop
difference_loop-nil memory b rv = refl

passes_over :
    (memory : Memory) (v : ℕ) (a : List ℕ) (b rv : PidBuf)
    → contains v b.pids b.num ≡ true
    → difference_loop memory (v ∷ a) b rv ≡ difference_loop memory a b rv
unfolding difference_loop
passes_over memory v a b rv found =
    ap
      (λ there.
        let rest = difference_loop memory a b (if there then rv else (add_pid memory v rv).1) in
        if there then rest else elim (add_pid memory v rv).0 [ none ↦ rv | some _ ↦ rest ])
      found

takes_in :
    (memory : Memory) (v : ℕ) (a ys : List ℕ) (b rv : PidBuf)
    → contains v b.pids b.num ≡ false
    → (add_pid memory v rv).0 ≡ some ys
    → difference_loop memory (v ∷ a) b rv ≡ difference_loop memory a b (add_pid memory v rv).1
unfolding difference_loop
takes_in memory v a ys b rv missed added =
    ap₂
      (λ there out.
        let rest = difference_loop memory a b (if there then rv else (add_pid memory v rv).1) in
        if there then rest else elim out [ none ↦ rv | some _ ↦ rest ])
      missed added

difference_loop-Is :
    (memory : Memory) (a : List ℕ) (b rv : PidBuf) (xs : List ℕ)
    → ((n : ℕ) → 0 < n → memory n ≡ true)
    → IsWhole b
    → Is rv xs
    → length xs + length a ≤ 65535
    → Is (difference_loop memory a b rv) (insert_all (select (outside b) a) xs)
difference_loop-Is memory [] b rv xs room w is small = nothing is
  where
    nothing : Is rv xs → Is (difference_loop memory [] b rv) xs
    nothing h = subst (λ t. Is t xs) (sym (difference_loop-nil memory b rv)) h
difference_loop-Is memory (v ∷ a) b rv xs room w is small =
    elim (Bool-cases (member v (elements b.pids))) [
      | inl there ↦
          let found = contains_lem v b w ∙ there in
          rw there (
            subst (λ t. Is t (insert_all (select (outside b) a) xs))
              (sym (passes_over memory v a b rv found))
              (difference_loop-Is memory a b rv xs room w is (omega arith)))
      | inr new ↦
          let missed = contains_lem v b w ∙ new in
          let added = add_pid-Is memory v rv xs room is (omega arith) in
          let rest =
            difference_loop-Is memory a b (add_pid memory v rv).1 (insert v xs) room w added.0
              (omega (arith, length-insert v xs)) in
          rw new (
            subst (λ t. Is t (insert_all (select (outside b) a) (insert v xs)))
              (sym (takes_in memory v a added.1.0 b rv missed added.1.1)) rest)
    ]

-- With memory, and for arrays whose counts are their lengths, the first count one of 16 bits,
-- `pidbufDifference` returns, with its count, an array without duplicates whose members are those
-- of the first array that the second does not contain, whatever duplicates the two arrays have.
pub difference_subtracts :
    (memory : Memory) (a b : PidBuf)
    → ((n : ℕ) → 0 < n → memory n ≡ true)
    → IsWhole a
    → IsWhole b
    → a.num < 65536
    → let d = difference memory a b in
      ((v : ℕ)
        → member v (elements d.pids)
          ≡ (member v (elements a.pids) && not (member v (elements b.pids))))
      × IsUnique (elements d.pids)
      × IsWhole d
unfolding difference
difference_subtracts memory a b room wa wb small =
    let xs = elements a.pids in
    let all : take a.num xs ≡ xs = take_all a.num xs (omega (arith, wa)) in
    let is =
      difference_loop-Is memory xs b (record { pids = none; num = 0 }) [] room wb (refl, refl)
        (omega (arith, wa)) in
    let kept = select (outside b) xs in
    rw all (
      λ v. ap (member v) is.0 ∙ member-insert_all v kept [] ∙ member-select v (outside b) xs,
      subst IsUnique (sym is.0) (IsUnique-insert_all kept [] tt),
      is.1,
    )
