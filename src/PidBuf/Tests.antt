-- ===== src/PidBuf/Tests.antt =====
-- Arrays of pids at concrete elements.
use dvb_vulture.Prelude.{
  ℕ, ◌≡◌, refl, List, [], ◌∷◌, length, true, false, none, some, ◌||◌, ◌&&◌, not, ◌==◌, arith,
}
use dvb_vulture.PidBuf.{
  PidBuf, Memory, elements, calloc, realloc, scan, place, merge_loop, merge_uniq, rmv_at, rmv_loop,
  rmv_pid, difference, dup,
}
use dvb_vulture.PidBuf.Sets.{member, IsUnique, IsWhole}
use dvb_vulture.PidBuf.Merge.{merge_uniq_joins}
use dvb_vulture.PidBuf.Remove.{rmv_pid_removes}
use dvb_vulture.PidBuf.Difference.{difference_subtracts}
use dvb_vulture.Prelude.Buffer.{write}

abbrev roomy : Memory
roomy n = true

abbrev three : PidBuf
three = record { pids = some (16 ∷ 17 ∷ 512 ∷ []); num = 3 }

abbrev two : PidBuf
two = record { pids = some (17 ∷ 600 ∷ []); num = 2 }

abbrev twins : PidBuf
twins = record { pids = some (17 ∷ 17 ∷ []); num = 2 }

merge_uniq_union : merge_uniq roomy three two ≡ (some (16 ∷ 17 ∷ 512 ∷ 600 ∷ []), some 4)
unfolding merge_uniq merge_loop place scan calloc realloc write
merge_uniq_union = refl

-- Duplicates within the first array stay.
merge_uniq-twins : merge_uniq roomy twins two ≡ (some (17 ∷ 17 ∷ 600 ∷ []), some 3)
unfolding merge_uniq merge_loop place scan calloc realloc write
merge_uniq-twins = refl

-- The second of two equal neighbours is passed over.
rmv_pid-twins : rmv_pid roomy 17 twins ≡ (some (17 ∷ []), record { pids = some (17 ∷ []); num = 1 })
unfolding rmv_pid rmv_loop rmv_at realloc write
rmv_pid-twins = refl

dup-three : dup roomy three ≡ some (16 ∷ 17 ∷ 512 ∷ [])
unfolding dup calloc write
dup-three = refl

merge_uniq_joins_example :
    (r : List ℕ) × (merge_uniq roomy three two ≡ (some r, some (length r)))
    × ((v : ℕ) → member v r ≡ (member v (elements three.pids) || member v (elements two.pids)))
    × (IsUnique (elements three.pids) → IsUnique r)
merge_uniq_joins_example =
    merge_uniq_joins roomy three two (λ n. refl) refl refl (omega arith) (omega arith)

rmv_pid_removes_example :
    let after = (rmv_pid roomy 17 three).1 in
    let left = elements after.pids in
    ((v : ℕ) → member v left ≡ (member v (elements three.pids) && not (v == 17)))
    × IsUnique left
    × IsWhole after
    × (member 17 (elements three.pids) ≡ true → (rmv_pid roomy 17 three).0 ≡ after.pids)
    × (member 17 (elements three.pids) ≡ false → rmv_pid roomy 17 three ≡ (none, three))
rmv_pid_removes_example =
    rmv_pid_removes roomy 17 three (λ n h. refl) refl (refl, (refl, (refl, tt)))

difference_subtracts_example :
    let d = difference roomy three two in
    ((v : ℕ)
      → member v (elements d.pids)
        ≡ (member v (elements three.pids) && not (member v (elements two.pids))))
    × IsUnique (elements d.pids)
    × IsWhole d
difference_subtracts_example =
    difference_subtracts roomy three two (λ n h. refl) refl refl (omega arith)
