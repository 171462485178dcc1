-- ===== src/Lru/Tests.antt =====
-- A list of three elements.
use dvb_vulture.Prelude.{
  ℕ, ◌≡◌, refl, List, [], ◌∷◌, ◌++◌, none, some, ◌==◌, if◌then◌else◌, arith, inr,
}
use dvb_vulture.DList.{Store}
use dvb_vulture.DList.Join.{Holds}
use dvb_vulture.Lru.{Lru, init, clear, put_mid, get_size, fwd, remove}
use dvb_vulture.Lru.Balance.{IsLru}
use dvb_vulture.Lru.Keep.{put_mid-IsLru}
use dvb_vulture.Lru.Remove.{remove-IsLru}
use dvb_vulture.Lru.Last.{TakesLast, remove_last-IsLru}

abbrev memory : Store
memory = record {
  first = some 10;
  last = some 30;
  next = λ (a : ℕ). if a == 10 then some 20 else if a == 20 then some 30 else none;
  prev = λ (a : ℕ). if a == 30 then some 20 else if a == 20 then some 10 else none;
}

abbrev three : Lru
three = record {
  l = memory;
  before = 1;
  behind = 1;
  mid = some 20;
  part = λ (a : ℕ). if a == 10 then 0 else if a == 20 then 2 else 1;
}

memory-Holds : Holds memory (10 ∷ 20 ∷ 30 ∷ [])
memory-Holds = (
  refl,
  refl,
  (refl, refl, (refl, refl, (refl, refl, tt))),
  (
    ((λ e. absurd (omega arith)), ((λ e. absurd (omega arith)), tt)),
    (((λ e. absurd (omega arith)), tt), (tt, tt)),
  ),
)

three-IsLru : IsLru three (10 ∷ 20 ∷ 30 ∷ [])
three-IsLru = inr (
  10 ∷ [],
  20,
  30 ∷ [],
  refl,
  record {
    holds = memory-Holds;
    mid_is = refl;
    before_is = refl;
    behind_is = refl;
    left_part = (refl, tt);
    mid_part = refl;
    right_part = (refl, tt);
  },
  omega arith,
  omega arith,
)

-- the middle element leaves, and the one before it is the middle
remove-IsLru_example : (s' : Lru) × (remove three 20 ≡ some (0, s')) × IsLru s' (10 ∷ 30 ∷ [])
remove-IsLru_example = remove-IsLru three (10 ∷ []) 20 (30 ∷ []) three-IsLru

put_mid-IsLru_example :
    (s' : Lru) × (ys : List ℕ) × (zs : List ℕ) × (put_mid three 40 ≡ some s')
    × ((10 ∷ 20 ∷ 30 ∷ []) ≡ ys ++ zs)
    × IsLru s' (ys ++ (40 ∷ zs))
put_mid-IsLru_example =
    put_mid-IsLru three 40 (10 ∷ 20 ∷ 30 ∷ []) three-IsLru (
      (λ e. absurd (omega arith)),
      ((λ e. absurd (omega arith)), ((λ e. absurd (omega arith)), tt)),
    )

remove_last-IsLru_example : TakesLast three (10 ∷ 20 ∷ 30 ∷ [])
remove_last-IsLru_example = remove_last-IsLru three (10 ∷ 20 ∷ 30 ∷ []) three-IsLru

sizes : (get_size three ≡ 3) × (get_size (init memory three.part) ≡ 0)
unfolding get_size init
sizes = (refl, refl)

clear-all : (clear three 4).1 ≡ init memory three.part
unfolding clear
clear-all = refl

fwd-turns : (fwd three 30).mid ≡ some 30
unfolding fwd
fwd-turns = refl
