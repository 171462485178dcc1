-- ===== src/Lru.antt =====
-- stream/lru.c, stream/lru.h: the self-sorting list, on the doubly linked list of common/list.c.
--
-- An element is its address, and `where` is a function from addresses. A function returns `none`
-- where the code would follow a NULL pointer or count below 0.
pub mod Split
pub mod Balance
pub mod Keep
pub mod Steps
pub mod Leave
pub mod Remove
pub mod Last
pub mod Turn
pub mod Forward
pub mod Tests
use dvb_vulture.Prelude.{
  List, ◌>>=◌, ℕ, zero, suc, ◌+◌, List, [], ◌∷◌, Option, none, some, Bool, true, false, ◌&&◌, ◌==◌,
  ltb, if◌then◌else◌,
}
use dvb_vulture.DList.{Store}
use dvb_vulture.DList

-- `LRU`, and the `where` of the `LRUE` in memory
pub record Lru : Type 0 where
  pub l : Store
  pub before : ℕ
  pub behind : ℕ
  pub mid : Option ℕ
  pub part : ℕ → ℕ

-- a write to the `where` of the element at `a`
abbrev pub put_part : (ℕ → ℕ) → (a v : ℕ) → ℕ → ℕ
put_part part a v x = if x == a then v else part x

abbrev pub less_one : ℕ → Option ℕ
less_one zero = none
less_one (suc n) = some n

-- `LRUInit`
pub init : Store → (part : ℕ → ℕ) → Lru
init memory part = record { l = DList.init memory; before = 0; behind = 0; mid = none; part = part }

-- `LRUClear`: what `destroy` is called on, and the list
pub clear : Lru → (fuel : ℕ) → Option (List ℕ) × Lru
clear s fuel = (DList.for_each s.l.next fuel s.l.first, init s.l s.part)

-- `lru_l`, whose `before` is not 0
abbrev to_left : Lru → (before : ℕ) → Option Lru
to_left s n = do
  m ← s.mid
  p ← s.l.prev m
  some (record s {
    part = put_part (put_part s.part m 1) p 2;
    mid = some p;
    before = n;
    behind = s.behind + 1;
  })

pub lru_l : Lru → Option Lru
lru_l s = elim s.before [ zero ↦ some s | suc n ↦ to_left s n ]

-- `lru_r`, whose `behind` is not 0
abbrev to_right : Lru → (behind : ℕ) → Option Lru
to_right s n = do
  m ← s.mid
  q ← s.l.next m
  some (record s {
    part = put_part (put_part s.part m 0) q 2;
    mid = some q;
    before = s.before + 1;
    behind = n;
  })

pub lru_r : Lru → Option Lru
lru_r s = elim s.behind [ zero ↦ some s | suc n ↦ to_right s n ]

-- `lru_balance`
pub lru_balance : Lru → Option Lru
lru_balance s =
    if (s.before == 0) && (s.behind == 0)
    then some s
    else if ltb (s.before + 1) s.behind
    then lru_r s
    else if ltb s.behind s.before
    then lru_l s
    else some s

-- `LRUPutMid`
pub put_mid : Lru → ℕ → Option Lru
put_mid s e = elim s.l.first [
  | none ↦ some (record {
    l = DList.insert_first s.l e;
    before = 0;
    behind = 0;
    mid = some e;
    part = put_part s.part e 2;
  })
  | some f ↦ do
    m ← s.mid
    if ltb s.before s.behind
        then some (record s {
          l = DList.insert_before s.l e m;
          before = s.before + 1;
          part = put_part s.part e 0;
        })
        else some (record s {
          l = DList.insert_after s.l m e;
          behind = s.behind + 1;
          part = put_part s.part e 1;
        })
]

-- `LRUGetSize`
pub get_size : Lru → ℕ
get_size s = elim s.mid [ none ↦ 0 | some m ↦ s.before + s.behind + 1 ]

abbrev emptied : Lru → Lru
emptied s = record s { mid = none; behind = 0; before = 0 }

-- the part of `LRURemoveLast` that counts the last element out
abbrev count_last : Lru → Option Lru
count_last s = do
  behind ← less_one s.behind
  if ltb behind s.before
      then lru_l (record s { behind = behind })
      else some (record s { behind = behind })

-- `LRURemoveLast`: the element, and the list
pub remove_last : Lru → Option (Option ℕ × Lru)
remove_last s = elim s.l.first [
  | none ↦ some (none, s)
  | some f ↦ do
    e ← s.l.last
    let s' = record s { l = DList.remove s.l e }
    s'' ← elim s'.l.first [ none ↦ some (emptied s') | some f' ↦ count_last s' ]
    some (some e, s'')
]

abbrev is_mid : Lru → ℕ → Bool
is_mid s e = elim s.mid [ none ↦ false | some m ↦ m == e ]

-- the part of `LRUFwd` that moves `mid`
abbrev fwd_mid : Lru → (e prev : ℕ) → Lru
fwd_mid s e p =
    if is_mid s e
    then record s { part = put_part (put_part s.part e 0) p 2; mid = some p }
    else if is_mid s p
    then record s { part = put_part (put_part s.part p 1) e 2; mid = some e }
    else s

-- `LRUFwd`
pub fwd : Lru → ℕ → Lru
fwd s e = elim (s.l.prev e) [
  | none ↦ s
  | some p ↦
      let s' = fwd_mid s e p in record s' { l = DList.insert_before (DList.remove s'.l e) e p }
]

-- The part of `LRURemove` that moves `mid` off the element.
abbrev leave_mid : Lru → ℕ → Option Lru
leave_mid s e = elim (s.l.prev e) [
  | some p ↦ do
    before ← less_one s.before
    some (record s {
      mid = some p;
      part = put_part (put_part s.part e 1) p 2;
      before = before;
      behind = s.behind + 1;
    })
  | none ↦ elim (s.l.next e) [
    | some q ↦ do
      behind ← less_one s.behind
      some (record s {
        mid = some q;
        part = put_part (put_part s.part e 0) q 2;
        before = s.before + 1;
        behind = behind;
      })
    | none ↦ some (record s { mid = none })
  ]
]

-- The part of it that counts the element out.
abbrev count_out : Lru → ℕ → Option Lru
count_out s e =
    if s.part e == 0
    then (do before ← less_one s.before; some (record s { before = before }))
    else if s.part e == 1
    then (do behind ← less_one s.behind; some (record s { behind = behind }))
    else some (emptied s)

-- `LRURemove`
pub remove : Lru → ℕ → Option (ℕ × Lru)
remove s e = elim s.l.first [
  | none ↦ some (1, s)
  | some f ↦ do
    s1 ← if is_mid s e then leave_mid s e else some s
    s2 ← count_out (record s1 { l = DList.remove s1.l e }) e
    s3 ← lru_balance s2
    some (0, s3)
]
