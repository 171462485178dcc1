-- ===== src/SList.antt =====
-- common/list.c, include/list.h: the singly linked list, in the memory of DList without the links
-- back.
pub mod Refine
pub mod Tests
use dvb_vulture.Prelude.{ℕ, Option, none, some}
use dvb_vulture.DList.{put, put_at, end_or}

-- an `SList` and the `SListE` in memory
pub record SList : Type 0 where
  pub first : Option ℕ
  pub last : Option ℕ
  pub next : ℕ → Option ℕ

-- `slistInit`
pub init : SList → SList
init s = record s { first = none; last = none }

-- `slistInsertFirst`
pub insert_first : SList → ℕ → SList
insert_first s e = record {
  first = some e;
  last = end_or s.first s.last (some e);
  next = put s.next e s.first;
}

-- `slistInsertLast`
pub insert_last : SList → ℕ → SList
insert_last s e = record {
  first = end_or s.last s.first (some e);
  last = some e;
  next = put_at (put s.next e none) s.last (some e);
}

-- `slistInsertAfter`: `b` after `a`, or, where that is NULL, first
pub insert_after : SList → (a : Option ℕ) → (b : ℕ) → SList
insert_after s none b =
    let next' : ℕ → Option ℕ = put s.next b s.first in
    record { first = some b; last = end_or (next' b) s.last (some b); next = next' }
insert_after s (some a) b =
    let next' : ℕ → Option ℕ = put (put s.next b (s.next a)) a (some b) in
    record s { last = end_or (next' b) s.last (some b); next = next' }

-- `slistRemoveFirst`: the element, and the list
pub remove_first : SList → Option ℕ × SList
remove_first s = elim s.first [
  | none ↦ (none, s)
  | some f ↦ (
    some f,
    record { first = s.next f; last = end_or (s.next f) s.last none; next = put s.next f none },
  )
]

-- `slistRemoveNext`: the element after `e`, or, where that is NULL, the first
pub remove_next : SList → (e : Option ℕ) → Option ℕ × SList
remove_next s none = remove_first s
remove_next s (some e) = elim (s.next e) [
  | none ↦ (none, s)
  | some n ↦
      let next' : ℕ → Option ℕ = put (put s.next e (s.next n)) n none in
      (some n, record s { last = end_or (next' e) s.last (some e); next = next' })
]
