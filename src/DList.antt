-- ===== src/DList.antt =====
-- common/list.c, include/list.h: the doubly linked list.
--
-- An element is its address; the memory is two functions from addresses to pointers, `next` and
-- `prev`, and a pointer is NULL, `none`, or an address. The writes are in the order of the source.
pub mod Seg
pub mod Join
pub mod Links
pub mod Refine
pub mod Walk
pub mod Tests
use dvb_vulture.Prelude.{
  ℕ, zero, suc, ◌+◌, List, [], ◌∷◌, Option, none, some, ◌==◌, if◌then◌else◌, map,
}

-- a `DList` and the `DListE` in memory
pub record Store : Type 0 where
  pub first : Option ℕ
  pub last : Option ℕ
  pub next : ℕ → Option ℕ
  pub prev : ℕ → Option ℕ

-- a write to the element at `a`
abbrev pub put : (ℕ → Option ℕ) → (a : ℕ) → Option ℕ → ℕ → Option ℕ
put links a p x = if x == a then p else links x

-- a write through a pointer that is not NULL
abbrev pub put_at : (ℕ → Option ℕ) → Option ℕ → Option ℕ → ℕ → Option ℕ
put_at links none p = links
put_at links (some a) p = put links a p

-- the new end of the list where there is no neighbour, or else the old end
abbrev pub end_or : (neighbour end new : Option ℕ) → Option ℕ
end_or none end new = new
end_or (some a) end new = end

-- `dlistInit`
pub init : Store → Store
init s = record s { first = none; last = none }

-- `dlistInsertFirst`
unfoldable pub insert_first : Store → ℕ → Store
insert_first s e = record {
  first = some e;
  last = end_or s.first s.last (some e);
  next = put s.next e s.first;
  prev = put_at (put s.prev e none) s.first (some e);
}

-- `dlistInsertLast`
unfoldable pub insert_last : Store → ℕ → Store
insert_last s e = record {
  first = end_or s.last s.first (some e);
  last = some e;
  next = put_at (put s.next e none) s.last (some e);
  prev = put s.prev e s.last;
}

-- `dlistInsertAfter`: `b` after `a`
unfoldable pub insert_after : Store → (a b : ℕ) → Store
insert_after s a b =
    let next' : ℕ → Option ℕ = put (put s.next b (s.next a)) a (some b) in
    record s {
      last = end_or (next' b) s.last (some b);
      next = next';
      prev = put_at (put s.prev b (some a)) (next' b) (some b);
    }

-- `dlistInsertBefore`: `a` before `b`
pub insert_before : Store → (a b : ℕ) → Store
insert_before s a b =
    let prev' : ℕ → Option ℕ = put (put s.prev a (s.prev b)) b (some a) in
    record s {
      first = end_or (prev' a) s.first (some a);
      next = put_at (put s.next a (some b)) (prev' a) (some a);
      prev = prev';
    }

-- `dlistRemove`
unfoldable pub remove : Store → ℕ → Store
remove s e = record {
  first = end_or (s.prev e) s.first (s.next e);
  last = end_or (s.next e) s.last (s.prev e);
  next = put (put_at s.next (s.prev e) (s.next e)) e none;
  prev = put (put_at s.prev (s.next e) (s.prev e)) e none;
}

-- What the loop of `dlistForEach` calls the function on; `dlistForEachRev` follows the other links.
-- The loop makes `fuel` rounds at most.
pub for_each : (links : ℕ → Option ℕ) → (fuel : ℕ) → Option ℕ → Option (List ℕ)
for_each links zero e = none
for_each links (suc fuel) none = some []
for_each links (suc fuel) (some e) = elim (for_each links fuel (links e)) [
  | none ↦ none
  | some rest ↦ some (e ∷ rest)
]

-- `dlistCount`
pub count : (links : ℕ → Option ℕ) → (fuel : ℕ) → Option ℕ → Option ℕ
count links zero e = none
count links (suc fuel) none = some 0
count links (suc fuel) (some e) = elim (count links fuel (links e)) [
  | none ↦ none
  | some rv ↦ some (rv + 1)
]
