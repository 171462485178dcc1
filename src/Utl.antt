-- ===== src/Utl.antt =====
-- common/utl.c: buffers that grow as bytes are put behind those that they hold.
--
-- A `unsigned` has 32 bits. Whether the allocator has room for a number of bytes is an argument;
-- what fresh memory of `realloc` holds is 0 here, and nothing reads it. The concatenation of
-- strings, which works in the same way, is left out.
pub mod Grow
pub mod Tests
use dvb_vulture.Prelude.{
  ℕ, ◌+◌, ◌-◌, ◌*◌, ◌/◌, ◌%◌, ◌^◌, List, [], ◌∷◌, ◌++◌, length, take, drop, replicate, Option, none,
  some, Bool, ltb, leb, ◌==◌, if◌then◌else◌,
}
use dvb_vulture.Prelude.Buffer.{write}

-- The caller's pointer, the bytes in use and the bytes that are allocated.
pub record Growing : Type 0 where
  pub str : Option (List ℕ)
  pub size : ℕ
  pub alloc : ℕ

abbrev pub word : ℕ → ℕ
word n = n % 2 ^ 32

-- the memory that `utlSmartMemmove` goes on with, and its size; `none` where there is no room
pub make_room : (memory : ℕ → Bool) → Growing → (size2 : ℕ) → Option (List ℕ × ℕ)
make_room memory g size2 = elim g.str [
  | none ↦
      let alloc_sz = if ltb size2 128 then 128 else size2 in
      if memory alloc_sz then some (replicate alloc_sz 0, alloc_sz) else none
  | some str ↦
      let alloc_sz = word (g.size + size2 + 128) in
      if ltb g.alloc (word (g.size + size2))
      then (if memory alloc_sz
          then some (take alloc_sz str ++ replicate (alloc_sz - length str) 0, alloc_sz)
          else none)
      else some (str, g.alloc)
]

-- `utlSmartMemmove`; `none` as its source is NULL
pub smart_memmove : (memory : ℕ → Bool) → Growing → Option (List ℕ) → (size2 : ℕ) → ℕ × Growing
smart_memmove memory g none size2 = (1, g)
smart_memmove memory g (some str2) size2 = elim (make_room memory g size2) [
  | none ↦ (1, g)
  | some room ↦ (
    0,
    record {
      str = some (write room.0 g.size (take size2 str2));
      size = word (g.size + size2);
      alloc = room.1;
    },
  )
]

-- `utlAppend`: sizes count elements of `size2` bytes
pub append : (memory : ℕ → Bool) → Growing → Option (List ℕ) → (nmemb size2 : ℕ) → ℕ × Growing
append memory g str2 nmemb size2 =
    let bytes : Growing = record {
      str = g.str;
      size = word (g.size * size2);
      alloc = word (g.alloc * size2);
    } in
    let r = smart_memmove memory bytes str2 (word (nmemb * size2)) in
    if r.0 == 0
    then (0, record { str = r.1.str; size = r.1.size / size2; alloc = r.1.alloc / size2 })
    else (1, record { str = r.1.str; size = g.size; alloc = g.alloc })

-- `utlRmv`: the bytes and the count afterwards
pub rmv : List ℕ → (size e_sz idx : ℕ) → ℕ × List ℕ × ℕ
rmv str size e_sz idx =
    if leb size idx
    then (1, str, size)
    else if idx == size - 1
    then (0, write str (e_sz * idx) (replicate e_sz 0), size - 1)
    else (
      0,
      write str (e_sz * idx) (take ((size - idx - 1) * e_sz) (drop (e_sz * (idx + 1)) str)),
      size - 1,
    )
