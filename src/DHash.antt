-- ===== src/DHash.antt =====
-- common/dhash.c, include/dhash.h: the hash table that grows and shrinks.
--
-- The table's lists are lists of the pointers that their elements hold, and what the pointers are
-- to is of any type. The hash function and the test for equality, whose 0 is `true` here, are
-- parameters; whether an allocation succeeds is an argument.
pub mod Buckets
pub mod View
pub mod Resize
pub mod Put
pub mod Remove
pub mod Stream
pub mod Tests
use dvb_vulture.Prelude.{
  ℕ, ◌+◌, ◌-◌, ◌*◌, ◌/◌, ◌%◌, ◌^◌, List, [], ◌∷◌, ◌++◌, Option, none, some, Bool, true, false, ltb,
  ◌&&◌, not, if◌then◌else◌, get_or, set, replicate,
}

-- `DHash`, without the two functions
pub record DHash {ℓ} (A : Type ℓ) : Type ℓ where
  pub tbl_size : ℕ
  pub num_entries : ℕ
  pub tbl : List (List A)

module _ {ℓ} {A : Type ℓ} where
  -- `dhashInit`
  pub init : (memory : Bool) → DHash A → ℕ × DHash A
  init memory h =
      if memory
      then (0, record { tbl_size = 32; num_entries = 0; tbl = replicate 32 [] })
      else (1, h)

  -- What `dhashForEach` calls the function on, and what `dhashClear` destroys, one after the other.
  abbrev pub entries : List (List A) → List A
  entries [] = []
  entries (l ∷ tbl) = l ++ entries tbl

  pub for_each : DHash A → List A
  for_each h = entries h.tbl

  pub clear : DHash A → List A × DHash A
  clear h = (entries h.tbl, record { tbl_size = 0; num_entries = 0; tbl = [] })

  -- `slistInsertLast` on the list at this index
  abbrev pub insert_last : List (List A) → ℕ → A → List (List A)
  insert_last tbl i e = set tbl i (get_or tbl i [] ++ (e ∷ []))

  module _ (hash : A → ℕ) (equals : A → A → Bool) where
    -- the loop of `dhashGet`, and that of `dhashRemove` up to the element
    abbrev pub seek : (ref : A) → List A → Option A
    seek ref [] = none
    seek ref (p ∷ l) = let rest = seek ref l in if equals p ref then some p else rest

    -- `dhashGet`
    pub get : DHash A → A → Option A
    get h ref = seek ref (get_or h.tbl (hash ref % h.tbl_size) [])

    -- a round of the outer loop of `dhashResize`
    abbrev pub move_list : (new_size : ℕ) → List A → List (List A) → List (List A)
    move_list n [] new_tbl = new_tbl
    move_list n (e ∷ l) new_tbl = move_list n l (insert_last new_tbl (hash e % n) e)

    abbrev pub move_all : (new_size : ℕ) → List (List A) → List (List A) → List (List A)
    move_all n [] new_tbl = new_tbl
    move_all n (l ∷ tbl) new_tbl = move_all n tbl (move_list n l new_tbl)

    -- `dhashResize`
    pub resize : (memory : Bool) → DHash A → (new_size : ℕ) → ℕ × DHash A
    resize memory h n =
        if memory
        then (0, record h { tbl_size = n; tbl = move_all n h.tbl (replicate n []) })
        else (1, h)

    -- `dhashGrow`
    abbrev pub grow : (memory : Bool) → DHash A → ℕ × DHash A
    grow memory h = resize memory h ((h.tbl_size * 2) % 2 ^ 32)

    -- `dhashShrink`
    abbrev pub shrink : (memory : Bool) → DHash A → ℕ × DHash A
    shrink memory h = resize memory h (h.tbl_size / 2)

    -- the list without the element that the loop of `dhashRemove` stops at
    abbrev pub unlink : (ref : A) → List A → List A
    unlink ref [] = []
    unlink ref (p ∷ l) = let rest = unlink ref l in if equals p ref then l else p ∷ rest

    abbrev pub unlinked : DHash A → A → DHash A
    unlinked h ref =
        let hv = hash ref % h.tbl_size in
        record h {
          tbl = set h.tbl hv (unlink ref (get_or h.tbl hv []));
          num_entries = (h.num_entries + (2 ^ 32 - 1)) % 2 ^ 32;
        }

    -- `dhashRemove`
    pub remove : (memory : Bool) → DHash A → A → Option A × DHash A
    remove memory h ref = elim (seek ref (get_or h.tbl (hash ref % h.tbl_size) [])) [
      | none ↦ (none, h)
      | some p ↦
          let h' = unlinked h ref in
          (
            some p,
            if ltb h'.num_entries (h'.tbl_size / 3) && ltb 32 h'.tbl_size
                then (shrink memory h').1
                else h',
          )
    ]

    abbrev pub appended : DHash A → A → DHash A
    appended h d = record h {
      tbl = insert_last h.tbl (hash d % h.tbl_size) d;
      num_entries = (h.num_entries + 1) % 2 ^ 32;
    }

    -- `dhashPut`, where the element and, to grow, the table may find memory
    pub put : (element memory : Bool) → DHash A → A → ℕ × DHash A
    put element memory h d = elim (get h d) [
      | some p ↦ (1, h)
      | none ↦
          let h' = appended h d in
          if not element
          then (1, h)
          else if ltb ((h'.tbl_size * 2) % 2 ^ 32 / 3) h'.num_entries
          then grow memory h'
          else (0, h')
    ]
