-- ===== src/RsEntry/Copy.antt =====
-- common/rs_entry.c: copies of a schedule, and giving a schedule back to the allocator.
--
-- The strings of the names are in memory, and `strdup` puts a new one there. Where it puts it is
-- the C library's choice, a parameter: an address for a given memory, or 0. The array of the
-- entries is not part of this memory.
pub mod Names
pub mod Deep
use mathlib.Core.Option.{none-ne-some}
use dvb_vulture.Prelude.{
  ℕ, ◌≡◌, ◌≢◌, ◌⊎◌, ◌↔◌, refl, ap, ap₂, sym, ◌∙◌, subst, List, [], ◌∷◌, length, Option, none, some,
  Bool, true, false, not, ◌==◌, ◌||◌, if◌then◌else◌, inl, inr, Bool-cases, ==_iff, ==_ne, arith,
}
use dvb_vulture.RsEntry.{rs_idle, rst_once, pos, RsEntry}
use dvb_vulture.RsEntry.Neq.{Strings, at_address, chars_of, text, rs_neq_sched}
use dvb_vulture.RsEntry.Neq.Shown.{shown, shown_sched, rs_neq_sched_iff}

-- `strdup`, with the address that the library takes
unfoldable pub strdup : (room : Strings → ℕ) → Strings → List ℕ → Strings × ℕ
strdup room m chars = if room m == 0 then (m, 0) else ((room m, chars) ∷ m, room m)

-- `free`
pub release : Strings → ℕ → Strings
release [] p = []
release ((q, chars) ∷ m) p = let rest = release m p in if q == p then rest else (q, chars) ∷ rest

-- `rsClone`
unfoldable pub rs_clone : (room : Strings → ℕ) → Strings → RsEntry → Strings × RsEntry
rs_clone room m src =
    if not (src.name == 0)
    then (let d = strdup room m (text m src.name) in (d.0, record src { name = d.1 }))
    else (m, src)

-- the loop of `rsCloneSched`
unfoldable pub clone_loop : (room : Strings → ℕ) → Strings → List RsEntry → Strings × List RsEntry
clone_loop room m [] = (m, [])
clone_loop room m (e ∷ src) =
    let c = rs_clone room m e in let rest = clone_loop room c.0 src in (rest.0, c.1 ∷ rest.1)

-- `rsCloneSched`; `memory` is for the array, which is not asked for where there is no entry
unfoldable pub rs_clone_sched :
    (memory : Bool)
    → (room : Strings → ℕ) → Strings
    → List RsEntry
    → Strings × Option (List RsEntry)
rs_clone_sched memory room m src =
    if (length src == 0) || not memory
    then (m, none)
    else (let c = clone_loop room m src in (c.0, some c.1))

-- `rsClearEntry`
unfoldable pub rs_clear_entry : Strings → RsEntry → Strings × RsEntry
rs_clear_entry m sch = (
  release m sch.name,
  record {
    state = rs_idle;
    type = rst_once;
    wd = 0;
    flags = 0;
    position = 0;
    pol = 0;
    freq = 0;
    pnr = 0;
    start_time = 0;
    duration = 0;
    evt_id = pos 0;
    name = 0;
  },
)

-- the loop of `rsDestroy`
pub rs_destroy : Strings → List RsEntry → Strings
rs_destroy m [] = m
rs_destroy m (e ∷ sch) = rs_destroy (rs_clear_entry m e).0 sch
