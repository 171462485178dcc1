-- ===== src/RsEntry/Neq.antt =====
-- common/rs_entry.c: the comparison of two entries and of two schedules.
--
-- The names of the entries are strings in memory, at the addresses that the entries hold: a list of
-- the strings that are allocated, each with its address and without its terminating zero. What the
-- program reads at an address where there is none is not defined; it is the empty string here.
use dvb_vulture.Prelude.{
  ℕ, suc, ◌≡◌, ◌↔◌, refl, subst, ap, ap₂, sym, ◌∙◌, List, [], ◌∷◌, length, Option, none, some, Bool,
  true, false, not, ◌==◌, ◌&&◌, ◌||◌, if◌then◌else◌, inl, inr, Bool-cases, ==_iff, arith,
}
pub mod Fields
pub mod Shown
use mathlib.Core.Option.{some-injective, none-ne-some}
use mathlib.Core.List.{head-eq_of_cons-eq, tail-eq_of_cons-eq}
use dvb_vulture.RsEntry.{
  RsState, rs_idle, rs_waiting, rs_running, RsType, rst_once, rst_day, rst_week, rst_2week,
  rst_3week, rst_4week, rst_month, Int32, pos, negsuc, RsEntry,
}

abbrev pub Strings : Type 0
Strings = List (ℕ × List ℕ)

abbrev pub at_address : Strings → ℕ → Option (List ℕ)
at_address [] p = none
at_address ((q, chars) ∷ m) p = if q == p then some chars else at_address m p

abbrev pub chars_of : Option (List ℕ) → List ℕ
chars_of none = []
chars_of (some chars) = chars

abbrev pub text : Strings → ℕ → List ℕ
text m p = chars_of (at_address m p)

-- equality of the fields' types
abbrev pub state_code : RsState → ℕ
state_code rs_idle = 0
state_code rs_waiting = 1
state_code rs_running = 2

abbrev pub type_code : RsType → ℕ
type_code rst_once = 0
type_code rst_day = 1
type_code rst_week = 2
type_code rst_2week = 3
type_code rst_3week = 4
type_code rst_4week = 5
type_code rst_month = 6

pub id_eq : Int32 → Int32 → Bool
id_eq (pos a) (pos b) = a == b
id_eq (pos a) (negsuc b) = false
id_eq (negsuc a) (pos b) = false
id_eq (negsuc a) (negsuc b) = a == b

-- `strcmp` gives 0
pub chars_eq : List ℕ → List ℕ → Bool
chars_eq [] [] = true
chars_eq [] (b ∷ bs) = false
chars_eq (a ∷ cs) [] = false
chars_eq (a ∷ cs) (b ∷ bs) = (a == b) && chars_eq cs bs

-- the tests on the names
pub name_eq : Strings → ℕ → ℕ → Bool
name_eq m p q = if p == 0 then q == 0 else if q == 0 then false else chars_eq (text m p) (text m q)

-- `rsNeq`
pub rs_neq : Strings → RsEntry → RsEntry → Bool
rs_neq m a b =
    not (state_code a.state == state_code b.state)
    || (not (type_code a.type == type_code b.type)
        || (not (a.wd == b.wd)
            || (not (a.flags == b.flags)
                || (not (a.position == b.position)
                    || (not (a.pol == b.pol)
                        || (not (a.freq == b.freq)
                            || (not (a.pnr == b.pnr)
                                || (not (a.start_time == b.start_time)
                                    || (not (a.duration == b.duration)
                                        || (not (id_eq a.evt_id b.evt_id)
                                            || not (name_eq m a.name b.name)))))))))))

-- the loop of `rsNeqSched`
pub neq_loop : Strings → List RsEntry → List RsEntry → ℕ
neq_loop m [] b = 0
neq_loop m (x ∷ a) [] = 0
neq_loop m (x ∷ a) (y ∷ b) = let rest = neq_loop m a b in if rs_neq m x y then 2 else rest

-- `rsNeqSched`
pub rs_neq_sched : Strings → List RsEntry → List RsEntry → ℕ
rs_neq_sched m a b = if not (length a == length b) then 1 else neq_loop m a b
