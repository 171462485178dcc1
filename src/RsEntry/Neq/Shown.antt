-- ===== src/RsEntry/Neq/Shown.antt =====
-- What entries say, which is what `rsNeq` compares.
use dvb_vulture.Prelude.{
  ℕ, suc, ◌≡◌, ◌↔◌, refl, subst, ap, ap₂, sym, ◌∙◌, List, [], ◌∷◌, length, Option, none, some, true,
  false, not, ◌==◌, if◌then◌else◌, inl, inr, Bool-cases, ==_iff, arith,
}
use mathlib.Core.List.{head-eq_of_cons-eq, tail-eq_of_cons-eq}
use dvb_vulture.RsEntry.{RsEntry}
use dvb_vulture.RsEntry.Neq.{
  Strings, text, state_code, type_code, id_eq, rs_neq, neq_loop, rs_neq_sched,
}
use dvb_vulture.RsEntry.Neq.Fields.{
  or_false, not-false, state_of, type_of, state_of-code, type_of-code, id_eq-true, name_eq-true,
  fields_eq, id_eq_refl, name_eq_same,
}

-- what an entry says: its fields, and the string of its name
abbrev pub shown : Strings → RsEntry → RsEntry × Option (List ℕ)
shown m e = (record e { name = 0 }, if e.name == 0 then none else some (text m e.name))

abbrev pub shown_sched : Strings → List RsEntry → List (RsEntry × Option (List ℕ))
shown_sched m [] = []
shown_sched m (e ∷ sched) = shown m e ∷ shown_sched m sched

shown_of : (m : Strings) (a b : RsEntry) → rs_neq m a b ≡ false → shown m a ≡ shown m b
unfolding rs_neq
shown_of m a b e =
    let t1 = or_false (state_code a.state == state_code b.state) _ e in
    let t2 = or_false (type_code a.type == type_code b.type) _ t1.1 in
    let t3 = or_false (a.wd == b.wd) _ t2.1 in
    let t4 = or_false (a.flags == b.flags) _ t3.1 in
    let t5 = or_false (a.position == b.position) _ t4.1 in
    let t6 = or_false (a.pol == b.pol) _ t5.1 in
    let t7 = or_false (a.freq == b.freq) _ t6.1 in
    let t8 = or_false (a.pnr == b.pnr) _ t7.1 in
    let t9 = or_false (a.start_time == b.start_time) _ t8.1 in
    let t10 = or_false (a.duration == b.duration) _ t9.1 in
    let t11 = or_false (id_eq a.evt_id b.evt_id) _ t10.1 in
    ap₂ (λ fields name. (fields, name))
      (fields_eq a b (same_state t1.0) (same_type t2.0) ((==_iff a.wd b.wd).0 t3.0)
        ((==_iff a.flags b.flags).0 t4.0) ((==_iff a.position b.position).0 t5.0)
        ((==_iff a.pol b.pol).0 t6.0) ((==_iff a.freq b.freq).0 t7.0) ((==_iff a.pnr b.pnr).0 t8.0)
        ((==_iff a.start_time b.start_time).0 t9.0) ((==_iff a.duration b.duration).0 t10.0)
        (id_eq-true a.evt_id b.evt_id t11.0))
      (name_eq-true m a.name b.name (not-false _ t11.1))
  where
    same_state : (state_code a.state == state_code b.state) ≡ true → a.state ≡ b.state
    same_state f =
        sym (state_of-code a.state)
        ∙ ap state_of ((==_iff (state_code a.state) (state_code b.state)).0 f)
        ∙ state_of-code b.state

    same_type : (type_code a.type == type_code b.type) ≡ true → a.type ≡ b.type
    same_type f =
        sym (type_of-code a.type)
        ∙ ap type_of ((==_iff (type_code a.type) (type_code b.type)).0 f)
        ∙ type_of-code b.type

neq_of : (m : Strings) (a b : RsEntry) → shown m a ≡ shown m b → rs_neq m a b ≡ false
unfolding rs_neq
neq_of m a b e =
    let f = ap (λ s. s.0) e in
    rw
      (
        (==_iff (state_code a.state) (state_code b.state)).1 (ap (λ x. state_code x.state) f),
        (==_iff (type_code a.type) (type_code b.type)).1 (ap (λ x. type_code x.type) f),
        (==_iff a.wd b.wd).1 (ap (λ x. x.wd) f),
        (==_iff a.flags b.flags).1 (ap (λ x. x.flags) f),
        (==_iff a.position b.position).1 (ap (λ x. x.position) f),
        (==_iff a.pol b.pol).1 (ap (λ x. x.pol) f),
        (==_iff a.freq b.freq).1 (ap (λ x. x.freq) f),
        (==_iff a.pnr b.pnr).1 (ap (λ x. x.pnr) f),
        (==_iff a.start_time b.start_time).1 (ap (λ x. x.start_time) f),
        (==_iff a.duration b.duration).1 (ap (λ x. x.duration) f),
        subst (λ x. id_eq a.evt_id x ≡ true) (ap (λ x. x.evt_id) f) (id_eq_refl a.evt_id),
        name_eq_same m a.name b.name (ap (λ s. s.1) e),
      )
      refl

sched_of :
    (m : Strings) (a b : List RsEntry)
    → length a ≡ length b
    → neq_loop m a b ≡ 0
    → shown_sched m a ≡ shown_sched m b
unfolding neq_loop
sched_of m [] [] l e = refl
sched_of m [] (y ∷ b) l e = absurd (omega arith)
sched_of m (x ∷ a) [] l e = absurd (omega arith)
sched_of m (x ∷ a) (y ∷ b) l e = elim (Bool-cases (rs_neq m x y)) [
  | inl f ↦ absurd (ground (arith, e, f))
  | inr f ↦
      ap₂ (λ s ss. s ∷ ss) (shown_of m x y f) (sched_of m a b (omega arith) (ground (arith, e, f)))
]

length-shown_sched : (m : Strings) (a : List RsEntry) → length (shown_sched m a) ≡ length a
length-shown_sched m [] = refl
length-shown_sched m (x ∷ a) = ap (λ (n : ℕ). suc n) (length-shown_sched m a)

neq_loop_of :
    (m : Strings) (a b : List RsEntry) → shown_sched m a ≡ shown_sched m b → neq_loop m a b ≡ 0
unfolding neq_loop
neq_loop_of m [] b e = refl
neq_loop_of m (x ∷ a) [] e = refl
neq_loop_of m (x ∷ a) (y ∷ b) e =
    rw (neq_of m x y (head-eq_of_cons-eq e)) (neq_loop_of m a b (tail-eq_of_cons-eq e))

-- Two schedules are found equal when they say the same, and only then.
pub rs_neq_sched_iff :
    (m : Strings) (a b : List RsEntry)
    → (rs_neq_sched m a b ≡ 0) ↔ (shown_sched m a ≡ shown_sched m b)
unfolding rs_neq_sched
rs_neq_sched_iff m a b = (forward, backward)
  where
    forward :
        (if not (length a == length b) then 1 else neq_loop m a b) ≡ 0
        → shown_sched m a ≡ shown_sched m b
    forward e = elim (Bool-cases (length a == length b)) [
      | inl l ↦ sched_of m a b ((==_iff (length a) (length b)).0 l) (ground (arith, e, l))
      | inr l ↦ absurd (ground (arith, e, l))
    ]

    backward :
        shown_sched m a ≡ shown_sched m b
        → (if not (length a == length b) then 1 else neq_loop m a b) ≡ 0
    backward e =
        let l = sym (length-shown_sched m a) ∙ ap length e ∙ length-shown_sched m b in
        rw ((==_iff (length a) (length b)).1 l) (neq_loop_of m a b e)
