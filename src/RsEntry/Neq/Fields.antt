-- ===== src/RsEntry/Neq/Fields.antt =====
-- The tests of `rsNeq` on single fields.
use dvb_vulture.Prelude.{
  ℕ, ◌≡◌, refl, subst, ap, ap₂, sym, List, [], ◌∷◌, none, some, Bool, true, false, not, ◌==◌, ◌||◌,
  if◌then◌else◌, inl, inr, Bool-cases, ==_iff, arith,
}
use mathlib.Core.Option.{some-injective, none-ne-some}
use dvb_vulture.RsEntry.{
  RsState, rs_idle, rs_waiting, rs_running, RsType, rst_once, rst_day, rst_week, rst_2week,
  rst_3week, rst_4week, rst_month, Int32, pos, negsuc, RsEntry,
}
use dvb_vulture.RsEntry.Neq.{Strings, text, state_code, type_code, id_eq, chars_eq, name_eq}

pub or_false : (a b : Bool) → (not a || b) ≡ false → (a ≡ true) × (b ≡ false)
or_false true false e = (refl, refl)
or_false true true e = (refl, e)
or_false false b e = absurd (ground (arith, e))

pub not-false : (a : Bool) → not a ≡ false → a ≡ true
not-false true e = refl
not-false false e = sym e

pub state_of : ℕ → RsState
state_of n = if n == 0 then rs_idle else if n == 1 then rs_waiting else rs_running

pub type_of : ℕ → RsType
type_of n =
    if n == 0
    then rst_once
    else if n == 1
    then rst_day
    else if n == 2
    then rst_week
    else if n == 3
    then rst_2week
    else if n == 4
    then rst_3week
    else if n == 5
    then rst_4week
    else rst_month

pub state_of-code : (s : RsState) → state_of (state_code s) ≡ s
unfolding state_of
state_of-code rs_idle = refl
state_of-code rs_waiting = refl
state_of-code rs_running = refl

pub type_of-code : (t : RsType) → type_of (type_code t) ≡ t
unfolding type_of
type_of-code rst_once = refl
type_of-code rst_day = refl
type_of-code rst_week = refl
type_of-code rst_2week = refl
type_of-code rst_3week = refl
type_of-code rst_4week = refl
type_of-code rst_month = refl

pub id_eq-true : (a b : Int32) → id_eq a b ≡ true → a ≡ b
unfolding id_eq
id_eq-true (pos a) (pos b) e = ap pos ((==_iff a b).0 e)
id_eq-true (pos a) (negsuc b) e = absurd (ground (arith, e))
id_eq-true (negsuc a) (pos b) e = absurd (ground (arith, e))
id_eq-true (negsuc a) (negsuc b) e = ap negsuc ((==_iff a b).0 e)

chars_eq-true : (a b : List ℕ) → chars_eq a b ≡ true → a ≡ b
unfolding chars_eq
chars_eq-true [] [] e = refl
chars_eq-true [] (b ∷ bs) e = absurd (ground (arith, e))
chars_eq-true (a ∷ cs) [] e = absurd (ground (arith, e))
chars_eq-true (a ∷ cs) (b ∷ bs) e = elim (Bool-cases (a == b)) [
  | inl f ↦ ap₂ (λ x xs. x ∷ xs) ((==_iff a b).0 f) (chars_eq-true cs bs (ground (arith, e, f)))
  | inr f ↦ absurd (ground (arith, e, f))
]

pub name_eq-true :
    (m : Strings) (p q : ℕ)
    → name_eq m p q ≡ true
    → (if p == 0 then none else some (text m p)) ≡ (if q == 0 then none else some (text m q))
unfolding name_eq
name_eq-true m p q e = elim (Bool-cases (p == 0)) [
  | inl f ↦ elim (Bool-cases (q == 0)) [
    | inl g ↦ rw (f, g) refl
    | inr g ↦ absurd (ground (arith, e, f, g))
  ]
  | inr f ↦ elim (Bool-cases (q == 0)) [
    | inl g ↦ absurd (ground (arith, e, f, g))
    | inr g ↦ rw (f, g) (ap some (chars_eq-true (text m p) (text m q) (ground (arith, e, f, g))))
  ]
]

pub fields_eq :
    (a b : RsEntry)
    → a.state ≡ b.state
    → a.type ≡ b.type
    → a.wd ≡ b.wd
    → a.flags ≡ b.flags
    → a.position ≡ b.position
    → a.pol ≡ b.pol
    → a.freq ≡ b.freq
    → a.pnr ≡ b.pnr
    → a.start_time ≡ b.start_time
    → a.duration ≡ b.duration
    → a.evt_id ≡ b.evt_id
    → record a { name = 0 } ≡ record b { name = 0 }
fields_eq a b e1 e2 e3 e4 e5 e6 e7 e8 e9 e10 e11 = cc

pub id_eq_refl : (a : Int32) → id_eq a a ≡ true
unfolding id_eq
id_eq_refl (pos a) = (==_iff a a).1 refl
id_eq_refl (negsuc a) = (==_iff a a).1 refl

chars_eq_refl : (a : List ℕ) → chars_eq a a ≡ true
unfolding chars_eq
chars_eq_refl [] = refl
chars_eq_refl (x ∷ a) = rw ((==_iff x x).1 refl) (chars_eq_refl a)

pub name_eq_same :
    (m : Strings) (p q : ℕ)
    → (if p == 0 then none else some (text m p)) ≡ (if q == 0 then none else some (text m q))
    → name_eq m p q ≡ true
unfolding name_eq
name_eq_same m p q e = elim (Bool-cases (p == 0)) [
  | inl f ↦ elim (Bool-cases (q == 0)) [
    | inl g ↦ rw (f, g) refl
    | inr g ↦ absurd (none-ne-some (text m q) (simp (f, g) at e))
  ]
  | inr f ↦ elim (Bool-cases (q == 0)) [
    | inl g ↦ absurd (none-ne-some (text m p) (sym (simp (f, g) at e)))
    | inr g ↦
        rw (f, g)
          (subst (λ s. chars_eq (text m p) s ≡ true)
            (some-injective (text m p) (text m q) (simp (f, g) at e)) (chars_eq_refl (text m p)))
  ]
]
