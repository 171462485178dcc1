-- ===== src/SecEx/Release.antt =====
-- Every packet that is put into the extractor goes back to the selector exactly once.
use dvb_vulture.Prelude.{
  ℕ, ◌+◌, ◌≡◌, refl, ap, sym, ◌∙◌, subst, List, [], ◌∷◌, ◌++◌, Option, none, some, Bool, true,
  false, arith, inl, inr, ◌⊎◌, Bool-cases, ◌==◌, if◌then◌else◌, map,
}
use dvb_vulture.Packet.{get_pid}
use dvb_vulture.SecEx.{
  Packet, Spans, invalid, ranges, get_ranges, SecState, new_state, Step, collect, gathering,
  starting, resumed, resuming, dispatch, process, States, find_state, put_state, get_or_ins, put,
  run, held_by, held, flush, end_of,
}
use dvb_vulture.SecEx.Refine.{collect_keeps, dispatch_phase}

abbrev pub count : ℕ → List ℕ → ℕ
count x [] = 0
count x (y ∷ ys) = (if y == x then 1 else 0) + count x ys

pub count-append : (x : ℕ) (ys zs : List ℕ) → count x (ys ++ zs) ≡ count x ys + count x zs
count-append x [] zs = omega arith
count-append x (y ∷ ys) zs = omega (arith, count-append x ys zs)

-- A packet is held back just in state 2, and there is no other state.
abbrev pub InPhase : SecState → Type 0
InPhase st =
    ((st.state ≡ 0) × (st.aux ≡ none))
    ⊎ ((st.state ≡ 1) × (st.aux ≡ none))
    ⊎ ((st.state ≡ 2) × ((q : Packet) × (st.aux ≡ some q)))

abbrev held_of : Option Packet → List ℕ
held_of o = elim o [ none ↦ [] | some q ↦ q.id ∷ [] ]

-- what a call on one state owes: the packet it got and the one it held are released or held
abbrev Balanced : ℕ → SecState → Packet → Step → Type 0
Balanced x st p r =
    InPhase r.after
    × (count x r.released + count x (held_by r.after) ≡ count x (held_by st) + count x (p.id ∷ []))

module _ (x : ℕ) where
  gathering-Balanced :
      (st : SecState) (p : Packet) (a b : ℕ) (c : Option ℕ) (before : List ℕ)
      → st.state ≡ 1
      → st.aux ≡ none
      → InPhase (gathering st p a b c before).after
        × (count x (gathering st p a b c before).released
              + count x (held_by (gathering st p a b c before).after)
            ≡ count x before + count x (p.id ∷ []))
  unfolding gathering
  gathering-Balanced st p a b none before s e =
      let kept = collect_keeps st p.bytes a b in
      (
        inr (inl (kept.0 ∙ s, kept.1 ∙ e)),
        omega
            (arith, count-append x before (p.id ∷ []), ap (λ o. count x (held_of o)) (kept.1 ∙ e)),
      )
  gathering-Balanced st p a b (some c) before s e = (inr (inr (refl, (p, refl))), refl)

  starting-Balanced :
      (st : SecState) (p : Packet) (b : ℕ) (c : Option ℕ)
      → st.state ≡ 0
      → st.aux ≡ none
      → Balanced x st p (starting st p b c)
  unfolding starting
  starting-Balanced st p b none s e = (inl (s, e), omega arith)
  starting-Balanced st p b (some c) s e =
      let kept = collect_keeps st p.bytes b c in
      (inr (inl (refl, kept.1 ∙ e)), omega (arith, ap (λ o. count x (held_of o)) kept.1))

  resumed-Balanced :
      (st : SecState) (q p : Packet)
      → st.state ≡ 1
      → st.aux ≡ none
      → InPhase (resumed st q p).after
        × (count x (resumed st q p).released + count x (held_by (resumed st q p).after)
            ≡ count x (q.id ∷ []) + count x (p.id ∷ []))
  unfolding resumed
  resumed-Balanced st q p s e = by_ranges (get_ranges p.bytes) refl
    where
      by_ranges :
          (r : Spans)
          → get_ranges p.bytes ≡ r
          → InPhase (resumed st q p).after
            × (count x (resumed st q p).released + count x (held_by (resumed st q p).after)
                ≡ count x (q.id ∷ []) + count x (p.id ∷ []))
      by_ranges (invalid k) got =
          rw (got, resumed) (inr (inl (s, e)), omega (arith, ap (λ o. count x (held_of o)) e))
      by_ranges (ranges a b c) got =
          rw (got, resumed) (gathering-Balanced st p a b c (q.id ∷ []) s e)

  resuming-Balanced :
      (st : SecState) (q p : Packet) → st.aux ≡ some q → Balanced x st p (resuming st q p)
  unfolding resuming
  resuming-Balanced st q p e = by_ranges (get_ranges q.bytes) refl
    where
      by_ranges : (r : Spans) → get_ranges q.bytes ≡ r → Balanced x st p (resuming st q p)
      by_ranges (invalid k) got =
          rw (got, resuming) (inl (refl, refl), omega (arith, ap (λ o. count x (held_of o)) e))
      by_ranges (ranges a b c) got =
          let r =
            resumed-Balanced (record (collect st q.bytes b (end_of c)) { aux = none; state = 1 }) q
              p refl refl in
          rw (got, resuming) (r.0, r.1 ∙ omega (arith, ap (λ o. count x (held_of o)) e))

  dispatch-Balanced :
      (st : SecState) (p : Packet) (a b : ℕ) (c : Option ℕ)
      → InPhase st
      → Balanced x st p (dispatch st p a b c)
  dispatch-Balanced st p a b c (inl (s, e)) =
      subst (Balanced x st p) (sym ((dispatch_phase st p a b c).0 s))
        (starting-Balanced st p b c s e)
  dispatch-Balanced st p a b c (inr (inl (s, e))) =
      let r = gathering-Balanced st p a b c [] s e in
      subst (Balanced x st p) (sym ((dispatch_phase st p a b c).1 s))
        (r.0, r.1 ∙ omega (arith, ap (λ o. count x (held_of o)) e))
  dispatch-Balanced st p a b c (inr (inr (s, (q, e)))) =
      subst (Balanced x st p) (sym ((dispatch_phase st p a b c).2 q s e))
        (resuming-Balanced st q p e)

  process-Balanced : (st : SecState) (p : Packet) → InPhase st → Balanced x st p (process st p)
  unfolding process
  process-Balanced st p v = by_ranges (get_ranges p.bytes) refl
    where
      by_ranges : (r : Spans) → get_ranges p.bytes ≡ r → Balanced x st p (process st p)
      by_ranges (invalid k) got = rw (got, process) (v, omega arith)
      by_ranges (ranges a b c) got = rw (got, process) (dispatch-Balanced st p a b c v)

-- all states of the extractor
abbrev AllInPhase : States → Type 0
AllInPhase [] = Unit {0}
AllInPhase ((q, st) ∷ states) = InPhase st × AllInPhase states

find-InPhase :
    (pid : ℕ) (states : States) (st : SecState)
    → AllInPhase states
    → find_state pid states ≡ some st
    → InPhase st
unfolding find_state
find-InPhase pid [] st v h = cc
find-InPhase pid ((q, old) ∷ states) st v h = elim (Bool-cases (q == pid)) [
  | inl same ↦ let e : old ≡ st = ground arith in subst InPhase e v.0
  | inr other ↦ find-InPhase pid states st v.1 (ground arith)
]

put_state-InPhase :
    (pid : ℕ) (states : States) (st : SecState)
    → AllInPhase states
    → InPhase st
    → AllInPhase (put_state pid st states)
unfolding put_state
put_state-InPhase pid [] st v h = (h, tt)
put_state-InPhase pid ((q, old) ∷ states) st v h = elim (Bool-cases (q == pid)) [
  | inl same ↦ rw same (h, v.1)
  | inr other ↦ rw other (v.0, put_state-InPhase pid states st v.1 h)
]

-- what `put_state` does to the packets that are held
held-put_state :
    (x pid : ℕ) (states : States) (old st : SecState)
    → find_state pid states ≡ some old
    → count x (held (put_state pid st states)) + count x (held_by old)
      ≡ count x (held states) + count x (held_by st)
unfolding held put_state find_state
held-put_state x pid [] old st h = cc
held-put_state x pid ((q, s) ∷ states) old st h = elim (Bool-cases (q == pid)) [
  | inl same ↦
      let e : s ≡ old = ground arith in
      rw same (
        omega (
          arith,
          count-append x (held_by st) (held states),
          count-append x (held_by s) (held states),
          ap (λ t. count x (held_by t)) e,
        ))
  | inr other ↦ rw other (
      omega (
        arith,
        count-append x (held_by s) (held states),
        count-append x (held_by s) (held (put_state pid st states)),
        held-put_state x pid states old st (ground arith),
      ))
]

held-put_state_new :
    (x pid : ℕ) (states : States) (st : SecState)
    → find_state pid states ≡ none
    → count x (held (put_state pid st states)) ≡ count x (held states) + count x (held_by st)
unfolding held put_state find_state
held-put_state_new x pid [] st h = omega (arith, count-append x (held_by st) [])
held-put_state_new x pid ((q, s) ∷ states) st h = elim (Bool-cases (q == pid)) [
  | inl same ↦ absurd (ground arith)
  | inr other ↦ rw other (
      omega (
        arith,
        count-append x (held_by s) (held states),
        count-append x (held_by s) (held (put_state pid st states)),
        held-put_state_new x pid states st (ground arith),
      ))
]

put-Balanced :
    (x : ℕ) (memory : Bool) (states : States) (p : Packet)
    → AllInPhase states
    → AllInPhase (put memory states p).0
      × (count x (put memory states p).1 + count x (held (put memory states p).0)
          ≡ count x (held states) + count x (p.id ∷ []))
unfolding put get_or_ins
put-Balanced x memory states p v = by_state memory (find_state (get_pid p.bytes) states) refl
  where
    pid : ℕ
    pid = get_pid p.bytes

    by_state :
        (m : Bool) (o : Option SecState)
        → find_state pid states ≡ o
        → AllInPhase (put m states p).0
          × (count x (put m states p).1 + count x (held (put m states p).0)
              ≡ count x (held states) + count x (p.id ∷ []))
    by_state m (some st) found =
        let r = process-Balanced x st p (find-InPhase pid states st v found) in
        rw (found, put, get_or_ins)
          (
            put_state-InPhase pid states (process st p).after v r.0,
            omega (arith, r.1, held-put_state x pid states st (process st p).after found),
          )
    by_state true none found =
        let r = process-Balanced x new_state p (inl (refl, refl)) in
        rw (found, put, get_or_ins)
          (
            put_state-InPhase pid states (process new_state p).after v r.0,
            omega (arith, r.1, held-put_state_new x pid states (process new_state p).after found),
          )
    by_state false none found = rw (found, put, get_or_ins) (v, omega arith)

run-Balanced :
    (x : ℕ) (packets : List (Bool × Packet)) (states : States)
    → AllInPhase states
    → count x (run states packets).1 + count x (held (run states packets).0)
      ≡ count x (held states) + count x (map (λ c. c.1.id) packets)
unfolding run
run-Balanced x [] states v = omega arith
run-Balanced x ((m, p) ∷ packets) states v =
    let one = put-Balanced x m states p v in
    omega (
      arith,
      one.1,
      run-Balanced x packets (put m states p).0 one.0,
      count-append x (put m states p).1 (run (put m states p).0 packets).1,
    )

-- After any calls of `secExPut`, with or without memory, and a flush, each packet has been
-- released as often as it was put in.
pub run-flush_releases :
    (x : ℕ) (packets : List (Bool × Packet))
    → let (states, released) = run [] packets in
      count x (released ++ (flush states).1) ≡ count x (map (λ c. c.1.id) packets)
unfolding flush held
run-flush_releases x packets = omega (
  arith,
  count-append x (run [] packets).1 (held (run [] packets).0),
  run-Balanced x packets [] tt,
)
