-- ===== src/SecEx/Refine.antt =====
-- The extractor's state machine, with its buffer, index and held packet, does what `Spec` says.
use dvb_vulture.Prelude.{
  ℕ, ◌+◌, ◌-◌, ◌≤◌, ◌≡◌, refl, ap, sym, ◌∙◌, subst, subst₂, List, [], ◌∷◌, length, take, Option,
  none, some, arith, inl, inr, Bool-cases, length-take, ltb,
}
use dvb_vulture.Packet.{ts_len}
use dvb_vulture.SecEx.{
  Packet, Spans, invalid, ranges, get_ranges, max_sec_sz, end_of, SecState, Step, collect,
  gathering, starting, resumed, resuming, dispatch, process,
}
use dvb_vulture.SecEx.Ranges.{get_ranges_bounds}
use dvb_vulture.SecEx.Collect.{gathered, IsRoomy, collect-IsRoomy, gathered-collect}
use dvb_vulture.SecEx.Spec.{
  Progress, waiting, filling, holding, extend, fill, head_of, spec_at, spec,
}

-- a whole packet in which a section starts
abbrev pub IsOpener : Packet → Type 0
IsOpener q =
    (length q.bytes ≡ ts_len)
    × ((a : ℕ) × (b : ℕ) × (get_ranges q.bytes ≡ ranges a b (some ts_len)))

-- The state shows this progress.
abbrev pub Shows : SecState → Progress → Type 0
Shows st waiting = (st.state ≡ 0) × (st.aux ≡ none) × (st.buf_idx ≡ 0)
Shows st (filling xs) = (st.state ≡ 1) × (st.aux ≡ none) × (gathered st ≡ xs)
Shows st (holding q) = (st.state ≡ 2) × (st.aux ≡ some q) × (st.buf_idx ≡ 0) × IsOpener q

-- The buffer that is returned begins with these bytes.
abbrev pub Returned : Option (List ℕ) → Option (List ℕ) → Type 0
Returned none none = Unit {0}
Returned none (some xs) = ⊥
Returned (some body) none = ⊥
Returned (some body) (some xs) = take (length xs) body ≡ xs

abbrev pub Agrees : Step → Progress × Option (List ℕ) → Type 0
Agrees r (s, out) = IsRoomy r.after × Shows r.after s × Returned r.result out

pub collect_keeps :
    (st : SecState) (bytes : List ℕ) (from to : ℕ)
    → ((collect st bytes from to).state ≡ st.state) × ((collect st bytes from to).aux ≡ st.aux)
unfolding collect
collect_keeps st bytes from to = elim (Bool-cases (ltb max_sec_sz (to - from + st.buf_idx))) [
  | inl out ↦ rw out (refl, refl)
  | inr room ↦ rw room (refl, refl)
]

gathered_returned :
    (st : SecState) (ys : List ℕ) → IsRoomy st → gathered st ≡ ys → take (length ys) st.body ≡ ys
gathered_returned st ys v e =
    let size : length (gathered st) ≡ st.buf_idx =
      omega (arith, length-take st.buf_idx st.body, v.size, v.within) in
    subst (λ t. take (length t) st.body ≡ t) e (ap (λ (k : ℕ). take k st.body) size)

-- A slice of a packet that `sec_ex_get_ranges` has measured.
collect_extends :
    (st : SecState) (bytes xs : List ℕ) (from to : ℕ)
    → IsRoomy st
    → gathered st ≡ xs
    → from ≤ to
    → to ≤ ts_len
    → length bytes ≡ ts_len
    → IsRoomy (collect st bytes from to)
      × (gathered (collect st bytes from to) ≡ extend xs bytes from to)
collect_extends st bytes xs from to v e order inside size = (
  collect-IsRoomy st bytes from to v order (omega arith),
  gathered-collect st bytes from to v order (omega arith) ∙ ap (λ t. extend t bytes from to) e,
)

gathering-Agrees :
    (st : SecState) (p : Packet) (a b : ℕ) (c : Option ℕ) (before xs : List ℕ)
    → IsRoomy st
    → Shows st (filling xs)
    → length p.bytes ≡ ts_len
    → get_ranges p.bytes ≡ ranges a b c
    → Agrees (gathering st p a b c before) (fill xs p a b c)
unfolding gathering fill
gathering-Agrees st p a b none before xs v s size got =
    let bounds = get_ranges_bounds p.bytes a b none got in
    let done = collect_extends st p.bytes xs a b v s.2 bounds.1 bounds.2 size in
    let kept = collect_keeps st p.bytes a b in (done.0, (kept.0 ∙ s.0, kept.1 ∙ s.1, done.1), tt)
gathering-Agrees st p a b (some c) before xs v s size got =
    let bounds = get_ranges_bounds p.bytes a b (some c) got in
    let done = collect_extends st p.bytes xs a b v s.2 bounds.1 bounds.2 size in
    let to_end : some c ≡ some ts_len = ground (arith, bounds.3) in
    (
      record { size = done.0.size; within = omega arith },
      (refl, refl, refl, (size, (a, b, got ∙ ap (ranges a b) to_end))),
      gathered_returned (collect st p.bytes a b) (extend xs p.bytes a b) done.0 done.1,
    )

starting-Agrees :
    (st : SecState) (p : Packet) (a b : ℕ) (c : Option ℕ)
    → IsRoomy st
    → Shows st waiting
    → length p.bytes ≡ ts_len
    → get_ranges p.bytes ≡ ranges a b c
    → Agrees (starting st p b c) (spec_at waiting p a b c)
unfolding starting spec_at
starting-Agrees st p a b none v s size got = (v, s, tt)
starting-Agrees st p a b (some c) v s size got =
    let bounds = get_ranges_bounds p.bytes a b (some c) got in
    let to_end : c ≡ ts_len = ground (arith, bounds.3) in
    let empty : gathered st ≡ [] = ap (λ (k : ℕ). take k st.body) s.2 in
    let done = collect_extends st p.bytes [] b c v empty (omega arith) (omega arith) size in
    let kept = collect_keeps st p.bytes b c in
    (record { size = done.0.size; within = done.0.within }, (refl, kept.1 ∙ s.1, done.1), tt)

abbrev begun : SecState → Packet → (b : ℕ) → Option ℕ → SecState
begun st q b c = record (collect st q.bytes b (end_of c)) { aux = none; state = 1 }

resuming_lem :
    (st : SecState) (q p : Packet) (a b a' b' : ℕ) (c c' : Option ℕ)
    → get_ranges p.bytes ≡ ranges a b c
    → get_ranges q.bytes ≡ ranges a' b' c'
    → resuming st q p ≡ gathering (begun st q b' c') p a b c (q.id ∷ [])
unfolding resuming resumed
resuming_lem st q p a b a' b' c c' got held = rw (held, resuming) (rw (got, resumed))

head_of_lem :
    (q : Packet) (a' b' : ℕ) (c' : Option ℕ)
    → get_ranges q.bytes ≡ ranges a' b' c'
    → head_of q ≡ extend [] q.bytes b' (end_of c')
unfolding head_of
head_of_lem q a' b' c' held = rw (held, head_of)

-- The held packet's end is put into the empty buffer, and the new packet is added to it.
resuming-Agrees :
    (st : SecState) (q p : Packet) (a b : ℕ) (c : Option ℕ)
    → IsRoomy st
    → Shows st (holding q)
    → length p.bytes ≡ ts_len
    → get_ranges p.bytes ≡ ranges a b c
    → Agrees (resuming st q p) (fill (head_of q) p a b c)
resuming-Agrees st q p a b c v (_, _, start, (whole, (a', b', held))) size got =
    let bounds = get_ranges_bounds q.bytes a' b' (some ts_len) held in
    let empty : gathered st ≡ [] = ap (λ (k : ℕ). take k st.body) start in
    let done = collect_extends st q.bytes [] b' ts_len v empty bounds.2 (omega arith) whole in
    subst₂ Agrees (sym (resuming_lem st q p a b a' b' c (some ts_len) got held))
      (ap (λ t. fill t p a b c) (sym (head_of_lem q a' b' (some ts_len) held)))
      (gathering-Agrees (begun st q b' (some ts_len)) p a b c (q.id ∷ [])
        (extend [] q.bytes b' ts_len) (record { size = done.0.size; within = done.0.within })
        (refl, refl, done.1) size got)

pub dispatch_phase :
    (st : SecState) (p : Packet) (a b : ℕ) (c : Option ℕ)
    → (st.state ≡ 0 → dispatch st p a b c ≡ starting st p b c)
      × (st.state ≡ 1 → dispatch st p a b c ≡ gathering st p a b c [])
      × ((q : Packet) → st.state ≡ 2 → st.aux ≡ some q → dispatch st p a b c ≡ resuming st q p)
unfolding dispatch
dispatch_phase st p a b c = (λ e. ground arith, λ e. ground arith, λ q e h. ground arith)

dispatch-Agrees :
    (st : SecState) (p : Packet) (s : Progress) (a b : ℕ) (c : Option ℕ)
    → IsRoomy st
    → Shows st s
    → length p.bytes ≡ ts_len
    → get_ranges p.bytes ≡ ranges a b c
    → Agrees (dispatch st p a b c) (spec_at s p a b c)
unfolding spec_at
dispatch-Agrees st p waiting a b c v sh size got =
    subst (λ r. Agrees r (spec_at waiting p a b c)) (sym ((dispatch_phase st p a b c).0 sh.0))
      (starting-Agrees st p a b c v sh size got)
dispatch-Agrees st p (filling xs) a b c v sh size got =
    subst (λ r. Agrees r (fill xs p a b c)) (sym ((dispatch_phase st p a b c).1 sh.0))
      (gathering-Agrees st p a b c [] xs v sh size got)
dispatch-Agrees st p (holding q) a b c v sh size got =
    subst (λ r. Agrees r (fill (head_of q) p a b c))
      (sym ((dispatch_phase st p a b c).2 q sh.0 sh.1)) (resuming-Agrees st q p a b c v sh size got)

-- For a packet of 188 bytes, and a state that shows some progress and whose buffer has its 4096
-- bytes with the write index inside: the packet changes the state as it changes the progress,
-- the buffer and its index stay so, and the buffer that is returned, if any is, begins with the
-- section that the specification completes.
pub process_refines :
    (st : SecState) (p : Packet) (s : Progress)
    → IsRoomy st
    → Shows st s
    → length p.bytes ≡ ts_len
    → Agrees (process st p) (spec s p)
unfolding process spec
process_refines st p s v sh size = by_ranges (get_ranges p.bytes) refl
  where
    by_ranges : (r : Spans) → get_ranges p.bytes ≡ r → Agrees (process st p) (spec s p)
    by_ranges (invalid e) got = rw (got, process, spec) (v, sh, tt)
    by_ranges (ranges a b c) got =
        rw (got, process, spec) (dispatch-Agrees st p s a b c v sh size got)
