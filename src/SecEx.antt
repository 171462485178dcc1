-- ===== src/SecEx.antt =====
-- stream/sec_ex.c: the extractor that puts sections together from transport packets.
--
-- A packet is a buffer of the selector's, told apart by its address `id`. Giving one back to the
-- selector (`release_element`) is the list of ids that a call releases, in order. The tree
-- of states, keyed by pid, is an association list; whether `calloc` finds memory for a new state is
-- an argument. `secExPut` returns the pointer to the state's buffer: here, the bytes in it.
pub mod Ranges
pub mod Collect
pub mod Spec
pub mod Refine
pub mod Release
pub mod Tests
use dvb_vulture.Prelude.{
  ℕ, ◌+◌, ◌-◌, List, [], ◌∷◌, ◌++◌, get_or, take, drop, replicate, Option, none, some, Bool, true,
  false, ltb, ◌==◌, ◌||◌, if◌then◌else◌,
}
use dvb_vulture.Prelude.Buffer.{write}
use dvb_vulture.Packet.{ts_len, get_pid, get_afc, get_pusi}

abbrev pub max_sec_sz : ℕ
max_sec_sz = 4096

pub record Packet : Type 0 where
  pub id : ℕ
  pub bytes : List ℕ

-- What `sec_ex_get_ranges` returns: an error code, or a, b and c; `none` is the c of -1.
pub data Spans : Type 0 where
  invalid : ℕ → Spans
  ranges : ℕ → ℕ → Option ℕ → Spans

-- the part behind the switch, for a payload that starts at `ra`
payload_ranges : List ℕ → ℕ → Spans
payload_ranges bytes ra =
    if get_pusi bytes == 0
    then (if ltb ts_len ra then invalid 5 else ranges ra ts_len none)
    else if ltb ts_len rb || ltb ts_len (ra + 1)
    then invalid 4
    else if ltb rb (ra + 1)
    then invalid 5
    else if ltb ts_len rb
    then invalid 6
    else ranges (ra + 1) rb (some ts_len)
  where
    rb : ℕ
    rb = ra + 1 + get_or bytes ra 0

-- `sec_ex_get_ranges`
unfoldable pub get_ranges : List ℕ → Spans
unfolding payload_ranges
get_ranges bytes =
    if get_afc bytes == 1
    then payload_ranges bytes 4
    else if get_afc bytes == 2
    then invalid 2
    else if get_afc bytes == 3
    then (if ltb ts_len ra then invalid 3 else payload_ranges bytes ra)
    else invalid 1
  where
    ra : ℕ
    ra = get_or bytes 4 0 + 5

-- `SecExState` without its pid
pub record SecState : Type 0 where
  pub body : List ℕ
  pub buf_idx : ℕ
  pub aux : Option Packet
  pub state : ℕ

-- what `utlCalloc` gives
abbrev pub new_state : SecState
new_state = record { body = replicate max_sec_sz 0; buf_idx = 0; aux = none; state = 0 }

-- The copy into the section buffer, cut off at its size: `from` to `to` of the packet's bytes.
unfoldable pub collect : SecState → List ℕ → (from to : ℕ) → SecState
collect st bytes from to =
    if ltb max_sec_sz (to - from + st.buf_idx)
    then record st {
      body = write st.body st.buf_idx (take (max_sec_sz - st.buf_idx) (drop from bytes));
      buf_idx = max_sec_sz;
    }
    else record st {
      body = write st.body st.buf_idx (take (to - from) (drop from bytes));
      buf_idx = st.buf_idx + (to - from);
    }

-- What a call does to the state of its pid, what it releases and what it returns.
pub record Step : Type 0 where
  pub after : SecState
  pub released : List ℕ
  pub result : Option (List ℕ)

-- `case 1` of the switch, reached with what `case 2` has released before
pub gathering : SecState → Packet → (a b : ℕ) → Option ℕ → (before : List ℕ) → Step
gathering st p a b c before =
    let st' = collect st p.bytes a b in
    elim c [
      | none ↦ record { after = st'; released = before ++ (p.id ∷ []); result = none }
      | some _ ↦ record {
        after = record st' { aux = some p; state = 2; buf_idx = 0 };
        released = before;
        result = some st'.body;
      }
    ]

-- `case 0`: `b` to `c` of the packet, if a section starts in it
pub starting : SecState → Packet → (b : ℕ) → Option ℕ → Step
starting st p b c = elim c [
  | none ↦ record { after = st; released = p.id ∷ []; result = none }
  | some c' ↦ record {
    after = record (collect st p.bytes b c') { state = 1 };
    released = p.id ∷ [];
    result = none;
  }
]

-- `c`, where it is not -1; a packet that is held back has one
abbrev pub end_of : Option ℕ → ℕ
end_of none = 0
end_of (some c) = c

-- the rest of `case 2`, once the held packet is used up
pub resumed : SecState → (held p : Packet) → Step
resumed st held p = elim (get_ranges p.bytes) [
  | invalid _ ↦ record { after = st; released = held.id ∷ p.id ∷ []; result = none }
  | ranges a b c ↦ gathering st p a b c (held.id ∷ [])
]

-- `case 2`: the end of the packet that was held back starts the section, then the new one counts
pub resuming : SecState → (held p : Packet) → Step
resuming st held p = elim (get_ranges held.bytes) [
  | invalid _ ↦ record {
    after = record st { state = 0; buf_idx = 0; aux = none };
    released = held.id ∷ p.id ∷ [];
    result = none;
  }
  | ranges a b c ↦
      resumed (record (collect st held.bytes b (end_of c)) { aux = none; state = 1 }) held p
]

-- nothing is done, as in the default case
abbrev idle : SecState → Step
idle st = record { after = st; released = []; result = none }

-- The switch of `sec_ex_process_buf`. In state 2 a packet is held back, so `aux` is not NULL there.
pub dispatch : SecState → Packet → (a b : ℕ) → Option ℕ → Step
dispatch st p a b c =
    if st.state == 0
    then starting st p b c
    else if st.state == 2
    then elim st.aux [ none ↦ idle st | some held ↦ resuming st held p ]
    else if st.state == 1
    then gathering st p a b c []
    else idle st

-- `sec_ex_process_buf`, once it has the state of the packet's pid
pub process : SecState → Packet → Step
process st p = elim (get_ranges p.bytes) [
  | invalid _ ↦ record { after = st; released = p.id ∷ []; result = none }
  | ranges a b c ↦ dispatch st p a b c
]

-- `pid_states`
abbrev pub States : Type 0
States = List (ℕ × SecState)

pub find_state : ℕ → States → Option SecState
find_state pid [] = none
find_state pid ((q, st) ∷ states) = if q == pid then some st else find_state pid states

pub put_state : ℕ → SecState → States → States
put_state pid st [] = (pid, st) ∷ []
put_state pid st ((q, old) ∷ states) =
    if q == pid then (q, st) ∷ states else (q, old) ∷ put_state pid st states

-- `sec_ex_get_or_ins_state`; `memory` says whether an allocation would succeed
pub get_or_ins : Bool → ℕ → States → Option SecState
get_or_ins memory pid states = elim (find_state pid states) [
  | some st ↦ some st
  | none ↦ if memory then some new_state else none
]

-- `secExPut`: the states afterwards, what is released and what is returned
pub put : Bool → States → Packet → States × List ℕ × Option (List ℕ)
put memory states p = elim (get_or_ins memory (get_pid p.bytes) states) [
  | none ↦ (states, p.id ∷ [], none)
  | some st ↦
      let s = process st p in (put_state (get_pid p.bytes) s.after states, s.released, s.result)
]

-- A client's calls, each with its memory: what is released in all, and the states at the end.
pub run : States → List (Bool × Packet) → States × List ℕ
run states [] = (states, [])
run states ((memory, p) ∷ packets) =
    let (states', released, _) = put memory states p in
    let rest = run states' packets in (rest.0, released ++ rest.1)

-- `sec_ex_st_destroy`, at a state of the walk
abbrev pub held_by : SecState → List ℕ
held_by st = elim st.aux [ none ↦ [] | some p ↦ p.id ∷ [] ]

-- what `btreeWalk` with `sec_ex_st_destroy` releases
pub held : States → List ℕ
held [] = []
held ((q, st) ∷ states) = held_by st ++ held states

-- `secExFlush` and `secExClear`
pub flush : States → States × List ℕ
unfolding held
flush states = ([], held states)
