-- ===== src/Sit.antt =====
-- stream/sit_com.c: the selection information and discontinuity information sections that are
-- put into output streams, and their cut into transport packets.
--
-- A section buffer is the list of its bytes, and a function that fills one returns the new list
-- beside its result. `htons` and `htonl` give the bytes of a word, most significant first.
pub mod Services
pub mod Close
pub mod Compile
pub mod Tests
use Prim.Native.Nat.{bit_and, bit_or}
use dvb_vulture.Prelude.{
  ℕ, suc, ◌+◌, ◌-◌, ◌*◌, ◌/◌, ◌%◌, ◌^◌, Bool, List, [], ◌∷◌, ◌++◌, length, replicate, get_or, leb,
  ◌==◌, set, Option, none, some, ltb, if◌then◌else◌,
}
use dvb_vulture.Prelude.Buffer.{write}
use dvb_vulture.Section.{sec_crc32}
use dvb_vulture.Section.Crc.{be32}

abbrev pub dit_tid : ℕ
dit_tid = 0x7E

abbrev pub sit_tid : ℕ
sit_tid = 0x7F

-- the two bytes that `htons` puts in memory
abbrev pub be16 : ℕ → List ℕ
be16 v = v / 256 % 256 ∷ v % 256 ∷ []

-- the length field with its three reserved bits and the syntax bit
abbrev pub length_field : ℕ → ℕ
length_field slen = bit_or (bit_or slen (7 * 2 ^ 12)) (1 * 2 ^ 15)

-- `ditCompile`
pub dit_compile : Bool → List ℕ → ℕ × List ℕ
unfolding write
dit_compile ts_change section =
    let slen : ℕ = 1 in
    let headed = write (set section 0 dit_tid) 1 (be16 (length_field slen)) in
    (slen + 3, set headed 3 (bit_or ((if ts_change then 1 else 0) * 2 ^ 7) 0x7f))

-- The loop of `sitCompile`: the length so far, or `none` for the early `return 0`, and the buffer.
pub service_loop : List ℕ → (slen : ℕ) → List ℕ → Option ℕ × List ℕ
unfolding write
service_loop [] slen section = (some slen, section)
service_loop (pnr ∷ pnrs) slen section =
    let named = write section slen (be16 pnr) in
    let entered = write named (slen + 2) (be16 (bit_or (4 * 2 ^ 12) (1 * 2 ^ 15))) in
    let rest = service_loop pnrs (slen + 2 + 2) entered in
    if ltb 4092 (slen + 4) then (none, section) else rest

-- the header of `sitCompile`, up to the service loop
pub sit_header : (vnr : ℕ) → List ℕ → List ℕ
unfolding write
sit_header vnr section =
    let named = write (set section 0 sit_tid) 3 (be16 0xffff) in
    let versioned = set named 5 (bit_or (bit_or (bit_and vnr 31 * 2) 1) (3 * 2 ^ 6)) in
    write (set (set versioned 6 0) 7 0) 8 (be16 (bit_or 0 0xf000))

-- what `sitCompile` does behind the loop: the length field and the checksum
pub sit_close : (slen : ℕ) → List ℕ → ℕ × List ℕ
unfolding write
sit_close slen section =
    let slen' = slen - 3 + 4 in
    let sized = write section 1 (be16 (length_field slen')) in
    (slen' + 3, write sized (slen' + 3 - 4) (be32 (sec_crc32 sized (slen' + 3 - 4))))

-- `sitCompile`
pub sit_compile : List ℕ → (vnr : ℕ) → List ℕ → ℕ × List ℕ
sit_compile pnrs vnr section =
    let (slen?, filled) = service_loop pnrs 10 (sit_header vnr section) in
    elim slen? [ none ↦ (0, filled) | some slen ↦ sit_close slen filled ]

-- `ts_put_ctr`
pub ts_put_ctr : List ℕ → (ctr : ℕ) → List ℕ
ts_put_ctr ts ctr = set ts 3 (bit_or (bit_and (get_or ts 3 0) 0xf0) (bit_and ctr 15))

-- The variables of the loop of `sec_to_ts`: the packets, the place in the current one, and k + 1.
pub record Splitting : Type 0 where
  pub rv : List ℕ
  pub j : ℕ
  pub opened : ℕ

-- the header of the packet that the loop begins
pub open_packet : (pid : ℕ) → Splitting → Splitting
open_packet pid s =
    let k = s.opened in
    let unit_start = if k == 0 then 2 ^ 14 else 0 in
    let pointer = if k == 0 then 0 ∷ [] else [] in
    record {
      rv =
          write s.rv (188 * k)
            (0x47 ∷ (be16 (bit_or unit_start pid) ++ (bit_or (2 ^ 4) (bit_and k 15) ∷ pointer)));
      j = if k == 0 then 5 else 4;
      opened = k + 1;
    }

-- the body of the loop
pub split_byte : (pid byte : ℕ) → Splitting → Splitting
split_byte pid byte s =
    let s' = if leb 188 s.j then open_packet pid s else s in
    record s' { rv = set s'.rv (188 * (s'.opened - 1) + s'.j) byte; j = s'.j + 1 }

pub split_loop : (pid : ℕ) → List ℕ → Splitting → Splitting
split_loop pid [] s = s
split_loop pid (byte ∷ section) s = split_loop pid section (split_byte pid byte s)

-- `sec_to_ts`, where `utlCalloc` succeeds: the packets and their number
pub sec_to_ts : List ℕ → (pid : ℕ) → List ℕ × ℕ
sec_to_ts section pid =
    let num_ts = (length section + 1 + (184 - 1)) / 184 in
    let s =
      split_loop pid section (record { rv = replicate (num_ts * 188) 0; j = 188; opened = 0 }) in
    (write s.rv (188 * (s.opened - 1) + s.j) (replicate (188 - s.j) 0xff), num_ts)
