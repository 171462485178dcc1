-- ===== src/Sit/Services.antt =====
-- The service loop of `sitCompile`: when it fits, what it writes and what it leaves alone.
use Prim.Native.Nat.{bit_or}
use dvb_vulture.Prelude.{
  ℕ, zero, suc, ◌+◌, ◌*◌, ◌/◌, ◌%◌, ◌^◌, ◌≤◌, ◌<◌, ◌≡◌, refl, ap, ap₂, ◌∙◌, sym, List, [], ◌∷◌,
  length, get_or, none, some, ltb, arith, Bool-cases, inl, inr, le→ltb,
}
use dvb_vulture.Prelude.Buffer.{IsBytes}
use dvb_vulture.Prelude.Buffer.{write}
use dvb_vulture.Sit.{be16, service_loop}
use dvb_vulture.Prelude.Buffer.{length-write, get_or-write_below, get_or-write_at, IsBytes-write}

abbrev pub IsWords : List ℕ → Type 0
IsWords [] = Unit {0}
IsWords (x ∷ xs) = (x < 65536) × IsWords xs

-- the service numbers of `n` entries of four bytes each, from `at` on
unfoldable pub services : List ℕ → (at n : ℕ) → List ℕ
services section at zero = []
services section at (suc n) =
    (get_or section at 0 * 256 + get_or section (at + 1) 0) ∷ services section (at + 4) n

abbrev flags : List ℕ
flags = be16 (bit_or (4 * 2 ^ 12) (1 * 2 ^ 15))

abbrev entry : List ℕ → ℕ → ℕ → List ℕ
entry section slen pnr = write (write section slen (be16 pnr)) (slen + 2) flags

pub service_loop_fits :
    (pnrs : List ℕ) (slen : ℕ) (section : List ℕ)
    → slen + 4 * length pnrs ≤ 4092
    → (service_loop pnrs slen section).0 ≡ some (slen + 4 * length pnrs)
unfolding service_loop
service_loop_fits [] slen section h = ground arith
service_loop_fits (p ∷ pnrs) slen section h =
    let total : slen + 2 + 2 + 4 * length pnrs ≡ slen + 4 * suc (length pnrs) = omega arith in
    rw (le→ltb 4092 (slen + 4) (omega arith)) (
      service_loop_fits pnrs (slen + 2 + 2) (entry section slen p) (omega arith)
      ∙ ap (λ (n : ℕ). some n) total)

pub service_loop_full :
    (pnrs : List ℕ) (slen : ℕ) (section : List ℕ)
    → slen ≤ 4092
    → 4092 < slen + 4 * length pnrs
    → (service_loop pnrs slen section).0 ≡ none
unfolding service_loop
service_loop_full [] slen section g h = absurd (omega arith)
service_loop_full (p ∷ pnrs) slen section g h = elim (Bool-cases (ltb 4092 (slen + 4))) [
  | inl out ↦ rw out
  | inr room ↦
      rw room
        (service_loop_full pnrs (slen + 2 + 2) (entry section slen p) (ground arith) (omega arith))
]

pub length-service_loop :
    (pnrs : List ℕ) (slen : ℕ) (section : List ℕ)
    → length (service_loop pnrs slen section).1 ≡ length section
unfolding service_loop
length-service_loop [] slen section = refl
length-service_loop (p ∷ pnrs) slen section = elim (Bool-cases (ltb 4092 (slen + 4))) [
  | inl out ↦ rw out
  | inr room ↦ rw room (
      length-service_loop pnrs (slen + 2 + 2) (entry section slen p)
      ∙ length-write flags (write section slen (be16 p)) (slen + 2)
      ∙ length-write (be16 p) section slen)
]

pub IsBytes-service_loop :
    (pnrs : List ℕ) (slen : ℕ) (section : List ℕ)
    → IsBytes section
    → IsBytes (service_loop pnrs slen section).1
unfolding service_loop
IsBytes-service_loop [] slen section v = v
IsBytes-service_loop (p ∷ pnrs) slen section v = elim (Bool-cases (ltb 4092 (slen + 4))) [
  | inl out ↦ rw out v
  | inr room ↦ rw room (
      IsBytes-service_loop pnrs (slen + 2 + 2) (entry section slen p) (
        IsBytes-write flags (write section slen (be16 p)) (slen + 2)
          (IsBytes-write (be16 p) section slen v (omega arith)) (omega arith)))
]

-- The bytes in front of the loop's first entry stay.
pub service_loop_below :
    (pnrs : List ℕ) (slen : ℕ) (section : List ℕ) (j : ℕ)
    → j < slen
    → get_or (service_loop pnrs slen section).1 j 0 ≡ get_or section j 0
unfolding service_loop
service_loop_below [] slen section j h = refl
service_loop_below (p ∷ pnrs) slen section j h = elim (Bool-cases (ltb 4092 (slen + 4))) [
  | inl out ↦ rw out
  | inr room ↦ rw room (
      service_loop_below pnrs (slen + 2 + 2) (entry section slen p) j (omega arith)
      ∙ get_or-write_below flags (write section slen (be16 p)) (slen + 2) j 0 (omega arith)
      ∙ get_or-write_below (be16 p) section slen j 0 h)
]

loop_step :
    (p : ℕ) (pnrs : List ℕ) (slen : ℕ) (section : List ℕ)
    → slen + 4 ≤ 4092
    → service_loop (p ∷ pnrs) slen section ≡ service_loop pnrs (slen + 2 + 2) (entry section slen p)
unfolding service_loop
loop_step p pnrs slen section h = rw (le→ltb 4092 (slen + 4) h)

-- What the loop writes reads back as the service numbers.
pub services-service_loop :
    (pnrs : List ℕ) (slen : ℕ) (section : List ℕ)
    → IsWords pnrs
    → slen + 4 * length pnrs ≤ 4092
    → slen + 4 * length pnrs ≤ length section
    → services (service_loop pnrs slen section).1 slen (length pnrs) ≡ pnrs
unfolding service_loop services
services-service_loop [] slen section v h g = refl
services-service_loop (p ∷ pnrs) slen section v h g =
    let s' : List ℕ = (service_loop pnrs (slen + 2 + 2) (entry section slen p)).1 in
    let same : slen + 2 + 2 ≡ slen + 4 = omega arith in
    let size : length (entry section slen p) ≡ length section =
      length-write flags (write section slen (be16 p)) (slen + 2)
      ∙ length-write (be16 p) section slen in
    let rest : services s' (slen + 2 + 2) (length pnrs) ≡ pnrs =
      services-service_loop pnrs (slen + 2 + 2) (entry section slen p) v.1 (omega arith)
        (omega arith) in
    let byte : (j : ℕ) → j < 2 → get_or s' (slen + j) 0 ≡ get_or (be16 p) j 0 = λ j h.
      service_loop_below pnrs (slen + 2 + 2) (entry section slen p) (slen + j) (omega arith)
      ∙ get_or-write_below flags (write section slen (be16 p)) (slen + 2) (slen + j) 0 (omega arith)
      ∙ get_or-write_at (be16 p) section slen j 0 (omega arith) h in
    let name : get_or s' slen 0 * 256 + get_or s' (slen + 1) 0 ≡ p =
      omega (arith, byte_first s' (byte 0 (omega arith)), byte 1 (omega arith)) in
    ap (λ t. services t.1 slen (suc (length pnrs))) (loop_step p pnrs slen section (omega arith))
    ∙ ap₂ ◌∷◌ name (ap (λ (k : ℕ). services s' k (length pnrs)) (sym same) ∙ rest)
  where
    byte_first :
        (q : List ℕ) → get_or q (slen + 0) 0 ≡ p / 256 % 256 → get_or q slen 0 ≡ p / 256 % 256
    byte_first q e = let k : slen ≡ slen + 0 = omega arith in ap (λ (i : ℕ). get_or q i 0) k ∙ e
