-- ===== src/Bits/Field.antt =====
-- `bitsGet` and `bitsGet48` against their meaning: a field of the number that the bytes spell.
use Prim.Native.Nat.{bit_or}
use native.Mathlib.Nat.{one-le-pow, div-div-eq-div-mul, mul-div_cancel}
use native.Mathlib.Nat.{mul-lt-mul_of_pos_right}
use dvb_vulture.Prelude.{
  ℕ, zero, suc, ◌+◌, ◌-◌, ◌*◌, ◌/◌, ◌%◌, ◌^◌, ◌≤◌, ◌<◌, ◌≡◌, ap, ap₂, sym, ◌∙◌, List, [], ◌∷◌,
  arith,
}
use dvb_vulture.Prelude.Bits.{bit_or_fields, bit_and_mask, pow-add}
use dvb_vulture.Prelude.Buffer.{IsBytes}
use dvb_vulture.Bits.{byte_at, gather, cut, get48, get}

pub byte_at-lt : (buf : List ℕ) (i : ℕ) → IsBytes buf → byte_at buf i < 256
byte_at-lt [] i v = omega arith
byte_at-lt (x ∷ xs) zero v = v.0
byte_at-lt (x ∷ xs) (suc i) v = byte_at-lt xs i v.1

-- the number that `n` bytes from `b` on spell, most significant first
pub big_endian : List ℕ → (b n : ℕ) → ℕ
big_endian buf b zero = 0
big_endian buf b (suc n) = big_endian buf b n * 256 + byte_at buf (b + n)

-- the `len` bits that follow the first `start` bits of the bytes from `b` on
unfoldable pub field : List ℕ → (b start len : ℕ) → ℕ
unfolding big_endian
field buf b start len =
    let n = (start + len + 7) / 8 in big_endian buf b n / 2 ^ (8 * n - start - len) % 2 ^ len

put_below : (q x k : ℕ) → x < 256 → bit_or (q * 2 ^ (8 + k)) (x * 2 ^ k) ≡ (q * 256 + x) * 2 ^ k
put_below q x k h =
    let wide : 2 ^ (8 + k) ≡ 256 * 2 ^ k = pow-add 8 k in
    let high : q * 2 ^ (8 + k) ≡ q * (256 * 2 ^ k) = ap (λ (t : ℕ). q * t) wide in
    let positive : 0 < 2 ^ k = one-le-pow k 2 (omega arith) in
    let below : x * 2 ^ k < 256 * 2 ^ k = mul-lt-mul_of_pos_right h positive in
    let fits : x * 2 ^ k < 2 ^ (8 + k) = omega arith in
    bit_or_fields (8 + k) q (x * 2 ^ k) fits ∙ omega (arith, high)

big_endian_next :
    (buf : List ℕ) (b i : ℕ)
    → big_endian buf b i * 256 + byte_at buf (b + i) ≡ big_endian buf b (i + 1)
unfolding big_endian
big_endian_next buf b i = let e : suc i ≡ i + 1 = omega arith in ap (big_endian buf b) e

-- The loop puts the bytes side by side.
gather-big_endian :
    (buf : List ℕ) (b high n i : ℕ)
    → IsBytes buf
    → 8 * (i + n) ≤ high
    → gather buf b high n i (big_endian buf b i * 2 ^ (high - 8 * i))
      ≡ big_endian buf b (i + n) * 2 ^ (high - 8 * (i + n))
unfolding gather big_endian
gather-big_endian buf b high zero i v h =
    let e : i + 0 ≡ i = omega arith in
    ap (λ (t : ℕ). big_endian buf b t * 2 ^ (high - 8 * t)) (sym e)
gather-big_endian buf b high (suc n) i v h =
    let k : ℕ = high - 8 - i * 8 in
    let lower : high - 8 * i ≡ 8 + k = omega arith in
    let next : k ≡ high - 8 * (i + 1) = omega arith in
    let moved : i + 1 + n ≡ i + suc n = omega arith in
    let step : bit_or (big_endian buf b i * 2 ^ (high - 8 * i)) (byte_at buf (b + i) * 2 ^ k)
        ≡ big_endian buf b (i + 1) * 2 ^ (high - 8 * (i + 1)) =
      ap (λ (t : ℕ). bit_or (big_endian buf b i * 2 ^ t) (byte_at buf (b + i) * 2 ^ k)) lower
      ∙ put_below (big_endian buf b i) (byte_at buf (b + i)) k (byte_at-lt buf (b + i) v)
      ∙ ap (λ (t : ℕ). (big_endian buf b i * 256 + byte_at buf (b + i)) * 2 ^ t) next
      ∙ ap (λ (t : ℕ). t * 2 ^ (high - 8 * (i + 1))) (big_endian_next buf b i) in
    ap (gather buf b high n (i + 1)) step
    ∙ gather-big_endian buf b high n (i + 1) v (omega arith)
    ∙ ap (λ (t : ℕ). big_endian buf b t * 2 ^ (high - 8 * t)) moved

shift_down : (x k r : ℕ) → x * 2 ^ k / 2 ^ (k + r) ≡ x / 2 ^ r
shift_down x k r =
    let positive : 0 < 2 ^ k = one-le-pow k 2 (omega arith) in
    ap (λ (t : ℕ). x * 2 ^ k / t) (pow-add k r)
    ∙ sym (div-div-eq-div-mul (x * 2 ^ k) (2 ^ k) (2 ^ r))
    ∙ ap (λ (t : ℕ). t / 2 ^ r) (mul-div_cancel x positive)

gather_all :
    (buf : List ℕ) (b high n : ℕ)
    → IsBytes buf
    → 8 * n ≤ high
    → gather buf b high n 0 0 ≡ big_endian buf b n * 2 ^ (high - 8 * n)
unfolding big_endian
gather_all buf b high n v h =
    let empty : 0 ≡ 0 * 2 ^ (high - 8 * 0) = omega arith in
    let here : 0 + n ≡ n = omega arith in
    ap (gather buf b high n 0) empty
    ∙ gather-big_endian buf b high n 0 v (omega arith)
    ∙ ap (λ (t : ℕ). big_endian buf b t * 2 ^ (high - 8 * t)) here

-- One run of the loop with its shift and mask is a field, if the loop has room for its bytes.
cut-field :
    (buf : List ℕ) (b m start len : ℕ)
    → IsBytes buf
    → start + len ≤ 8 * m
    → cut buf b (8 * m) start len ≡ field buf b start len
unfolding field
cut-field buf b m start len v h =
    let n : ℕ = (start + len + 7) / 8 in
    let count : 8 * m / 8 - (8 * m - start - len) / 8 ≡ n = omega arith in
    let split : 8 * m - start - len ≡ 8 * m - 8 * n + (8 * n - start - len) = omega arith in
    bit_and_mask len _
    ∙ ap (λ (t : ℕ). t % 2 ^ len)
        (ap₂ (λ (t d : ℕ). t / 2 ^ d)
            (ap (λ (t : ℕ). gather buf b (8 * m) t 0 0) count
              ∙ gather_all buf b (8 * m) n v (omega arith))
            split
          ∙ shift_down (big_endian buf b n) (8 * m - 8 * n) (8 * n - start - len))

-- `bitsGet48` returns the field of up to 48 bits that starts at the given bit of the buffer.
pub get48-field :
    (buf : List ℕ) (byte_offset startbit bitlen : ℕ)
    → IsBytes buf
    → bitlen ≤ 48
    → get48 buf byte_offset startbit bitlen
      ≡ field buf (byte_offset + startbit / 8) (startbit % 8) bitlen
unfolding get48
get48-field buf byte_offset startbit bitlen v h =
    ground (arith, cut-field buf (byte_offset + startbit / 8) 7 (startbit % 8) bitlen v)

field-zero : (buf : List ℕ) (b start : ℕ) → field buf b start 0 ≡ 0
unfolding field
field-zero buf b start = omega arith

-- `bitsGet` returns the field of up to 32 bits that starts at the given bit of the buffer, most
-- significant bit first, wherever the field lies and however many bytes it touches.
pub get-field :
    (buf : List ℕ) (byte_offset startbit bitlen : ℕ)
    → IsBytes buf
    → bitlen ≤ 32
    → get buf byte_offset startbit bitlen
      ≡ field buf (byte_offset + startbit / 8) (startbit % 8) bitlen
unfolding get
get-field buf byte_offset startbit bitlen v h =
    let b : ℕ = byte_offset + startbit / 8 in
    let s : ℕ = startbit % 8 in
    ground (
      arith,
      field-zero buf b s,
      cut-field buf b 2 s bitlen v,
      cut-field buf b 3 s bitlen v,
      cut-field buf b 4 s bitlen v,
      get48-field buf b s bitlen v,
    )
