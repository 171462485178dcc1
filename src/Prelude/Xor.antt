-- ===== src/Prelude/Xor.antt =====
-- Exclusive or at variables: its digits, its group laws and how it acts on fields.
use Prim.Native.Nat.{ℕ, zero, suc, ◌+◌, ◌*◌, ◌/◌, ◌%◌, ◌^◌, ◌<◌, bit_xor, differ}
use mathlib.Core.Path.{◌≡◌, refl, ap, ap₂, ◌∙◌, sym}
use native.Mathlib.Nat.{pow-suc, one-le-pow, div-add-mod', mod-lt}
use native.Mathlib.Omega.{arith}
use dvb_vulture.Prelude.Bits.{bit_xor_step, halving, bit_xor-zero}

differ_bits : (x y : ℕ) → x < 2 → y < 2 → differ x y ≡ (x + y) % 2
differ_bits zero zero h k = refl
differ_bits zero (suc zero) h k = refl
differ_bits zero (suc (suc y)) h k = absurd (omega arith)
differ_bits (suc zero) zero h k = refl
differ_bits (suc zero) (suc zero) h k = refl
differ_bits (suc zero) (suc (suc y)) h k = absurd (omega arith)
differ_bits (suc (suc x)) y h k = absurd (omega arith)

-- the lowest digit and the others
pub bit_xor_digit : (a b : ℕ) → bit_xor a b ≡ bit_xor (a / 2) (b / 2) * 2 + (a + b) % 2
bit_xor_digit a b =
    omega (arith, bit_xor_step a b, differ_bits (a % 2) (b % 2) (omega arith) (omega arith))

pub zero-bit_xor : (b : ℕ) → bit_xor 0 b ≡ b
zero-bit_xor =
    halving (λ b. bit_xor 0 b ≡ b) refl λ n ih. omega (arith, bit_xor_digit 0 (suc n), ih)

pub bit_xor_comm : (a b : ℕ) → bit_xor a b ≡ bit_xor b a
bit_xor_comm =
    halving (λ a. (b : ℕ) → bit_xor a b ≡ bit_xor b a) (λ b. zero-bit_xor b ∙ sym (bit_xor-zero b))
      λ n ih b. omega (arith, bit_xor_digit (suc n) b, bit_xor_digit b (suc n), ih (b / 2))

pub bit_xor_half : (x y : ℕ) → bit_xor x y / 2 ≡ bit_xor (x / 2) (y / 2)
bit_xor_half x y = omega (arith, bit_xor_digit x y)

pub bit_xor_parity : (x y : ℕ) → bit_xor x y % 2 ≡ (x + y) % 2
bit_xor_parity x y = omega (arith, bit_xor_digit x y)

pub bit_xor_assoc : (a b c : ℕ) → bit_xor (bit_xor a b) c ≡ bit_xor a (bit_xor b c)
bit_xor_assoc =
    halving (λ a. (b c : ℕ) → bit_xor (bit_xor a b) c ≡ bit_xor a (bit_xor b c))
      (λ b c. ap (λ t. bit_xor t c) (zero-bit_xor b) ∙ sym (zero-bit_xor (bit_xor b c)))
      λ n ih b c. omega (
        arith,
        bit_xor_digit (bit_xor (suc n) b) c,
        bit_xor_digit (suc n) (bit_xor b c),
        bit_xor_parity (suc n) b,
        bit_xor_parity b c,
        ap (λ t. bit_xor t (c / 2)) (bit_xor_half (suc n) b),
        ap (λ t. bit_xor (suc n / 2) t) (bit_xor_half b c),
        ih (b / 2) (c / 2),
      )

-- Two pairs that swap: what the sums of two registers come to.
pub bit_xor_swap :
    (a b c d : ℕ) → bit_xor (bit_xor a b) (bit_xor c d) ≡ bit_xor (bit_xor a c) (bit_xor b d)
bit_xor_swap a b c d =
    bit_xor_assoc a b (bit_xor c d)
    ∙ ap (bit_xor a)
        (sym (bit_xor_assoc b c d) ∙ ap (λ t. bit_xor t d) (bit_xor_comm b c) ∙ bit_xor_assoc c b d)
    ∙ sym (bit_xor_assoc a c (bit_xor b d))

-- It acts on the upper and the lower field of a number apart.
pub bit_xor_fields :
    (k a b l m : ℕ)
    → l < 2 ^ k
    → m < 2 ^ k
    → bit_xor (a * 2 ^ k + l) (b * 2 ^ k + m) ≡ bit_xor a b * 2 ^ k + bit_xor l m
bit_xor_fields zero a b l m h g =
    let p : l ≡ 0 = omega arith in
    let q : m ≡ 0 = omega arith in
    let left : a * 2 ^ 0 + 0 ≡ a = omega arith in
    let right : b * 2 ^ 0 + 0 ≡ b = omega arith in
    rw (p, q) (ap₂ bit_xor left right ∙ omega (arith, zero-bit_xor 0))
bit_xor_fields (suc k) a b l m h g = omega (
  arith,
  bit_xor_digit (a * 2 ^ suc k + l) (b * 2 ^ suc k + m),
  ap₂ bit_xor (half a l) (half b m),
  bit_xor_fields k a b (l / 2) (m / 2) (omega (arith, pow-suc 2 k)) (omega (arith, pow-suc 2 k)),
  bit_xor_digit l m,
  twice a,
  twice b,
  twice (bit_xor a b),
)
  where
    twice : (x : ℕ) → x * 2 ^ suc k ≡ 2 * (x * 2 ^ k)
    twice x = omega (arith, ap (λ (t : ℕ). x * t) (pow-suc 2 k))

    half : (x y : ℕ) → (x * 2 ^ suc k + y) / 2 ≡ x * 2 ^ k + y / 2
    half x y = omega (arith, twice x)

-- The quotient and the remainder by a power of two come apart too.
pub bit_xor_split :
    (k a b : ℕ)
    → bit_xor a b ≡ bit_xor (a / 2 ^ k) (b / 2 ^ k) * 2 ^ k + bit_xor (a % 2 ^ k) (b % 2 ^ k)
bit_xor_split k a b =
    let positive : 0 < 2 ^ k = one-le-pow k 2 (omega arith) in
    ap₂ bit_xor (sym (div-add-mod' a (2 ^ k))) (sym (div-add-mod' b (2 ^ k)))
    ∙ bit_xor_fields k (a / 2 ^ k) (b / 2 ^ k) (a % 2 ^ k) (b % 2 ^ k) (mod-lt a positive)
        (mod-lt b positive)
