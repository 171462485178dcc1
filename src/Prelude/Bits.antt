-- ===== src/Prelude/Bits.antt =====
-- Laws of the bit operations at variables, from the digit recursion that they mean.
use Prim.Native.Nat.{ℕ, zero, suc, ◌+◌, ◌-◌, ◌*◌, ◌/◌, ◌%◌, ◌^◌, ◌≤◌, ◌<◌, min, max}
use Prim.Native.Nat.{bit_and, bit_or, bit_xor, digits, bitwise, differ}
use Prim.Native.Nat.{bit_and-bitwise, bit_or-bitwise, bit_xor-bitwise}
use mathlib.Core.Path.{◌≡◌, refl, ap, ap₂, ◌∙◌, sym, subst}
use mathlib.Core.Bool.{Bool, true, ◌&&◌}
use mathlib.Core.Logic.{◌⊎◌, inl, inr}
use dvb_vulture.Prelude.Tests.{ltb, ltb→lt, ltb→le, Bool-cases}
use mathlib.Core.WellFounded as Wf
use mathlib.Core.WellFounded.{Acc, WellFounded}
use native.Mathlib.Nat.{pow-suc, one-le-pow, mod-lt, mod-eq_of_lt}
use native.Mathlib.Nat.{mod-add-div', add-mul-mod_self_right}
use native.Mathlib.Omega.{arith}

earlier_or_here : (from x : ℕ) → from ≤ x → (from < x) ⊎ (x ≡ from)
earlier_or_here from x low = elim (Bool-cases (ltb from x)) [
  | inl after ↦ inl (ltb→lt from x after)
  | inr not_after ↦ let back : x ≤ from = ltb→le from x not_after in inr (omega arith)
]

-- A table, read upwards: the test holds of the `count` values from `from` on.
unfoldable pub all_from : (from count : ℕ) → (ℕ → Bool) → Bool
all_from from zero test = true
all_from from (suc count) test = test from && all_from (suc from) count test

pub all_from-at :
    (from count : ℕ) (test : ℕ → Bool) (x : ℕ)
    → all_from from count test ≡ true
    → from ≤ x
    → x < from + count
    → test x ≡ true
unfolding all_from
all_from-at from zero test x passed low high = absurd (omega arith)
all_from-at from (suc count) test x passed low high = elim (earlier_or_here from x low) [
  | inl later ↦ ground (arith, all_from-at (suc from) count test x)
  | inr here ↦ subst (λ (k : ℕ). test k ≡ true) (sym here) (ground (arith, passed))
]

abbrev pub all_below : ℕ → (ℕ → Bool) → Bool
all_below count test = all_from 0 count test

pub all_below-at :
    (count : ℕ) (test : ℕ → Bool) (x : ℕ) → all_below count test ≡ true → x < count → test x ≡ true
all_below-at count test x passed high =
    all_from-at 0 count test x passed (omega arith) (omega arith)

-- How `bitwise` treats the lowest digit. Its recursion has fuel, of which more does no harm.
module _ (ends : ℕ → ℕ) (digit : ℕ → ℕ → ℕ) where
  one_more :
      (fuel a b : ℕ) → a ≤ fuel → digits ends digit (suc fuel) a b ≡ digits ends digit fuel a b
  one_more zero zero b enough = refl
  one_more zero (suc a) b enough = absurd (omega arith)
  one_more (suc fuel) zero b enough = refl
  one_more (suc fuel) (suc a) b enough =
      ap (λ (t : ℕ). t * 2 + digit (suc a % 2) (b % 2))
        (one_more fuel (suc a / 2) (b / 2) (omega arith))

  many_more : (extra a b : ℕ) → digits ends digit (extra + a) a b ≡ bitwise ends digit a b
  many_more zero a b = let e : 0 + a ≡ a = omega arith in ap (λ (k : ℕ). digits ends digit k a b) e
  many_more (suc extra) a b =
      let e : suc extra + a ≡ suc (extra + a) = omega arith in
      ap (λ (k : ℕ). digits ends digit k a b) e
      ∙ one_more (extra + a) a b (omega arith)
      ∙ many_more extra a b

  lowest_digit :
      (a b half : ℕ)
      → half ≡ suc a / 2
      → bitwise ends digit (suc a) b
        ≡ bitwise ends digit half (b / 2) * 2 + digit (suc a % 2) (b % 2)
  lowest_digit a b half e =
      let spare : a - half + half ≡ a = omega arith in
      let halved =
        ap (λ (k : ℕ). digits ends digit k half (b / 2)) (sym spare)
        ∙ many_more (a - half) half (b / 2) in
      ap (λ (h : ℕ). digits ends digit a h (b / 2) * 2 + digit (suc a % 2) (b % 2)) (sym e)
      ∙ ap (λ (t : ℕ). t * 2 + digit (suc a % 2) (b % 2)) halved

  -- So an operation that means `bitwise` goes digit by digit.
  module _ (op : ℕ → ℕ → ℕ) (means : (a b : ℕ) → op a b ≡ bitwise ends digit a b)
      (ending : (b : ℕ) → ends b ≡ ends (b / 2) * 2 + digit 0 (b % 2)) where
    by_digits : (a b : ℕ) → op a b ≡ op (a / 2) (b / 2) * 2 + digit (a % 2) (b % 2)
    by_digits zero b =
        means 0 b ∙ ending b ∙ ap (λ (t : ℕ). t * 2 + digit 0 (b % 2)) (sym (means 0 (b / 2)))
    by_digits (suc a) b =
        means (suc a) b
        ∙ lowest_digit a b (suc a / 2) refl
        ∙ ap (λ (t : ℕ). t * 2 + digit (suc a % 2) (b % 2)) (sym (means (suc a / 2) (b / 2)))

pub bit_xor_step : (x y : ℕ) → bit_xor x y ≡ bit_xor (x / 2) (y / 2) * 2 + differ (x % 2) (y % 2)
bit_xor_step = by_digits (λ y. y) differ bit_xor bit_xor-bitwise (λ b. omega arith)

pub bit_or_step : (x y : ℕ) → bit_or x y ≡ bit_or (x / 2) (y / 2) * 2 + max (x % 2) (y % 2)
bit_or_step = by_digits (λ y. y) max bit_or bit_or-bitwise (λ b. omega arith)

pub bit_and_step : (x y : ℕ) → bit_and x y ≡ bit_and (x / 2) (y / 2) * 2 + min (x % 2) (y % 2)
bit_and_step = by_digits (λ y. 0) min bit_and bit_and-bitwise (λ b. omega arith)

below-Acc : (k n : ℕ) → n < k → Acc ◌<◌ n
below-Acc zero n h = elim h [ ]
below-Acc (suc k) n h = Acc.intro n (λ m hm. below-Acc k m (omega arith))

pub lt_wf : WellFounded ◌<◌
lt_wf = record { apply = λ n. below-Acc (suc n) n (omega arith) }

pub halving {ℓ} : (P : ℕ → Type ℓ) → P 0 → ((n : ℕ) → P (suc n / 2) → P (suc n)) → (n : ℕ) → P n
halving P base step n = Wf.induction lt_wf {C = P} n go
  where
    go : (k : ℕ) → ((m : ℕ) → m < k → P m) → P k
    go zero ih = base
    go (suc k) ih = step k (ih (suc k / 2) (omega arith))

differ_self : (b : ℕ) → differ b b ≡ 0
differ_self zero = refl
differ_self (suc b) = differ_self b

differ-zero : (b : ℕ) → differ b 0 ≡ b
differ-zero zero = refl
differ-zero (suc b) = refl

pub bit_xor_self : (a : ℕ) → bit_xor a a ≡ 0
bit_xor_self =
    halving (λ a. bit_xor a a ≡ 0) refl
      λ n ih. omega (arith, bit_xor_step (suc n) (suc n), differ_self (suc n % 2), ih)

pub bit_xor-zero : (a : ℕ) → bit_xor a 0 ≡ a
bit_xor-zero =
    halving (λ a. bit_xor a 0 ≡ a) refl
      λ n ih. omega (arith, bit_xor_step (suc n) 0, differ-zero (suc n % 2), ih)

pub bit_or-zero : (a : ℕ) → bit_or a 0 ≡ a
bit_or-zero = halving (λ a. bit_or a 0 ≡ a) refl λ n ih. omega (arith, bit_or_step (suc n) 0, ih)

pub bit_and-zero : (a : ℕ) → bit_and a 0 ≡ 0
bit_and-zero = halving (λ a. bit_and a 0 ≡ 0) refl λ n ih. omega (arith, bit_and_step (suc n) 0, ih)

differ-lt-two : (x y : ℕ) → x < 2 → y < 2 → differ x y < 2
differ-lt-two zero y h k = k
differ-lt-two (suc zero) zero h k = omega arith
differ-lt-two (suc zero) (suc zero) h k = omega arith
differ-lt-two (suc zero) (suc (suc y)) h k = absurd (omega arith)
differ-lt-two (suc (suc x)) y h k = absurd (omega arith)

pub bit_xor-lt : (k a b : ℕ) → a < 2 ^ k → b < 2 ^ k → bit_xor a b < 2 ^ k
bit_xor-lt zero a b h g =
    let p : a ≡ 0 = omega arith in let q : b ≡ 0 = omega arith in rw (p, q) (omega arith)
bit_xor-lt (suc k) a b h g = omega (
  arith,
  bit_xor_step a b,
  differ-lt-two (a % 2) (b % 2) (omega arith) (omega arith),
  pow-suc 2 k,
  bit_xor-lt k (a / 2) (b / 2) (omega (arith, pow-suc 2 k)) (omega (arith, pow-suc 2 k)),
)

-- `(q << k) | r` is a sum where `r` fits `k` bits.
pub bit_or_fields : (k q r : ℕ) → r < 2 ^ k → bit_or (q * 2 ^ k) r ≡ q * 2 ^ k + r
bit_or_fields zero q r fits =
    let e : r ≡ 0 = omega arith in rw e (omega (arith, bit_or-zero (q * 2 ^ 0)))
bit_or_fields (suc k) q r fits =
    let shift : q * 2 ^ suc k ≡ q * 2 ^ k * 2 =
      omega (arith, ap (λ (t : ℕ). q * t) (pow-suc 2 k)) in
    let half : q * 2 ^ suc k / 2 ≡ q * 2 ^ k = omega (arith, shift) in
    let even : max ((q * 2 ^ suc k) % 2) (r % 2) ≡ r % 2 = omega (arith, shift) in
    let small : r / 2 < 2 ^ k = omega (arith, pow-suc 2 k) in
    bit_or_step (q * 2 ^ suc k) r
    ∙ ap₂ (λ (x y : ℕ). x * 2 + y)
        (ap (λ (t : ℕ). bit_or t (r / 2)) half ∙ bit_or_fields k q (r / 2) small) even
    ∙ omega (arith, shift)

mod_double : (a m : ℕ) → 1 ≤ m → a % (m * 2) ≡ (a / 2) % m * 2 + a % 2
mod_double a m h =
    let r : ℕ = (a / 2) % m * 2 + a % 2 in
    let small : r < m * 2 = omega (arith, mod-lt (a / 2) {m = m} h) in
    let whole : a ≡ r + (a / 2 / m) * (m * 2) = omega (arith, mod-add-div' (a / 2) m) in
    ap (λ (t : ℕ). t % (m * 2)) whole
    ∙ add-mul-mod_self_right r (a / 2 / m) (m * 2)
    ∙ mod-eq_of_lt small

-- A mask of `k` low bits is the remainder by `2 ^ k`.
pub bit_and_mask : (k a : ℕ) → bit_and a (2 ^ k - 1) ≡ a % 2 ^ k
bit_and_mask zero a = ground (arith, bit_and-zero a)
bit_and_mask (suc k) a =
    let positive : 1 ≤ 2 ^ k = one-le-pow k 2 (omega arith) in
    let mask : (2 ^ suc k - 1) / 2 ≡ 2 ^ k - 1 = omega (arith, pow-suc 2 k) in
    let low : min (a % 2) ((2 ^ suc k - 1) % 2) ≡ a % 2 = omega (arith, pow-suc 2 k) in
    bit_and_step a (2 ^ suc k - 1)
    ∙ ap₂ (λ (x y : ℕ). x * 2 + y) (ap (bit_and (a / 2)) mask ∙ bit_and_mask k (a / 2)) low
    ∙ sym (mod_double a (2 ^ k) positive)
    ∙ ap (λ (t : ℕ). a % t) (sym (pow-suc 2 k))

pub pow-add : (a b : ℕ) → 2 ^ (a + b) ≡ 2 ^ a * 2 ^ b
pow-add zero b = let left : zero + b ≡ b = omega arith in ap (λ (t : ℕ). 2 ^ t) left ∙ omega arith
pow-add (suc a) b =
    let left : suc a + b ≡ suc (a + b) = omega arith in
    let inner : 2 ^ (a + b) * 2 ≡ 2 ^ a * 2 ^ b * 2 = ap (λ (t : ℕ). t * 2) (pow-add a b) in
    let right : 2 ^ suc a * 2 ^ b ≡ 2 ^ a * 2 * 2 ^ b = ap (λ (t : ℕ). t * 2 ^ b) (pow-suc 2 a) in
    ap (λ (t : ℕ). 2 ^ t) left ∙ pow-suc 2 (a + b) ∙ inner ∙ omega (arith, right)
