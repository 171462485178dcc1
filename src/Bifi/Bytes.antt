-- ===== src/Bifi/Bytes.antt =====
-- A bit of a byte, by tables over all bytes and positions.
use Prim.Native.Nat.{bit_and, bit_or}
use dvb_vulture.Prelude.{
  ℕ, ◌-◌, ◌<◌, ◌^◌, ◌≡◌, refl, Bool, true, false, not, ◌&&◌, ◌||◌, ◌==◌, ltb, arith, ltb→lt,
}
use dvb_vulture.Prelude.Bits.{all_below, all_from, all_below-at}

abbrev bit : ℕ → ℕ → Bool
bit byte k = not (bit_and byte (2 ^ k) == 0)

abbrev same : Bool → Bool → Bool
same true b = b
same false b = not b

same_lem : (a b : Bool) → same a b ≡ true → a ≡ b
same_lem true true h = refl
same_lem true false h = ground (arith, h)
same_lem false true h = ground (arith, h)
same_lem false false h = refl

and_both : (a b : Bool) → (a && b) ≡ true → (a ≡ true) × (b ≡ true)
and_both true true h = (refl, refl)
and_both true false h = absurd (ground (arith, h))
and_both false b h = absurd (ground (arith, h))

and_left : {a b : Bool} → (a && b) ≡ true → (a ≡ true) × (b ≡ true)
and_left {a} {b} h = and_both a b h

-- the laws of one byte and two positions
law : ℕ → ℕ → ℕ → Bool
law byte k l =
    ltb (bit_or byte (2 ^ k)) 256
    && ltb (bit_and byte (255 - 2 ^ k)) 256
    && same (bit (bit_or byte (2 ^ k)) l) (bit byte l || (k == l))
    && same (bit (bit_and byte (255 - 2 ^ k)) l) (bit byte l && not (k == l))

table : all_below 256 (λ byte. all_below 8 (λ k. all_below 8 (λ l. law byte k l))) ≡ true
unfolding all_from law
table = refl

pub byte_laws :
    (byte k l : ℕ)
    → byte < 256
    → k < 8
    → l < 8
    → (bit_or byte (2 ^ k) < 256)
      × (bit_and byte (255 - 2 ^ k) < 256)
      × (bit (bit_or byte (2 ^ k)) l ≡ (bit byte l || (k == l)))
      × (bit (bit_and byte (255 - 2 ^ k)) l ≡ (bit byte l && not (k == l)))
unfolding law
byte_laws byte k l hb hk hl =
    let outer =
      all_below-at 256 (λ b. all_below 8 (λ k. all_below 8 (λ l. law b k l))) byte table hb in
    let middle = all_below-at 8 (λ k. all_below 8 (λ l. law byte k l)) k outer hk in
    let all : law byte k l ≡ true = all_below-at 8 (λ l. law byte k l) l middle hl in
    let clears =
      and_left {b = same (bit (bit_and byte (255 - 2 ^ k)) l) (bit byte l && not (k == l))} all in
    let sets =
      and_left {b = same (bit (bit_or byte (2 ^ k)) l) (bit byte l || (k == l))} clears.0 in
    let small =
      and_left {a = ltb (bit_or byte (2 ^ k)) 256} {b = ltb (bit_and byte (255 - 2 ^ k)) 256}
        sets.0 in
    (
      ltb→lt (bit_or byte (2 ^ k)) 256 small.0,
      ltb→lt (bit_and byte (255 - 2 ^ k)) 256 small.1,
      same_lem (bit (bit_or byte (2 ^ k)) l) (bit byte l || (k == l)) sets.1,
      same_lem (bit (bit_and byte (255 - 2 ^ k)) l) (bit byte l && not (k == l)) clears.1,
    )
