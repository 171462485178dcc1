-- ===== src/Bifi/Laws.antt =====
-- Setting and clearing a bit, as reads see it.
use Prim.Native.Nat.{bit_and, bit_or}
use dvb_vulture.Prelude.{
  ℕ, zero, suc, ◌-◌, ◌*◌, ◌/◌, ◌%◌, ◌^◌, ◌<◌, ◌≡◌, refl, ap, ap₂, sym, ◌∙◌, List, [], ◌∷◌, length,
  get_or, set, Bool, true, false, not, ◌&&◌, ◌||◌, ◌==◌, arith, inl, inr, Bool-cases, ==_iff, ==_ne,
  get_or-set_self, get_or-set_ne, length-set,
}
use dvb_vulture.Prelude.Buffer.{IsBytes, IsBytes-set}
use dvb_vulture.Bifi.{bifi_get, bifi_set, bifi_clr, has}
use dvb_vulture.Bifi.Bytes.{byte_laws}

get_or-lt : (field : List ℕ) (n : ℕ) → IsBytes field → get_or field n 0 < 256
get_or-lt [] n h = omega arith
get_or-lt (b ∷ field) zero h = h.0
get_or-lt (b ∷ field) (suc n) h = get_or-lt field n h.1

-- a field of bytes with this position
abbrev pub IsField : List ℕ → ℕ → Type 0
IsField field i = IsBytes field × (i < 8 * length field)

position : (i j : ℕ) → i / 8 ≡ j / 8 → (i % 8 == j % 8) ≡ (i == j)
position i j h = elim (Bool-cases (i == j)) [
  | inl same ↦
      let e : i ≡ j = (==_iff i j).0 same in
      rw e ((==_iff (j % 8) (j % 8)).1 refl ∙ sym ((==_iff j j).1 refl))
  | inr other ↦ rw other (==_ne (i % 8) (j % 8) (λ e. absurd (ground (arith, other))))
]

or_false : (b : Bool) → (b || false) ≡ b
or_false true = refl
or_false false = refl

and_true : (b : Bool) → (b && true) ≡ b
and_true true = refl
and_true false = refl

module _ (field : List ℕ) (i : ℕ) (f : IsField field i) where
  byte : ℕ
  byte = get_or field (i / 8) 0

  read_back :
      (v j : ℕ)
      → (i / 8 ≡ j / 8 → get_or (set field (i / 8) v) (j / 8) 0 ≡ v)
        × ((i / 8 == j / 8) ≡ false
            → get_or (set field (i / 8) v) (j / 8) 0 ≡ get_or field (j / 8) 0)
  read_back v j = (
    λ e.
        ap (λ (k : ℕ). get_or (set field (i / 8) v) k 0) (sym e)
        ∙ get_or-set_self field (i / 8) v 0 (omega (arith, f.1)),
    λ ne. get_or-set_ne field (i / 8) (j / 8) v 0 (λ e. absurd (ground (arith, ne))),
  )

  small : byte < 256
  unfolding byte
  small = get_or-lt field (i / 8) f.0

  -- The bit is set, and the others stay.
  pub has-bifi_set : (j : ℕ) → has (bifi_set field i) j ≡ (has field j || (i == j))
  unfolding bifi_set bifi_get byte
  has-bifi_set j =
      let v = bit_or byte (2 ^ (i % 8)) in
      let law = (byte_laws byte (i % 8) (j % 8) small (omega arith) (omega arith)).2 in
      let read = read_back v j in
      elim (Bool-cases (i / 8 == j / 8)) [
        | inl same ↦
            let e : i / 8 ≡ j / 8 = (==_iff (i / 8) (j / 8)).0 same in
            ap (λ b. not (bit_and b (2 ^ (j % 8)) == 0)) (read.0 e)
            ∙ law
            ∙ ap₂ (λ (k : ℕ) b. not (bit_and (get_or field k 0) (2 ^ (j % 8)) == 0) || b) e
                (position i j e)
        | inr other ↦
            let ne : (i == j) ≡ false = ==_ne i j (λ e. absurd (ground (arith, other))) in
            ap (λ b. not (bit_and b (2 ^ (j % 8)) == 0)) (read.1 other)
            ∙ sym (or_false (has field j))
            ∙ ap (λ b. has field j || b) (sym ne)
      ]

  -- The bit is cleared, and the others stay.
  pub has-bifi_clr : (j : ℕ) → has (bifi_clr field i) j ≡ (has field j && not (i == j))
  unfolding bifi_clr bifi_get byte
  has-bifi_clr j =
      let v = bit_and byte (255 - 2 ^ (i % 8)) in
      let law = (byte_laws byte (i % 8) (j % 8) small (omega arith) (omega arith)).3 in
      let read = read_back v j in
      elim (Bool-cases (i / 8 == j / 8)) [
        | inl same ↦
            let e : i / 8 ≡ j / 8 = (==_iff (i / 8) (j / 8)).0 same in
            ap (λ b. not (bit_and b (2 ^ (j % 8)) == 0)) (read.0 e)
            ∙ law
            ∙ ap₂ (λ (k : ℕ) b. not (bit_and (get_or field k 0) (2 ^ (j % 8)) == 0) && not b) e
                (position i j e)
        | inr other ↦
            let ne : (i == j) ≡ false = ==_ne i j (λ e. absurd (ground (arith, other))) in
            ap (λ b. not (bit_and b (2 ^ (j % 8)) == 0)) (read.1 other)
            ∙ sym (and_true (has field j))
            ∙ ap (λ b. has field j && not b) (sym ne)
      ]

  pub IsBytes-bifi_set : IsBytes (bifi_set field i) × (length (bifi_set field i) ≡ length field)
  unfolding bifi_set byte
  IsBytes-bifi_set =
      let v = bit_or byte (2 ^ (i % 8)) in
      (
        IsBytes-set field (i / 8) v f.0
            (byte_laws byte (i % 8) 0 small (omega arith) (omega arith)).0,
        length-set field (i / 8) v,
      )

  pub IsBytes-bifi_clr : IsBytes (bifi_clr field i) × (length (bifi_clr field i) ≡ length field)
  unfolding bifi_clr byte
  IsBytes-bifi_clr =
      let v = bit_and byte (255 - 2 ^ (i % 8)) in
      (
        IsBytes-set field (i / 8) v f.0
            (byte_laws byte (i % 8) 0 small (omega arith) (omega arith)).1,
        length-set field (i / 8) v,
      )

-- For a field of bytes and a position in it, `bifiSet` sets the bit at that position and no other,
-- and `bifiClr` clears it and no other, as `bifiGet` sees them; both leave a field of bytes of the
-- same length.
pub set_clr_get :
    (field : List ℕ) (i : ℕ)
    → IsField field i
    → ((j : ℕ) → has (bifi_set field i) j ≡ (has field j || (i == j)))
      × ((j : ℕ) → has (bifi_clr field i) j ≡ (has field j && not (i == j)))
      × (IsBytes (bifi_set field i) × (length (bifi_set field i) ≡ length field))
      × (IsBytes (bifi_clr field i) × (length (bifi_clr field i) ≡ length field))
set_clr_get field i f = (
  has-bifi_set field i f,
  has-bifi_clr field i f,
  IsBytes-bifi_set field i f,
  IsBytes-bifi_clr field i f,
)
