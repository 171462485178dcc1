-- ===== src/Prelude/Buffer.antt =====
-- Buffers of bytes, and `memmove` into one: what is there afterwards, and what is left alone.
use Prim.Native.Nat.{ℕ, zero, suc, ◌+◌, ◌≤◌, ◌<◌}
use mathlib.Core.Path.{◌≡◌, refl, ap, ◌∙◌}
use mathlib.Core.List.{List, [], ◌∷◌, ◌++◌}
use native.Mathlib.Omega.{arith}
use dvb_vulture.Prelude.Lists.{
  length, get_or, set, take, drop, length-set, get_or-set_ne, get_or-set_self,
}

-- every element is a byte
abbrev pub IsBytes : List ℕ → Type 0
IsBytes [] = Unit {0}
IsBytes (x ∷ xs) = (x < 256) × IsBytes xs

-- `memmove` of some bytes to `buffer + i`; what lies past the end is not written
unfoldable pub write : List ℕ → ℕ → List ℕ → List ℕ
write buffer i [] = buffer
write buffer i (b ∷ bytes) = write (set buffer i b) (suc i) bytes

pub length-write : (bs s : List ℕ) (i : ℕ) → length (write s i bs) ≡ length s
unfolding write
length-write [] s i = refl
length-write (b ∷ bs) s i = length-write bs (set s i b) (suc i) ∙ length-set s i b

write_cons : (bs s : List ℕ) (x i : ℕ) → write (x ∷ s) (suc i) bs ≡ x ∷ write s i bs
unfolding write
write_cons [] s x i = refl
write_cons (b ∷ bs) s x i = write_cons bs (set s i b) x (suc i)

write_front : (bs s : List ℕ) → length bs ≤ length s → write s 0 bs ≡ bs ++ drop (length bs) s
unfolding write
write_front [] s h = refl
write_front (b ∷ bs) [] h = absurd (omega arith)
write_front (b ∷ bs) (x ∷ s) h =
    write_cons bs s b 0 ∙ ap (λ t. b ∷ t) (write_front bs s (omega arith))

-- A write that fits replaces just those bytes.
pub write_lem :
    (i : ℕ) (bs s : List ℕ)
    → i + length bs ≤ length s
    → write s i bs ≡ take i s ++ (bs ++ drop (length bs) (drop i s))
write_lem zero bs s h = write_front bs s (omega arith)
write_lem (suc i) bs [] h = absurd (omega arith)
write_lem (suc i) bs (x ∷ s) h =
    write_cons bs s x i ∙ ap (λ t. x ∷ t) (write_lem i bs s (omega arith))

-- The bytes in front of a write stay.
pub get_or-write_below :
    (bs s : List ℕ) (i j d : ℕ) → j < i → get_or (write s i bs) j d ≡ get_or s j d
unfolding write
get_or-write_below [] s i j d h = refl
get_or-write_below (b ∷ bs) s i j d h =
    get_or-write_below bs (set s i b) (suc i) j d (omega arith)
    ∙ get_or-set_ne s i j b d (λ e. omega arith)

-- So do those behind it.
pub get_or-write_above :
    (bs s : List ℕ) (i j d : ℕ) → i + length bs ≤ j → get_or (write s i bs) j d ≡ get_or s j d
unfolding write
get_or-write_above [] s i j d h = refl
get_or-write_above (b ∷ bs) s i j d h =
    get_or-write_above bs (set s i b) (suc i) j d (omega arith)
    ∙ get_or-set_ne s i j b d (λ e. omega arith)

-- The bytes that were written are there.
pub get_or-write_at :
    (bs s : List ℕ) (i j d : ℕ)
    → i + length bs ≤ length s
    → j < length bs
    → get_or (write s i bs) (i + j) d ≡ get_or bs j d
unfolding write
get_or-write_at [] s i j d h g = absurd (omega arith)
get_or-write_at (b ∷ bs) s i zero d h g =
    let e : i + 0 ≡ i = omega arith in
    ap (λ (k : ℕ). get_or (write (set s i b) (suc i) bs) k d) e
    ∙ get_or-write_below bs (set s i b) (suc i) i d (omega arith)
    ∙ get_or-set_self s i b d (omega arith)
get_or-write_at (b ∷ bs) s i (suc j) d h g =
    let e : i + suc j ≡ suc i + j = omega arith in
    ap (λ (k : ℕ). get_or (write (set s i b) (suc i) bs) k d) e
    ∙ get_or-write_at bs (set s i b) (suc i) j d (omega (arith, length-set s i b)) (omega arith)

pub IsBytes-set : (s : List ℕ) (i v : ℕ) → IsBytes s → v < 256 → IsBytes (set s i v)
IsBytes-set [] i v h g = tt
IsBytes-set (x ∷ s) zero v h g = (g, h.1)
IsBytes-set (x ∷ s) (suc i) v h g = (h.0, IsBytes-set s i v h.1 g)

pub IsBytes-write : (bs s : List ℕ) (i : ℕ) → IsBytes s → IsBytes bs → IsBytes (write s i bs)
unfolding write
IsBytes-write [] s i h g = h
IsBytes-write (b ∷ bs) s i h g = IsBytes-write bs (set s i b) (suc i) (IsBytes-set s i b h g.0) g.1
