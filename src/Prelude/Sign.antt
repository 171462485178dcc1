-- ===== src/Prelude/Sign.antt =====
-- The result of a comparison function: its sign is all that the callers look at.
use mathlib.Core.Path.{◌≡◌, refl}
use mathlib.Core.Logic.{◌⊎◌, inl, inr}

-- below 0, 0, above 0
pub data Sign : Type 0 where
  less : Sign
  same : Sign
  more : Sign

abbrev pub flip : Sign → Sign
flip less = more
flip same = same
flip more = less

pub Sign-cases : (s : Sign) → (s ≡ less) ⊎ ((s ≡ same) ⊎ (s ≡ more))
Sign-cases less = inl refl
Sign-cases same = inr (inl refl)
Sign-cases more = inr (inr refl)

-- The contract of a comparison function: to compare the other way round flips the sign, and both
-- orders that it gives are transitive.
pub record IsComparison {ℓ} {A : Type ℓ} (cmp : A → A → Sign) : Type ℓ where
  pub flipped : (a b : A) → cmp b a ≡ flip (cmp a b)
  pub chained : (a b c : A) → cmp a b ≡ less → cmp b c ≡ less → cmp a c ≡ less
  pub alike : (a b c : A) → cmp a b ≡ same → cmp b c ≡ less → cmp a c ≡ less
