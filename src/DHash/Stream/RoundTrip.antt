-- ===== src/DHash/Stream/RoundTrip.antt =====
-- What is written of a table is read as the same table.
use dvb_vulture.Prelude.{ℕ, ◌≡◌, List, ◌++◌, Bool}
use dvb_vulture.ListStream
use dvb_vulture.DHash.{DHash}

module _ {ℓ} {A : Type ℓ} where
  -- What the callbacks agree on: an element that is written is read again.
  abbrev pub Agree : (put : A → List ℕ × Bool) → (get : List ℕ → A × List ℕ) → Type ℓ
  Agree put get = (v : A) (file : List ℕ) → get ((put v).0 ++ file) ≡ (v, file)
