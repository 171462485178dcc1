-- ===== src/SecEx/Spec.antt =====
-- What the extractor of one pid promises, without its buffers: the bytes of the section so far, or
-- the packet in which the next one starts.
use dvb_vulture.Prelude.{ℕ, List, [], ◌++◌, take, Option, none, some}
use dvb_vulture.SecEx.{Packet, invalid, ranges, get_ranges, max_sec_sz, end_of}
use dvb_vulture.SecEx.Collect.{slice}

pub data Progress : Type 0 where
  waiting : Progress
  filling : List ℕ → Progress
  holding : Packet → Progress

-- a section's bytes, of which those past 4096 are dropped
abbrev pub extend : List ℕ → List ℕ → (from to : ℕ) → List ℕ
extend xs bytes from to = take max_sec_sz (xs ++ slice bytes from to)

-- A packet adds its payload; if another section starts in it, the section is complete.
unfoldable pub fill : List ℕ → Packet → (a b : ℕ) → Option ℕ → Progress × Option (List ℕ)
fill xs p a b none = (filling (extend xs p.bytes a b), none)
fill xs p a b (some c) = (holding p, some (extend xs p.bytes a b))

-- the start of a section, in the packet that was held back
unfoldable pub head_of : Packet → List ℕ
head_of q = elim (get_ranges q.bytes) [
  | invalid _ ↦ []
  | ranges a b c ↦ extend [] q.bytes b (end_of c)
]

unfoldable pub spec_at : Progress → Packet → (a b : ℕ) → Option ℕ → Progress × Option (List ℕ)
unfolding fill head_of
spec_at waiting p a b none = (waiting, none)
spec_at waiting p a b (some c) = (filling (extend [] p.bytes b c), none)
spec_at (filling xs) p a b c = fill xs p a b c
spec_at (holding q) p a b c = fill (head_of q) p a b c

-- A packet with no payload changes nothing.
unfoldable pub spec : Progress → Packet → Progress × Option (List ℕ)
unfolding spec_at
spec s p = elim (get_ranges p.bytes) [ invalid _ ↦ (s, none) | ranges a b c ↦ spec_at s p a b c ]
