-- ===== src/SecEx/Collect.antt =====
-- The copy into the section buffer: it appends, and stops at the buffer's size.
use dvb_vulture.Prelude.{
  ℕ, ◌+◌, ◌-◌, ◌≤◌, ◌≡◌, ap, ap₂, sym, ◌∙◌, List, ◌++◌, length, take, drop, length-take,
  length-drop, ltb, arith, take-append_right, take-take_le, take_all, length-append, Bool-cases,
  inl, inr, take-append,
}
use dvb_vulture.Prelude.Buffer.{write, write_lem, length-write}
use dvb_vulture.SecEx.{max_sec_sz, SecState, collect}

-- the bytes `from` to `to`
abbrev pub slice : List ℕ → ℕ → ℕ → List ℕ
slice bytes from to = take (to - from) (drop from bytes)

-- the bytes of the section so far
abbrev pub gathered : SecState → List ℕ
gathered st = take st.buf_idx st.body

pub record IsRoomy (st : SecState) : Type 0 where
  pub size : length st.body ≡ max_sec_sz
  pub within : st.buf_idx ≤ max_sec_sz

-- what a write at the end of the first `i` bytes leaves in front of its own end
written :
    (i : ℕ) (bs s : List ℕ)
    → i + length bs ≤ length s
    → take (i + length bs) (write s i bs) ≡ take i s ++ bs
written i bs s h =
    let front : length (take i s) ≡ i = omega (arith, length-take i s) in
    let rest : List ℕ = drop (length bs) (drop i s) in
    ap₂ (λ (k : ℕ) (t : List ℕ). take k t) (ap (λ (k : ℕ). k + length bs) (sym front))
      (write_lem i bs s h)
    ∙ take-append_right (take i s) (bs ++ rest) (length bs)
    ∙ ap (λ t. take i s ++ t) (take-append bs rest)

-- a write that is cut off at the buffer's size `m`
written_cut :
    (i m : ℕ) (s xs : List ℕ)
    → length s ≡ m
    → i ≤ m
    → m - i ≤ length xs
    → take m (write s i (take (m - i) xs)) ≡ take m (take i s ++ xs)
written_cut i m s xs size low enough =
    let front : length (take i s) ≡ i = omega (arith, length-take i s) in
    let part : length (take (m - i) xs) ≡ m - i = omega (arith, length-take (m - i) xs) in
    let all : i + length (take (m - i) xs) ≡ m = omega arith in
    let whole : length (take i s) + (m - i) ≡ m = omega arith in
    ap (λ (k : ℕ). take k (write s i (take (m - i) xs))) (sym all)
    ∙ written i (take (m - i) xs) s (omega arith)
    ∙ sym (take-append_right (take i s) xs (m - i))
    ∙ ap (λ (k : ℕ). take k (take i s ++ xs)) whole

-- one that fits
written_whole :
    (i m n : ℕ) (s xs : List ℕ)
    → length s ≡ m
    → length xs ≡ n
    → i + n ≤ m
    → take (i + n) (write s i xs) ≡ take m (take i s ++ xs)
written_whole i m n s xs size count low =
    let total : i + n ≡ i + length xs = omega arith in
    ap (λ (k : ℕ). take k (write s i xs)) total
    ∙ written i xs s (omega arith)
    ∙ sym
        (take_all m (take i s ++ xs) (omega (arith, length-append (take i s) xs, length-take i s)))

module _ (st : SecState) (bytes : List ℕ) (from to : ℕ) (v : IsRoomy st) (order : from ≤ to)
    (inside : to ≤ length bytes) where
  length-slice : length (slice bytes from to) ≡ to - from
  length-slice = omega (arith, length-take (to - from) (drop from bytes), length-drop from bytes)

  pub collect-IsRoomy : IsRoomy (collect st bytes from to)
  unfolding collect
  collect-IsRoomy = record {
    size = ground (
      arith,
      v.size,
      length-write (take (max_sec_sz - st.buf_idx) (drop from bytes)) st.body st.buf_idx,
      length-write (slice bytes from to) st.body st.buf_idx,
    );
    within = ground (arith, v.within);
  }

  -- The copy appends the slice to what was gathered, and keeps the first 4096 bytes.
  pub gathered-collect :
      gathered (collect st bytes from to) ≡ take max_sec_sz (gathered st ++ slice bytes from to)
  unfolding collect
  gathered-collect = elim (Bool-cases (ltb max_sec_sz (to - from + st.buf_idx))) [
    | inl out ↦ rw out (
        ap (λ t. take max_sec_sz (write st.body st.buf_idx t))
          (sym
            (take-take_le (max_sec_sz - st.buf_idx) (to - from) (drop from bytes) (ground arith)))
        ∙ written_cut st.buf_idx max_sec_sz st.body (slice bytes from to) v.size v.within
            (ground (arith, length-slice)))
    | inr room ↦ rw room (
        written_whole st.buf_idx max_sec_sz (to - from) st.body (slice bytes from to) v.size
          length-slice (ground arith))
  ]
