-- ===== src/Section/Crc.antt =====
-- A message that ends with its own CRC, most significant byte first, has the CRC 0.
use Prim.Native.Nat.{bit_and, bit_xor}
use dvb_vulture.Prelude.{
  ℕ, zero, suc, ◌+◌, ◌*◌, ◌/◌, ◌%◌, ◌^◌, ◌<◌, ◌≡◌, refl, ap, ◌∙◌, List, [], ◌∷◌, ◌++◌, length, take,
  get_or, ltb, ltb→lt, true, arith,
}
use dvb_vulture.Prelude.Bits.{
  bit_xor_self, bit_xor-zero, bit_xor-lt, bit_and_mask, all_below, all_from, all_below-at,
}
use dvb_vulture.Section.CrcTable.{crc_table}
use dvb_vulture.Section.{crc_round, crc_loop, sec_crc32}

-- the four bytes that `htonl` puts in memory
abbrev pub be32 : ℕ → List ℕ
be32 v = v / 2 ^ 24 % 256 ∷ v / 2 ^ 16 % 256 ∷ v / 2 ^ 8 % 256 ∷ v % 256 ∷ []

table_words : all_below 256 (λ i. ltb (get_or crc_table i 0) (2 ^ 32)) ≡ true
unfolding all_from crc_table
table_words = refl

pub crc_round-lt : (crc byte : ℕ) → crc_round crc byte < 2 ^ 32
unfolding crc_round
crc_round-lt crc byte =
    let index : ℕ = bit_and (bit_xor (crc / 2 ^ 24) byte) 0xff in
    bit_xor-lt 32 (crc * 2 ^ 8 % 2 ^ 32) (get_or crc_table index 0) (omega arith) (
      ltb→lt _ _ (
        all_below-at 256 (λ i. ltb (get_or crc_table i 0) (2 ^ 32)) index table_words
          (omega (arith, bit_and_mask 8 (bit_xor (crc / 2 ^ 24) byte)))))

pub crc_loop-lt : (bytes : List ℕ) (len crc : ℕ) → crc < 2 ^ 32 → crc_loop bytes len crc < 2 ^ 32
unfolding crc_loop
crc_loop-lt bytes zero crc h = h
crc_loop-lt [] (suc len) crc h = crc_loop-lt [] len _ (crc_round-lt crc 0)
crc_loop-lt (b ∷ bytes) (suc len) crc h = crc_loop-lt bytes len _ (crc_round-lt crc b)

-- Feeding the top byte of the register shifts it out.
crc_round_top : (crc : ℕ) → crc_round crc (crc / 2 ^ 24) ≡ crc * 2 ^ 8 % 2 ^ 32
unfolding crc_round crc_table
crc_round_top crc = rw bit_xor_self (bit_xor-zero (crc * 2 ^ 8 % 2 ^ 32))

shifts_out : (crc byte : ℕ) → byte ≡ crc / 2 ^ 24 → crc_round crc byte ≡ crc * 2 ^ 8 % 2 ^ 32
shifts_out crc byte e = ap (crc_round crc) e ∙ crc_round_top crc

own_crc : (crc : ℕ) (rest : List ℕ) → crc < 2 ^ 32 → crc_loop (be32 crc ++ rest) 4 crc ≡ 0
unfolding crc_loop
own_crc crc rest h =
    let c₁ : ℕ = crc * 2 ^ 8 % 2 ^ 32 in
    let c₂ : ℕ = c₁ * 2 ^ 8 % 2 ^ 32 in
    let c₃ : ℕ = c₂ * 2 ^ 8 % 2 ^ 32 in
    let end : c₃ * 2 ^ 8 % 2 ^ 32 ≡ 0 = omega arith in
    let b₂ : ℕ = crc / 2 ^ 16 % 256 in
    let b₁ : ℕ = crc / 2 ^ 8 % 256 in
    let b₀ : ℕ = crc % 256 in
    ap (λ (c : ℕ). crc_round (crc_round (crc_round c b₂) b₁) b₀)
      (shifts_out crc (crc / 2 ^ 24 % 256) (omega arith))
    ∙ ap (λ (c : ℕ). crc_round (crc_round c b₁) b₀) (shifts_out c₁ b₂ (omega arith))
    ∙ ap (λ (c : ℕ). crc_round c b₀) (shifts_out c₂ b₁ (omega arith))
    ∙ shifts_out c₃ b₀ (omega arith)
    ∙ end

crc_loop-append :
    (xs ys : List ℕ) (n crc : ℕ)
    → crc_loop (xs ++ ys) (length xs + n) crc ≡ crc_loop ys n (crc_loop xs (length xs) crc)
unfolding crc_loop
crc_loop-append [] ys n crc = let e : 0 + n ≡ n = omega arith in ap (λ t. crc_loop ys t crc) e
crc_loop-append (x ∷ xs) ys n crc =
    let e : suc (length xs) + n ≡ suc (length xs + n) = omega arith in
    ap (λ t. crc_loop (x ∷ (xs ++ ys)) t crc) e ∙ crc_loop-append xs ys n (crc_round crc x)

-- The bytes behind the first `n` do not count.
crc_loop-take : (n : ℕ) (s : List ℕ) (crc : ℕ) → crc_loop s n crc ≡ crc_loop (take n s) n crc
unfolding crc_loop
crc_loop-take zero s crc = refl
crc_loop-take (suc n) [] crc = refl
crc_loop-take (suc n) (x ∷ s) crc = crc_loop-take n s (crc_round crc x)

pub sec_crc32-take : (n : ℕ) (s : List ℕ) → sec_crc32 s n ≡ sec_crc32 (take n s) n
unfolding sec_crc32
sec_crc32-take n s = crc_loop-take n s 0xffffffff

-- Bytes followed by their own CRC, as `htonl` stores it, have the CRC 0, whatever follows.
pub sec_crc32_closes :
    (bytes rest : List ℕ)
    → sec_crc32 (bytes ++ (be32 (sec_crc32 bytes (length bytes)) ++ rest)) (length bytes + 4) ≡ 0
unfolding sec_crc32
sec_crc32_closes bytes rest =
    crc_loop-append bytes _ 4 0xffffffff ∙ own_crc _ rest (crc_loop-lt bytes _ _ (omega arith))
