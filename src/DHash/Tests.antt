-- ===== src/DHash/Tests.antt =====
-- Tables of numbers that are their own hash values.
use dvb_vulture.Prelude.{
  ℕ, ◌≡◌, refl, [], ◌∷◌, none, some, Bool, true, false, ◌==◌, ==_iff, replicate, arith,
}
use dvb_vulture.DHash.{DHash, init, for_each, clear, get, resize, put, remove}
use dvb_vulture.DHash.View.{IsEquality, IsTable}
use dvb_vulture.DHash.Resize.{resize-get}
use dvb_vulture.DHash.Put.{or_new, put-adds}
use dvb_vulture.DHash.Remove.{remove-takes}

abbrev own : ℕ → ℕ
own n = n

abbrev eq : ℕ → ℕ → Bool
eq a b = a == b

own-IsEquality : IsEquality own eq
own-IsEquality = record {
  turned = λ (a b : ℕ). ground arith;
  chained = λ (a b c : ℕ) f g. ground arith;
  hashed = λ (a b : ℕ) f. (==_iff a b).0 f;
}

-- three lists, of which two have elements
abbrev three : DHash ℕ
three = record { tbl_size = 3; num_entries = 3; tbl = [] ∷ (4 ∷ 7 ∷ []) ∷ (5 ∷ []) ∷ [] }

three-IsTable : IsTable own eq three
three-IsTable = record {
  sized = refl;
  some_list = omega arith;
  placed = (tt, tt, ((refl, (refl, tt)), ((refl, tt), (tt, tt)), ((refl, tt), (tt, tt), tt)));
  counted = refl;
}

-- a fourth element makes the table grow
put-grows : put own eq true true three 10 ≡ (
  0,
  record {
    tbl_size = 6;
    num_entries = 4;
    tbl = [] ∷ (7 ∷ []) ∷ [] ∷ [] ∷ (4 ∷ 10 ∷ []) ∷ (5 ∷ []) ∷ [];
  },
)
unfolding put get resize
put-grows = refl

-- without the memory to grow, the element is there, and the status is an error
put-stays :
    put own eq true false three 10
    ≡ (1, record { tbl_size = 3; num_entries = 4; tbl = [] ∷ (4 ∷ 7 ∷ 10 ∷ []) ∷ (5 ∷ []) ∷ [] })
unfolding put get resize
put-stays = refl

put-twice : put own eq true true three 7 ≡ (1, three)
unfolding put get
put-twice = refl

init-empty : (init true three).1.tbl ≡ replicate 32 []
unfolding init
init-empty = refl

clear-all : clear three ≡ (for_each three, record { tbl_size = 0; num_entries = 0; tbl = [] })
unfolding clear for_each
clear-all = refl

resize-get_example :
    IsTable own eq (resize own eq true three 2).1
    × ((ref : ℕ) → get own eq (resize own eq true three 2).1 ref ≡ get own eq three ref)
resize-get_example = resize-get own eq own-IsEquality true three 2 three-IsTable (omega arith)

three-seven : get own eq three 7 ≡ some 7
unfolding get
three-seven = refl

three-ten : get own eq three 10 ≡ none
unfolding get
three-ten = refl

put-adds_example :
    IsTable own eq (put own eq true true three 10).1
    × ((ref : ℕ)
        → get own eq (put own eq true true three 10).1 ref
          ≡ or_new own eq 10 ref (get own eq three ref))
put-adds_example =
    put-adds own eq own-IsEquality true three 10 three-IsTable three-ten (omega arith) (omega arith)

remove-takes_example :
    ((remove own eq true three 7).0 ≡ some 7)
    × IsTable own eq (remove own eq true three 7).1
    × (get own eq (remove own eq true three 7).1 7 ≡ none)
    × ((x : ℕ) → eq 7 x ≡ false → get own eq (remove own eq true three 7).1 x ≡ get own eq three x)
remove-takes_example =
    remove-takes own eq own-IsEquality true three 7 7 three-IsTable three-seven (omega arith)
