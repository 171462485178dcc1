-- ===== src/DList/Seg.antt =====
-- What of a list stands in memory one behind the other.
use dvb_vulture.Prelude.{
  ℕ, ◌≡◌, ◌≢◌, refl, sym, ◌∙◌, List, [], ◌∷◌, ◌++◌, Option, none, some, ==_ne, ==_refl, AllIn,
  AllIn-map, AllIn-append, AllIn-split,
}
use dvb_vulture.DList.{put, put_at}

abbrev pub head_or : List ℕ → Option ℕ → Option ℕ
head_or [] front = front
head_or (a ∷ rest) front = some a

abbrev pub last_or : Option ℕ → List ℕ → Option ℕ
last_or back [] = back
last_or back (a ∷ rest) = last_or (some a) rest

-- The elements are linked both ways, with `back` behind the first and `front` in front of the last.
abbrev pub Seg : (next prev : ℕ → Option ℕ) → Option ℕ → List ℕ → Option ℕ → Type 0
Seg next prev back [] front = Unit {0}
Seg next prev back (a ∷ rest) front =
    (prev a ≡ back) × (next a ≡ head_or rest front) × Seg next prev (some a) rest front

-- the address is none of these
abbrev pub Fresh : ℕ → List ℕ → Type 0
Fresh a xs = AllIn (λ x. x ≢ a) xs

-- the pointer is NULL or to none of these
abbrev pub Apart : Option ℕ → List ℕ → Type 0
Apart none xs = Unit {0}
Apart (some a) xs = Fresh a xs

abbrev pub NoDup : List ℕ → Type 0
NoDup [] = Unit {0}
NoDup (a ∷ rest) = Fresh a rest × NoDup rest

abbrev pub Disjoint : List ℕ → List ℕ → Type 0
Disjoint xs ys = AllIn (λ x. Fresh x ys) xs

-- What all have, the last has.
pub last-all :
    (P : Option ℕ → Type 0) (back : Option ℕ) (xs : List ℕ)
    → P back
    → AllIn (λ x. P (some x)) xs
    → P (last_or back xs)
last-all P back [] b all = b
last-all P back (a ∷ rest) b all = last-all P (some a) rest all.0 all.1

pub head-all :
    (P : Option ℕ → Type 0) (xs : List ℕ) (front : Option ℕ)
    → P front
    → AllIn (λ x. P (some x)) xs
    → P (head_or xs front)
head-all P [] front f all = f
head-all P (a ∷ rest) front f all = all.0

pub put_self : (links : ℕ → Option ℕ) (a : ℕ) (p : Option ℕ) → put links a p a ≡ p
put_self links a p = rw (==_refl a) refl

pub put_other : (links : ℕ → Option ℕ) (a x : ℕ) (p : Option ℕ) → x ≢ a → put links a p x ≡ links x
put_other links a x p ne = rw (==_ne x a ne) refl

pub put_at_other :
    (links : ℕ → Option ℕ) (q : Option ℕ) (x : ℕ) (p : Option ℕ)
    → Apart q (x ∷ [])
    → put_at links q p x ≡ links x
put_at_other links none x p apart = refl
put_at_other links (some a) x p apart = put_other links a x p apart.0

-- Links elsewhere do not matter.
pub Seg-same :
    (next prev next' prev' : ℕ → Option ℕ) (back front : Option ℕ) (xs : List ℕ)
    → AllIn (λ x. (next' x ≡ next x) × (prev' x ≡ prev x)) xs
    → Seg next prev back xs front
    → Seg next' prev' back xs front
Seg-same next prev next' prev' back front [] same seg = tt
Seg-same next prev next' prev' back front (a ∷ rest) same seg = (
  same.0.1 ∙ seg.0,
  same.0.0 ∙ seg.1,
  Seg-same next prev next' prev' (some a) front rest same.1 seg.2,
)

-- The last link of all is redirected.
pub Seg-front :
    (next prev : ℕ → Option ℕ) (back front front' : Option ℕ) (xs : List ℕ)
    → NoDup xs
    → Seg next prev back xs front
    → Seg (put_at next (last_or back xs) front') prev back xs front'
Seg-front next prev back front front' [] nodup seg = tt
Seg-front next prev back front front' (a ∷ []) nodup seg = (seg.0, put_self next a front', tt)
Seg-front next prev back front front' (a ∷ b ∷ rest) nodup seg = (
  seg.0,
  put_at_other next (last_or (some b) rest) a front' (
        last-all (λ q. Apart q (a ∷ [])) (some b) rest ((λ e. nodup.0.0 (sym e)), tt)
          (AllIn-map (λ x. x ≢ a) (λ x. Fresh x (a ∷ [])) (λ x ne. ((λ e. ne (sym e)), tt)) rest
            nodup.0.1))
      ∙ seg.1,
  Seg-front next prev (some a) front front' (b ∷ rest) nodup.1 seg.2,
)

-- The first link back is redirected.
pub Seg-back :
    (next prev : ℕ → Option ℕ) (back back' front : Option ℕ) (xs : List ℕ)
    → NoDup xs
    → Seg next prev back xs front
    → Seg next (put_at prev (head_or xs front) back') back' xs front
Seg-back next prev back back' front [] nodup seg = tt
Seg-back next prev back back' front (a ∷ rest) nodup seg = (
  put_self prev a back',
  seg.1,
  Seg-same next prev next (put prev a back') (some a) front rest
      (AllIn-map (λ x. x ≢ a) (λ x. (next x ≡ next x) × (put prev a back' x ≡ prev x))
        (λ x ne. (refl, put_other prev a x back' ne)) rest nodup.0)
      seg.2,
)

pub head-append :
    (xs ys : List ℕ) (front : Option ℕ) → head_or (xs ++ ys) front ≡ head_or xs (head_or ys front)
head-append [] ys front = refl
head-append (a ∷ rest) ys front = refl

pub last-append :
    (back : Option ℕ) (xs ys : List ℕ) → last_or back (xs ++ ys) ≡ last_or (last_or back xs) ys
last-append back [] ys = refl
last-append back (a ∷ rest) ys = last-append (some a) rest ys

pub Seg-append :
    (next prev : ℕ → Option ℕ) (back front : Option ℕ) (xs ys : List ℕ)
    → Seg next prev back xs (head_or ys front)
    → Seg next prev (last_or back xs) ys front
    → Seg next prev back (xs ++ ys) front
Seg-append next prev back front [] ys seg seg' = seg'
Seg-append next prev back front (a ∷ rest) ys seg seg' = (
  seg.0,
  seg.1 ∙ sym (head-append rest ys front),
  Seg-append next prev (some a) front rest ys seg.2 seg',
)

pub Seg-split :
    (next prev : ℕ → Option ℕ) (back front : Option ℕ) (xs ys : List ℕ)
    → Seg next prev back (xs ++ ys) front
    → Seg next prev back xs (head_or ys front) × Seg next prev (last_or back xs) ys front
Seg-split next prev back front [] ys seg = (tt, seg)
Seg-split next prev back front (a ∷ rest) ys seg =
    let split = Seg-split next prev (some a) front rest ys seg.2 in
    ((seg.0, seg.1 ∙ head-append rest ys front, split.0), split.1)

pub NoDup-append : (xs ys : List ℕ) → NoDup xs → NoDup ys → Disjoint xs ys → NoDup (xs ++ ys)
NoDup-append [] ys d d' apart = d'
NoDup-append (a ∷ rest) ys d d' apart =
    (AllIn-append (λ x. x ≢ a) rest ys d.0 apart.0, NoDup-append rest ys d.1 d' apart.1)

pub NoDup-split : (xs ys : List ℕ) → NoDup (xs ++ ys) → NoDup xs × NoDup ys × Disjoint xs ys
NoDup-split [] ys d = (tt, d, tt)
NoDup-split (a ∷ rest) ys d =
    let split = NoDup-split rest ys d.1 in
    let apart = AllIn-split (λ x. x ≢ a) rest ys d.0 in
    ((apart.0, split.0), split.1, (apart.1, split.2))
