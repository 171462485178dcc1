-- ===== src/Utl/Grow.antt =====
-- `utlSmartMemmove` appends.
use dvb_vulture.Prelude.{
  ℕ, ◌+◌, ◌-◌, ◌^◌, ◌≤◌, ◌<◌, ◌≡◌, refl, ap, ap₂, sym, ◌∙◌, subst, List, [], ◌∷◌, ◌++◌, length,
  take, drop, replicate, Option, none, some, Bool, true, ltb, ltb→lt, ltb→le, if◌then◌else◌, arith,
  inl, inr, Bool-cases, length-append, length-take, length-replicate, take-append, take-append_left,
  take_all,
}
use dvb_vulture.Prelude.Buffer.{write, write_lem, length-write}
use dvb_vulture.Utl.{Growing, word, make_room, smart_memmove}

-- the bytes in use
abbrev pub used : Growing → List ℕ
used g = elim g.str [ none ↦ [] | some str ↦ take g.size str ]

-- NULL holds nothing; else the allocation has the size that is noted, and room for what is used.
abbrev pub IsGrowing : Growing → Type 0
IsGrowing g = elim g.str [
  | none ↦ g.size ≡ 0
  | some str ↦ (length str ≡ g.alloc) × (g.size ≤ g.alloc)
]

-- Memory that begins with the bytes in use and has room for so many more.
abbrev IsRoom : Growing → (size2 : ℕ) → List ℕ × ℕ → Type 0
IsRoom g size2 room =
    (take g.size room.0 ≡ used g) × (length room.0 ≡ room.1) × (g.size + size2 ≤ room.1)

abbrev with_str : Option (List ℕ) → (size alloc : ℕ) → Growing
with_str str size alloc = record { str = str; size = size; alloc = alloc }

make_room_lem :
    (memory : ℕ → Bool) (str : Option (List ℕ)) (size alloc size2 : ℕ)
    → ((n : ℕ) → memory n ≡ true)
    → IsGrowing (with_str str size alloc)
    → size + size2 + 128 < 2 ^ 32
    → (room : List ℕ × ℕ) × (make_room memory (with_str str size alloc) size2 ≡ some room)
      × IsRoom (with_str str size alloc) size2 room
unfolding make_room
make_room_lem memory none size alloc size2 there w small =
    let alloc_sz : ℕ = if ltb size2 128 then 128 else size2 in
    let big : size2 ≤ alloc_sz = ground arith in
    (
      (replicate alloc_sz 0, alloc_sz),
      (rw (there alloc_sz) refl),
      (
        ap (λ (k : ℕ). take k (replicate alloc_sz 0)) w,
        length-replicate {A = ℕ} alloc_sz 0,
        omega (arith, w, big),
      ),
    )
make_room_lem memory (some str) size alloc size2 there w small =
    let sum : word (size + size2) ≡ size + size2 = omega arith in
    let more : word (size + size2 + 128) ≡ size + size2 + 128 = omega arith in
    elim (Bool-cases (ltb alloc (size + size2))) [
      | inl grows ↦
          let n = size + size2 + 128 in
          let short : alloc < size + size2 = ltb→lt alloc (size + size2) grows in
          let all : take n str ≡ str = take_all n str (omega (arith, w.0)) in
          (
            (str ++ replicate (n - length str) 0, n),
            rw (sum, more, grows, there n, all) refl,
            (
              take-append_left size str (replicate (n - length str) 0) (omega (arith, w.0, w.1)),
              omega (
                arith,
                length-append str (replicate (n - length str) 0),
                length-replicate {A = ℕ} (n - length str) 0,
                w.0,
              ),
              omega arith,
            ),
          )
      | inr fits ↦
          ((str, alloc), rw (sum, fits) refl, (refl, w.0, ltb→le alloc (size + size2) fits))
    ]

smart_memmove_lem :
    (memory : ℕ → Bool) (g : Growing) (str2 : List ℕ) (room : List ℕ × ℕ)
    → make_room memory g (length str2) ≡ some room
    → smart_memmove memory g (some str2) (length str2) ≡ (
      0,
      record {
        str = some (write room.0 g.size (take (length str2) str2));
        size = word (g.size + length str2);
        alloc = room.1;
      },
    )
unfolding smart_memmove
smart_memmove_lem memory g str2 room e = rw (e, smart_memmove) refl

append_assoc : (xs ys zs : List ℕ) → xs ++ (ys ++ zs) ≡ (xs ++ ys) ++ zs
append_assoc [] ys zs = refl
append_assoc (x ∷ xs) ys zs = ap (λ t. x ∷ t) (append_assoc xs ys zs)

appended :
    (g : Growing) (str2 : List ℕ) (room : List ℕ × ℕ)
    → IsRoom g (length str2) room
    → take (g.size + length str2) (write room.0 g.size str2) ≡ used g ++ str2
appended g str2 room r =
    let junk = drop (length str2) (drop g.size room.0) in
    let whole = write_lem g.size str2 room.0 (omega (arith, r.1, r.2)) in
    let size : g.size + length str2 ≡ length (take g.size room.0 ++ str2) =
      omega (arith, length-append (take g.size room.0) str2, length-take g.size room.0, r.1, r.2) in
    ap (take (g.size + length str2)) (whole ∙ append_assoc (take g.size room.0) str2 junk)
    ∙ ap (λ (k : ℕ). take k ((take g.size room.0 ++ str2) ++ junk)) size
    ∙ take-append (take g.size room.0 ++ str2) junk
    ∙ ap (λ t. t ++ str2) r.0

abbrev Appended : Growing → List ℕ → ℕ × Growing → Type 0
Appended g str2 r =
    (r.0 ≡ 0) × (used r.1 ≡ used g ++ str2) × (r.1.size ≡ g.size + length str2) × IsGrowing r.1

-- With memory, and while the sizes stay well below 2 ^ 32, `utlSmartMemmove` puts the bytes behind
-- those that are in use: it returns 0, what is in use afterwards are the old bytes and then the
-- new ones, their number is right, and the allocation has room for them.
pub smart_memmove_appends :
    (memory : ℕ → Bool) (g : Growing) (str2 : List ℕ)
    → ((n : ℕ) → memory n ≡ true)
    → IsGrowing g
    → g.size + length str2 + 128 < 2 ^ 32
    → let r = smart_memmove memory g (some str2) (length str2) in
      (r.0 ≡ 0) × (used r.1 ≡ used g ++ str2) × (r.1.size ≡ g.size + length str2) × IsGrowing r.1
smart_memmove_appends memory g str2 there w small =
    let (room, e, r) = make_room_lem memory g.str g.size g.alloc (length str2) there w small in
    let n = g.size + length str2 in
    let sum : word n ≡ n = omega arith in
    let all = take_all (length str2) str2 (omega arith) in
    let opened : smart_memmove memory g (some str2) (length str2)
        ≡ (0, with_str (some (write room.0 g.size str2)) n room.1) =
      smart_memmove_lem memory g str2 room e
      ∙ ap₂ (λ bytes (k : ℕ). (0, with_str (some (write room.0 g.size bytes)) k room.1)) all sum in
    subst (Appended g str2) (sym opened)
      (refl, appended g str2 room r, refl, (length-write str2 room.0 g.size ∙ r.1, r.2))
