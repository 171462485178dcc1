-- ===== src/BTree/Order.antt =====
-- A search tree is its sorted list: what is looked for is found, and what is put in gets its place.
use dvb_vulture.Prelude.Sign.{Sign, less, same, more, flip, Sign-cases, IsComparison}
use dvb_vulture.Prelude.{
  AllIn, ℕ, ◌≡◌, ◌≢◌, refl, ap, sym, ◌∙◌, List, [], ◌∷◌, Option, none, some, inl, inr,
}
use dvb_vulture.BTree.{Tree, empty, node, find}
use dvb_vulture.BTree.InOrder.{flat}

module _ {ℓ} {A : Type ℓ} where
  -- a property of each payload of a tree
  abbrev pub AllOf : (A → Type 0) → Tree A → Type 0
  AllOf P empty = Unit {0}
  AllOf P (node h l v r) = AllOf P l × P v × AllOf P r

  AllIn-rest : (P : A → Type 0) (t : Tree A) (acc : List A) → AllIn P (flat t acc) → AllIn P acc
  AllIn-rest P empty acc all = all
  AllIn-rest P (node h l v r) acc all = AllIn-rest P r acc (AllIn-rest P l (v ∷ flat r acc) all).1

module _ {ℓ} {A : Type ℓ} (cmp : A → A → Sign) where
  -- Each comes before all that follow it.
  abbrev pub IsSorted : List A → Type 0
  IsSorted [] = Unit {0}
  IsSorted (v ∷ vs) = AllIn (λ w. cmp v w ≡ more) vs × IsSorted vs

  -- the first that is the same as `e`
  abbrev pub pick : A → List A → Option A
  pick e [] = none
  pick e (v ∷ vs) = elim (cmp v e) [ less ↦ pick e vs | same ↦ some v | more ↦ pick e vs ]

  -- `e` put in its place, unless the same is there
  abbrev pub place : A → List A → List A
  place e [] = e ∷ []
  place e (v ∷ vs) = elim (cmp v e) [ less ↦ e ∷ v ∷ vs | same ↦ v ∷ vs | more ↦ v ∷ place e vs ]

  -- the status that tells whether the same was there
  abbrev pub status_of : Option A → ℕ
  status_of none = 0
  status_of (some v) = 2

  pub IsSorted-rest : (t : Tree A) (acc : List A) → IsSorted (flat t acc) → IsSorted acc
  IsSorted-rest empty acc sorted = sorted
  IsSorted-rest (node h l v r) acc sorted =
      IsSorted-rest r acc (IsSorted-rest l (v ∷ flat r acc) sorted).1

  module _ (law : IsComparison cmp) where
    pub more_down : (a b c : A) → cmp a b ≡ more → cmp b c ≡ more → cmp a c ≡ more
    more_down a b c ab bc =
        law.flipped c a
        ∙ ap flip (law.chained c b a (law.flipped b c ∙ ap flip bc) (law.flipped a b ∙ ap flip ab))

    more_same : (a b c : A) → cmp a b ≡ more → cmp b c ≡ same → cmp a c ≡ more
    more_same a b c ab bc =
        law.flipped c a
        ∙ ap flip (law.alike c b a (law.flipped b c ∙ ap flip bc) (law.flipped a b ∙ ap flip ab))

    -- What comes before a payload that `e` does not come before, comes before `e`.
    down : (a v e : A) → cmp v e ≢ less → cmp a v ≡ more → cmp a e ≡ more
    down a v e not_less av = elim (Sign-cases (cmp v e)) [
      | inl l ↦ absurd (not_less l)
      | inr (inl s) ↦ more_same a v e av s
      | inr (inr m) ↦ more_down a v e av m
    ]

    pub below :
        (t : Tree A) (v e : A) (acc : List A)
        → cmp v e ≢ less
        → IsSorted (flat t (v ∷ acc))
        → AllOf (λ a. cmp a e ≡ more) t
    below empty v e acc not_less sorted = tt
    below (node h l a r) v e acc not_less sorted =
        let here : IsSorted (a ∷ flat r (v ∷ acc)) =
          IsSorted-rest l (a ∷ flat r (v ∷ acc)) sorted in
        let av : cmp a v ≡ more = (AllIn-rest (λ w. cmp a w ≡ more) r (v ∷ acc) here.0).0 in
        let ae : cmp a e ≡ more = down a v e not_less av in
        (below l a e (flat r (v ∷ acc)) (λ l. (cc)) sorted, ae, below r v e acc not_less here.1)

  pub pick-flat :
      (e : A) (t : Tree A) (acc : List A)
      → AllOf (λ a. cmp a e ≡ more) t
      → pick e (flat t acc) ≡ pick e acc
  pick-flat e empty acc all = refl
  pick-flat e (node h l v r) acc all =
      pick-flat e l (v ∷ flat r acc) all.0 ∙ rw (all.1, pick) (pick-flat e r acc all.2)

  pub place-flat :
      (e : A) (t : Tree A) (acc : List A)
      → AllOf (λ a. cmp a e ≡ more) t
      → place e (flat t acc) ≡ flat t (place e acc)
  place-flat e empty acc all = refl
  place-flat e (node h l v r) acc all =
      place-flat e l (v ∷ flat r acc) all.0
      ∙ rw (all.1, place) (ap (λ rest. flat l (v ∷ rest)) (place-flat e r acc all.2))

  -- the path's end is behind the place of `e`: what follows comes after `e`
  abbrev Stops : A → List A → Type ℓ
  Stops e vs = place e vs ≡ e ∷ vs

  module _ (law : IsComparison cmp) where
    -- what comes after a payload that comes after `e`
    pub above :
        (v e : A) (vs : List A) → cmp v e ≡ less → AllIn (λ w. cmp v w ≡ more) vs → pick e vs ≡ none
    above v e [] ve all = refl
    above v e (w ∷ vs) ve all =
        rw (law.chained w v e (law.flipped v w ∙ ap flip all.0) ve, pick) (above v e vs ve all.1)

    pub find-pick :
        (t : Tree A) (e : A) (acc : List A)
        → IsSorted (flat t acc)
        → pick e acc ≡ none
        → find cmp t e ≡ pick e (flat t acc)
    unfolding find
    find-pick empty e acc sorted gone = sym gone
    find-pick (node h l v r) e acc sorted gone =
        let here : IsSorted (v ∷ flat r acc) = IsSorted-rest l (v ∷ flat r acc) sorted in
        elim (Sign-cases (cmp v e)) [
          | inl lt ↦
              rw (lt, find)
                (find-pick l e (v ∷ flat r acc) sorted
                  (rw (lt, pick) (above v e (flat r acc) lt here.0)))
          | inr (inl eq) ↦
              rw (eq, find)
                (sym (
                  pick-flat e l (v ∷ flat r acc) (below law l v e (flat r acc) (λ n. (cc)) sorted)
                  ∙ rw (eq, pick) refl))
          | inr (inr gt) ↦
              rw (gt, find)
                (find-pick r e acc here.1 gone
                  ∙ sym (
                      pick-flat e l (v ∷ flat r acc)
                        (below law l v e (flat r acc) (λ n. (cc)) sorted)
                      ∙ rw (gt, pick) refl))
        ]
