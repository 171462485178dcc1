-- ===== src/RsEntry/Copy/Names.antt =====
-- The names of schedules in memory: what stays of them when strings come and go.
use mathlib.Core.Option.{none-ne-some}
use dvb_vulture.Prelude.{
  subst, ℕ, ◌≡◌, ◌≢◌, ◌⊎◌, refl, ap, ap₂, sym, ◌∙◌, List, [], ◌∷◌, Option, none, some, ◌==◌,
  if◌then◌else◌, inl, inr, Bool-cases, ==_iff, ==_ne, arith,
}
use dvb_vulture.RsEntry.{RsEntry}
use dvb_vulture.RsEntry.Neq.{Strings, at_address, chars_of}
use dvb_vulture.RsEntry.Neq.Shown.{shown, shown_sched}
use dvb_vulture.RsEntry.Copy.{release, rs_clear_entry, rs_destroy}

-- The library has memory, and takes it where none is taken.
abbrev pub HasRoom : (Strings → ℕ) → Type 0
HasRoom room = (m : Strings) → (room m ≢ 0) × (at_address m (room m) ≡ none)

abbrev pub Each : (ℕ → Type 0) → List RsEntry → Type 0
Each P [] = Unit
Each P (e ∷ sched) = P e.name × Each P sched

-- no name, or a string
abbrev pub Live : Strings → ℕ → Type 0
Live m p = (p ≡ 0) ⊎ ((chars : List ℕ) × (at_address m p ≡ some chars))

-- no name, or an address that was not taken
abbrev pub Fresh : Strings → ℕ → Type 0
Fresh m p = (p ≡ 0) ⊎ (at_address m p ≡ none)

-- the strings of `m` are in `m'`, too
abbrev pub Extends : Strings → Strings → Type 0
Extends m m' = (p : ℕ) (chars : List ℕ) → at_address m p ≡ some chars → at_address m' p ≡ some chars

at_address-release : (m : Strings) (p q : ℕ) → p ≢ q → at_address (release m q) p ≡ at_address m p
unfolding release
at_address-release [] p q ne = refl
at_address-release ((a, chars) ∷ m) p q ne = elim (Bool-cases (a == q)) [
  | inl e ↦ rw (e, ==_ne a p (λ f. ne (sym f ∙ (==_iff a q).0 e))) (at_address-release m p q ne)
  | inr e ↦ elim (Bool-cases (a == p)) [
    | inl f ↦ rw (e, f) refl
    | inr f ↦ rw (e, f) (at_address-release m p q ne)
  ]
]

at_address-released : (m : Strings) (q : ℕ) → at_address (release m q) q ≡ none
unfolding release
at_address-released [] q = refl
at_address-released ((a, chars) ∷ m) q = elim (Bool-cases (a == q)) [
  | inl e ↦ rw e (at_address-released m q)
  | inr e ↦ rw e (rw e (at_address-released m q))
]

at_address-release_gone :
    (m : Strings) (p q : ℕ) → at_address m p ≡ none → at_address (release m q) p ≡ none
at_address-release_gone m p q gone = elim (Bool-cases (p == q)) [
  | inl e ↦
      let here = (==_iff p q).0 e in
      subst (λ r. at_address (release m q) r ≡ none) (sym here) (at_address-released m q)
  | inr e ↦ at_address-release m p q (λ f. absurd (ground (arith, e, (==_iff p q).1 f))) ∙ gone
]

at_address-destroy :
    (m : Strings) (sch : List RsEntry) (p : ℕ)
    → Each (λ q. p ≢ q) sch
    → at_address (rs_destroy m sch) p ≡ at_address m p
unfolding rs_destroy rs_clear_entry
at_address-destroy m [] p apart = refl
at_address-destroy m (e ∷ sch) p apart =
    at_address-destroy (release m e.name) sch p apart.1 ∙ at_address-release m p e.name apart.0

at_address-destroy_gone :
    (m : Strings) (sch : List RsEntry) (p : ℕ)
    → at_address m p ≡ none
    → at_address (rs_destroy m sch) p ≡ none
unfolding rs_destroy rs_clear_entry
at_address-destroy_gone m [] p gone = gone
at_address-destroy_gone m (e ∷ sch) p gone =
    at_address-destroy_gone (release m e.name) sch p (at_address-release_gone m p e.name gone)

-- the strings of a schedule that is given back are gone
pub Each-destroy :
    (m : Strings) (sch : List RsEntry) → Each (λ p. at_address (rs_destroy m sch) p ≡ none) sch
unfolding rs_destroy rs_clear_entry
Each-destroy m [] = tt
Each-destroy m (e ∷ sch) = (
  at_address-destroy_gone (release m e.name) sch e.name (at_address-released m e.name),
  Each-destroy (release m e.name) sch,
)

pub shown_same :
    (m m' : Strings) (e : RsEntry)
    → (e.name ≡ 0) ⊎ (at_address m' e.name ≡ at_address m e.name)
    → shown m' e ≡ shown m e
shown_same m m' e (inl f) = rw ((==_iff e.name 0).1 f) refl
shown_same m m' e (inr f) =
    ap (λ o. (record e { name = 0 }, if e.name == 0 then none else some (chars_of o))) f

pub shown_sched_same :
    (m m' : Strings) (sched : List RsEntry)
    → Each (λ p. (p ≡ 0) ⊎ (at_address m' p ≡ at_address m p)) sched
    → shown_sched m' sched ≡ shown_sched m sched
shown_sched_same m m' [] each = refl
shown_sched_same m m' (e ∷ sched) each =
    ap₂ (λ s ss. s ∷ ss) (shown_same m m' e each.0) (shown_sched_same m m' sched each.1)

pub Each-map :
    (P Q : ℕ → Type 0)
    → ((p : ℕ) → P p → Q p)
    → (sched : List RsEntry) → Each P sched
    → Each Q sched
Each-map P Q to [] each = tt
Each-map P Q to (e ∷ sched) each = (to e.name each.0, Each-map P Q to sched each.1)

pub Live-Extends : (m m' : Strings) → Extends m m' → (p : ℕ) → Live m p → Live m' p
Live-Extends m m' more p (inl null) = inl null
Live-Extends m m' more p (inr (chars, e)) = inr (chars, more p chars e)

pub Fresh-Extends : (m m' : Strings) → Extends m m' → (p : ℕ) → Fresh m' p → Fresh m p
Fresh-Extends m m' more p (inl null) = inl null
Fresh-Extends m m' more p (inr free) = inr (not_there (at_address m p) refl)
  where
    not_there : (o : Option (List ℕ)) → at_address m p ≡ o → at_address m p ≡ none
    not_there none e = e
    not_there (some chars) e = absurd (none-ne-some chars (sym free ∙ more p chars e))

-- a string stays the same
pub same_there :
    (m m' : Strings)
    → Extends m m'
    → (p : ℕ) → Live m p
    → (p ≡ 0) ⊎ (at_address m' p ≡ at_address m p)
same_there m m' more p (inl null) = inl null
same_there m m' more p (inr (chars, e)) = inr (more p chars e ∙ sym e)

-- an address that was not taken is none of those that were
pub apart : (m : Strings) (p q : ℕ) → p ≢ 0 → Fresh m p → Live m q → p ≢ q
apart m p q ne (inl null) live e = ne null
apart m p q ne (inr free) (inl null) e = ne (e ∙ null)
apart m p q ne (inr free) (inr (chars, there)) e =
    none-ne-some chars (sym free ∙ ap (at_address m) e ∙ there)

-- Schedules whose names are apart: giving one back leaves the other.
pub destroy_keeps :
    (P Q : ℕ → Type 0) (m : Strings) (gone stays : List RsEntry)
    → ((p q : ℕ) → p ≢ 0 → P p → Q q → p ≢ q)
    → Each P stays
    → Each Q gone
    → shown_sched (rs_destroy m gone) stays ≡ shown_sched m stays
destroy_keeps P Q m gone stays differ on_stays on_gone =
    shown_sched_same m (rs_destroy m gone) stays (
      Each-map P (λ p. (p ≡ 0) ⊎ (at_address (rs_destroy m gone) p ≡ at_address m p)) kept stays
        on_stays)
  where
    kept : (p : ℕ) → P p → (p ≡ 0) ⊎ (at_address (rs_destroy m gone) p ≡ at_address m p)
    kept p holds = elim (Bool-cases (p == 0)) [
      | inl null ↦ inl ((==_iff p 0).0 null)
      | inr named ↦
          let ne : p ≢ 0 = λ e. absurd (ground (arith, named, (==_iff p 0).1 e)) in
          inr (
            at_address-destroy m gone p
              (Each-map Q (λ q. p ≢ q) (λ q on_q. differ p q ne holds on_q) gone on_gone))
    ]
