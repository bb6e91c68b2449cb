-- ===== src/Prelude/Assoc.antt =====
-- A JavaScript `Map` (or the own properties of an object) as its entries in insertion order:
-- `set` of a known key keeps its place, and a new key goes last.
use mathlib.Core.Path.{◌≡◌, refl}
use mathlib.Core.Bool.{Bool}
use mathlib.Core.Path.{subst}
use mathlib.Core.Logic.{inl, inr}
use mathlib.Core.Option.{Option, none, some, some-injective}
use mathlib.Core.List.{List, [], ◌∷◌}
use native.Mathlib.Omega.{arith}
use qe_report.Prelude.Tests.{if◌then◌else◌, is_some, Bool-cases}
use qe_report.Prelude.Keys.{Eq, ◌===◌}

abbrev pub Assoc {ℓ κ} : Type ℓ → Type κ → Type (ℓ ⊔ κ)
Assoc K V = List (K × V)

module _ {ℓ κ} {K : Type ℓ} {V : Type κ} ⦃e : Eq K⦄ where
  unfoldable pub get : K → Assoc K V → Option V
  get k [] = none
  get k ((j, v) ∷ m) = if j === k then some v else get k m

  unfoldable pub set : K → V → Assoc K V → Assoc K V
  set k v [] = (k, v) ∷ []
  set k v ((j, w) ∷ m) = if j === k then (j, v) ∷ m else (j, w) ∷ set k v m

  abbrev pub has : K → Assoc K V → Bool
  has k m = is_some (get k m)

  pub get-set :
      (k j : K) (v : V) (m : Assoc K V) → get j (set k v m) ≡ (if k === j then some v else get j m)
  unfolding get set
  get-set k j v [] = refl
  get-set k j v ((i, w) ∷ m) =
      ground (arith, e.beq_iff k j, e.beq_iff i k, e.beq_iff i j, get-set k j v m)

  -- A property of every entry.
  abbrev pub Entries {μ} : (V → Type μ) → Assoc K V → Type μ
  Entries P [] = Unit
  Entries P ((_, v) ∷ m) = P v × Entries P m

  pub Entries-set {μ} :
      (P : V → Type μ) (k : K) (v : V) (m : Assoc K V) → Entries P m → P v → Entries P (set k v m)
  unfolding set
  Entries-set P k v [] h p = (p, tt)
  Entries-set P k v ((j, w) ∷ m) h p = elim (Bool-cases (j === k)) [
    | inl same ↦ rw same (p, h.1)
    | inr other ↦ rw other (h.0, Entries-set P k v m h.1 p)
  ]

  pub Entries-get {μ} :
      (P : V → Type μ) (k : K) (m : Assoc K V) {v : V} → Entries P m → get k m ≡ some v → P v
  unfolding get
  Entries-get P k [] h e = cc
  Entries-get P k ((j, w) ∷ m) h e = elim (Bool-cases (j === k)) [
    | inl same ↦ subst P (some-injective _ _ (rw same at e)) h.0
    | inr other ↦ Entries-get P k m h.1 (rw other at e)
  ]

  pub Entries-map {μ ν} :
      {P : V → Type μ} {Q : V → Type ν} (m : Assoc K V)
      → ((v : V) → P v → Q v)
      → Entries P m
      → Entries Q m
  Entries-map [] f h = tt
  Entries-map ((_, v) ∷ m) f h = (f v h.0, Entries-map m f h.1)
