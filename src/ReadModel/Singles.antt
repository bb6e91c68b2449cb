-- ===== src/ReadModel/Singles.antt =====
-- read-model.ts: the entries of the run keys that stand for one run.

use qe_report.Prelude.{
  String, true, false, Option, none, some, [], ◌∷◌, ◌++◌, ◌≡◌, refl, subst, ap, ◌∙◌, inl, inr,
  Bool-cases, All, All-append, ◌&&◌,
}
use qe_report.Prelude.Keys.{text_keys, ◌===◌}
use qe_report.Prelude.Assoc.{Assoc, get}
use qe_report.Prelude.Sorting.{Pairwise}
use qe_report.ReadModel.Model.{ProjectedRun}
use qe_report.ReadModel.Assemble.{Candidates}
use qe_report.ReadModel.Handled.{Keyed}
use qe_report.ReadModel.Sorted.{get_absent}
use qe_report.ReadModel.Standings.{Standing, vacant, held, contested, standing}

-- the entry of a key that stands for one run
abbrev pub single : String → Standing → Assoc String ProjectedRun
single k vacant = []
single k (held r) = (k, r) ∷ []
single k contested = []

abbrev pub singles : Candidates → Assoc String ProjectedRun
singles [] = []
singles ((k, l) ∷ m) = single k (standing (some l)) ++ singles m

abbrev pub held_run : Standing → Option ProjectedRun
held_run vacant = none
held_run (held r) = some r
held_run contested = none

All-single : (P : String → Type 0) (k : String) (s : Standing) → P k → All (λ g. P g.0) (single k s)
All-single P k vacant h = tt
All-single P k (held r) h = (h, tt)
All-single P k contested h = tt

All-singles :
    (P : String → Type 0) (m : Candidates) → All (λ g. P g.0) m → All (λ g. P g.0) (singles m)
All-singles P [] h = tt
All-singles P ((k, l) ∷ m) h =
    All-append (λ g. P g.0) (single k (standing (some l))) (singles m)
      (All-single P k (standing (some l)) h.0) (All-singles P m h.1)

-- a relation that goes by the keys holds of the entries that are left
module _ (R : String → String → Type 0) where
  abbrev ByKeys {ℓ} : {V : Type ℓ} → Assoc String V → Type 0
  ByKeys = Pairwise (λ x y. R x.0 y.0)

  ByKeys-single :
      (k : String) (s : Standing) (m : Assoc String ProjectedRun)
      → All (λ g. R k g.0) m
      → ByKeys m
      → ByKeys (single k s ++ m)
  ByKeys-single k vacant m h w = w
  ByKeys-single k (held r) m h w = (h, w)
  ByKeys-single k contested m h w = w

  pub ByKeys-singles : (m : Candidates) → ByKeys m → ByKeys (singles m)
  ByKeys-singles [] h = tt
  ByKeys-singles ((k, l) ∷ m) h =
      ByKeys-single k (standing (some l)) (singles m) (All-singles (R k) m h.0)
        (ByKeys-singles m h.1)

get-single :
    (k j : String) (s : Standing) (m : Assoc String ProjectedRun)
    → (j === k) ≡ true
    → get k m ≡ none
    → get k (single j s ++ m) ≡ held_run s
unfolding get
get-single k j vacant m h e = e
get-single k j (held r) m h e = rw h refl
get-single k j contested m h e = e

get-single_other :
    (k j : String) (s : Standing) (m : Assoc String ProjectedRun)
    → (j === k) ≡ false
    → get k (single j s ++ m) ≡ get k m
unfolding get
get-single_other k j vacant m h = refl
get-single_other k j (held r) m h = rw h refl
get-single_other k j contested m h = refl

pub get-singles :
    (k : String) (m : Candidates) → Keyed m → get k (singles m) ≡ held_run (standing (get k m))
unfolding get
get-singles k [] h = refl
get-singles k ((j, l) ∷ m) h = elim (Bool-cases (j === k)) [
  | inl s ↦
      let same = (text_keys.beq_iff j k).0 s in
      let gone =
        get_absent k m (subst (λ z. All (λ y. ((z === y.0) && (y.0 === z)) ≡ false) m) same h.0) in
      get-single k j (standing (some l)) (singles m) s
        (get-singles k m h.1 ∙ ap (λ o. held_run (standing o)) gone)
      ∙ rw s refl
  | inr s ↦ get-single_other k j (standing (some l)) (singles m) s ∙ get-singles k m h.1 ∙ rw s refl
]
