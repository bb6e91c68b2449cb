-- ===== src/ReadModel/Lookups.antt =====
-- read-model.ts: what is found among the candidates of a run key.

use mathlib.Core.Option.{some-injective}
use qe_report.Prelude.{
  String, Bool, true, false, Option, none, some, List, [], ◌∷◌, ◌≡◌, subst, inl, inr, any,
  any-append, All, arith, Bool-cases,
}
use qe_report.Prelude.Keys.{text_keys, ◌===◌, ===_refl}
use qe_report.Prelude.Assoc.{get, set, get-set}
use qe_report.ReadModel.Model.{ProjectedRun, IngestionProblem}
use qe_report.ReadModel.Assemble.{Candidates, with_candidate}
use qe_report.ReadModel.Handled.{names_directory, Reported}

-- a candidate of this directory is known
abbrev pub any_in : String → Option (List ProjectedRun) → Bool
any_in d none = false
any_in d (some l) = any (λ x. x.run_directory === d) l

pub with_candidate-keeps :
    (d : String) (x : ProjectedRun) (o : Option (List ProjectedRun))
    → any_in d o ≡ true
    → any (λ y. y.run_directory === d) (with_candidate x o) ≡ true
with_candidate-keeps d x none h = cc
with_candidate-keeps d x (some l) h =
    ground (arith, any-append (λ y. y.run_directory === d) l (x ∷ []))

pub with_candidate-own :
    (x : ProjectedRun) (o : Option (List ProjectedRun))
    → any (λ y. y.run_directory === x.run_directory) (with_candidate x o) ≡ true
with_candidate-own x none = ground (arith, ===_refl x.run_directory)
with_candidate-own x (some l) = ground (
  arith,
  any-append (λ y. y.run_directory === x.run_directory) l (x ∷ []),
  ===_refl x.run_directory,
)

-- every element of a list that satisfies the test
pub Reported-of :
    (ps : List IngestionProblem) (d : String) (l : List ProjectedRun)
    → All (Reported ps) l
    → any (λ x. x.run_directory === d) l ≡ true
    → any (names_directory d) ps ≡ true
Reported-of ps d [] h e = cc
Reported-of ps d (x ∷ l) h e = elim (Bool-cases (x.run_directory === d)) [
  | inl s ↦ subst (λ y. any (names_directory y) ps ≡ true) ((text_keys.beq_iff _ _).0 s) h.0
  | inr s ↦ Reported-of ps d l h.1 (rw s at e)
]

pub All-get :
    (P : String × List ProjectedRun → Type 0) (k : String) (m : Candidates) (l : List ProjectedRun)
    → All P m
    → get k m ≡ some l
    → P (k, l)
unfolding get
All-get P k [] l h e = cc
All-get P k ((j, w) ∷ m) l h e = elim (Bool-cases (j === k)) [
  | inl s ↦
      subst (λ x. P (x, l)) ((text_keys.beq_iff j k).0 s)
        (subst (λ x. P (j, x)) (some-injective _ _ (rw (s, get) at e)) h.0)
  | inr s ↦ All-get P k m l h.1 (rw (s, get) at e)
]

pub get-set_same :
    (k j : String) (v : List ProjectedRun) (m : Candidates)
    → (k === j) ≡ true
    → get j (set k v m) ≡ some v
get-set_same k j v m e = ground (arith, get-set k j v m, e)

pub get-set_other :
    (k j : String) (v : List ProjectedRun) (m : Candidates)
    → (k === j) ≡ false
    → get j (set k v m) ≡ get j m
get-set_other k j v m e = ground (arith, get-set k j v m, e)
