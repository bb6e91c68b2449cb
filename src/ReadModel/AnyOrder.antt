-- ===== src/ReadModel/AnyOrder.antt =====
-- read-model.ts: `assemble` on the same runs in another order.
use mathlib.Core.List.{Permᴰ}
use mathlib.Core.List.Permᴰ
use qe_report.Prelude.{
  String, true, false, Option, none, some, List, [], ◌∷◌, ◌≡◌, refl, sym, ap, ◌∙◌, if◌then◌else◌,
  arith, ◌&&◌,
}
use qe_report.Prelude.Keys.{text_keys, ◌===◌}
use qe_report.Prelude.Assoc.{Assoc, get, set}
use qe_report.Prelude.Order.{sort}
use qe_report.Prelude.Sorting.{
  Pairwise, Apart, IsTotal, IsSorted, sort-IsSorted, sort_permutes, Apart-perm,
}
use qe_report.Validator.Finish.{values}
use qe_report.ReadModel.Model.{ProjectedRun, Blob}
use qe_report.ReadModel.Instant.{bind}
use qe_report.ReadModel.Assemble.{
  Seams, Assembly, Candidates, candidates, conflicts, accept, assemble_key, add_references,
  assemble_keys, nothing, assembled, assemble, ReadModel, ReadModelBuild, build, histories,
  sort_histories, frozen_blobs,
}
use qe_report.ReadModel.Executions.{compare_keys}
use qe_report.ReadModel.Orders.{at_or_before-IsTotal, compare-IsOrder, key-IsOrder}
use qe_report.ReadModel.Handled.{same_key, Keyed}
use qe_report.ReadModel.Accounted.{candidates-Keyed}
use qe_report.ReadModel.Compare.{compare, at_or_before}
use qe_report.ReadModel.Sorted.{by_key, sorted-get, get-perm}
use qe_report.ReadModel.Standings.{
  vacant, standing, Agrees, standing_after, standing-candidates, standing_after-perm,
}
use qe_report.ReadModel.Singles.{ByKeys-singles, get-singles, held_run, singles}

-- the fields of an assembly that the model is made of
abbrev SameModel : Assembly → Assembly → Type 0
SameModel s t = (s.accepted ≡ t.accepted) × (s.blobs ≡ t.blobs)

abbrev accepts : Assembly → Assoc String ProjectedRun → Assembly
accepts s [] = s
accepts s ((k, r) ∷ l) = accepts (accept k r s) l

accepted-accept :
    (k : String) (r : ProjectedRun) (s : Assembly)
    → (accept k r s).accepted
      ≡ (if conflicts s.blobs r.attachments then s.accepted else set k r s.accepted)
accepted-accept k r s = ground arith

blobs-accept :
    (k : String) (r : ProjectedRun) (s : Assembly)
    → (accept k r s).blobs ≡ (
        if conflicts s.blobs r.attachments then s.blobs else add_references r s.blobs r.attachments)
blobs-accept k r s = ground arith

SameModel-accept :
    (k : String) (r : ProjectedRun) (s t : Assembly)
    → SameModel s t
    → SameModel (accept k r s) (accept k r t)
SameModel-accept k r s t h = (
  accepted-accept k r s
      ∙ ap (λ a. if conflicts s.blobs r.attachments then a else set k r a) h.0
      ∙ ap (λ b. if conflicts b r.attachments then t.accepted else set k r t.accepted) h.1
      ∙ sym (accepted-accept k r t),
  blobs-accept k r s
      ∙ ap (λ b. if conflicts b r.attachments then b else add_references r b r.attachments) h.1
      ∙ sym (blobs-accept k r t),
)

SameModel-keys :
    (s t : Assembly) (m : Candidates)
    → SameModel s t
    → SameModel (assemble_keys s m) (accepts t (singles m))
SameModel-keys s t [] h = h
SameModel-keys s t ((k, []) ∷ m) h = SameModel-keys s t m h
SameModel-keys s t ((k, r ∷ []) ∷ m) h =
    SameModel-keys (accept k r s) (accept k r t) m (SameModel-accept k r s t h)
SameModel-keys s t ((k, a ∷ b ∷ l) ∷ m) h = SameModel-keys (assemble_key s (k, a ∷ b ∷ l)) t m h

abbrev pub model_of : Option ReadModelBuild → Option ReadModel
model_of none = none
model_of (some b) = some b.model

model_of-bind {ℓ} :
    {A : Type ℓ} (o : Option A) (f : A → Option ReadModelBuild)
    → model_of (bind o f) ≡ bind o (λ a. model_of (f a))
model_of-bind none f = refl
model_of-bind (some a) f = refl

by_key-IsTotal {ℓ} : {V : Type ℓ} → IsTotal (by_key {V = V})
by_key-IsTotal = at_or_before-IsTotal compare_keys (key-IsOrder (λ e. e.0) compare compare-IsOrder)

module _ (c : Seams) where
  abbrev in_key_order : List ProjectedRun → Candidates
  in_key_order runs = sort by_key (candidates c [] runs)

  in_key_order-Keyed : (runs : List ProjectedRun) → Keyed (in_key_order runs)
  in_key_order-Keyed runs =
      Apart-perm same_key (Permᴰ.symm (sort_permutes by_key (candidates c [] runs)))
        (candidates-Keyed c [] runs tt)

  singles-IsSorted : (runs : List ProjectedRun) → IsSorted by_key (singles (in_key_order runs))
  singles-IsSorted runs =
      ByKeys-singles (λ a b. at_or_before compare a b ≡ true) (in_key_order runs)
        (sort-IsSorted by_key by_key-IsTotal (candidates c [] runs))

  singles-Keyed : (runs : List ProjectedRun) → Apart same_key (singles (in_key_order runs))
  singles-Keyed runs =
      ByKeys-singles (λ a b. ((a === b) && (b === a)) ≡ false) (in_key_order runs)
        (in_key_order-Keyed runs)

  get-singles_after :
      (k : String) (runs : List ProjectedRun)
      → get k (singles (in_key_order runs)) ≡ held_run (standing_after c k vacant runs)
  unfolding get
  get-singles_after k runs =
      get-singles k (in_key_order runs) (in_key_order-Keyed runs)
      ∙ ap (λ o. held_run (standing o))
          (get-perm k (sort_permutes by_key (candidates c [] runs)) (in_key_order-Keyed runs))
      ∙ ap held_run (standing-candidates c k [] runs)

  -- Both orders of the runs leave the same entries, in the order of their keys.
  singles-perm :
      {xs ys : List ProjectedRun}
      → Permᴰ xs ys
      → Pairwise (Agrees c) xs
      → singles (in_key_order xs) ≡ singles (in_key_order ys)
  singles-perm {xs} {ys} p h =
      sorted-get (singles (in_key_order xs)) (singles (in_key_order ys)) (singles-IsSorted xs)
        (singles-IsSorted ys) (singles-Keyed xs) (singles-Keyed ys)
        (λ k.
          get-singles_after k xs
          ∙ ap held_run (standing_after-perm c k vacant p h)
          ∙ sym (get-singles_after k ys))

  abbrev with_history : Assoc String ProjectedRun → Assoc String Blob → Option ReadModel
  with_history accepted blobs = bind (histories c [] (values accepted)) λ history.
      bind (sort_histories c history) λ sorted.
        some
          (record { runs_by_key = accepted; history = sorted; blobs_by_sha = frozen_blobs blobs })

  model_of-assemble :
      (runs : List ProjectedRun)
      → model_of (assemble c runs)
        ≡ with_history (assembled c runs).accepted (assembled c runs).blobs
  unfolding assemble
  model_of-assemble runs =
      let s : Assembly = assembled c runs in
      model_of-bind (histories c [] (values s.accepted))
        (λ history. bind (sort_histories c history) λ sorted. some (build s sorted))
      ∙ ap (bind (histories c [] (values s.accepted))) (λ i history.
        model_of-bind (sort_histories c history) (λ sorted. some (build s sorted)) i)

  assembled-singles :
      (runs : List ProjectedRun)
      → SameModel (assembled c runs) (accepts nothing (singles (in_key_order runs)))
  unfolding assembled
  assembled-singles runs = SameModel-keys nothing nothing (in_key_order runs) (refl, refl)

  -- For the same runs in any order, `assemble` returns the same model, or throws for both orders, provided
  -- that any two runs with the same key and the same directory are equal.
  pub assemble-perm :
      {xs ys : List ProjectedRun}
      → Permᴰ xs ys
      → Pairwise (Agrees c) xs
      → model_of (assemble c xs) ≡ model_of (assemble c ys)
  assemble-perm {xs} {ys} p h =
      let (accepted, blobs) = assembled-singles xs in
      let (accepted', blobs') = assembled-singles ys in
      let same = ap (accepts nothing) (singles-perm p h) in
      model_of-assemble xs
      ∙ ap (λ a. with_history a (assembled c xs).blobs)
          (accepted ∙ ap (λ s. s.accepted) same ∙ sym accepted')
      ∙ ap (with_history (assembled c ys).accepted) (blobs ∙ ap (λ s. s.blobs) same ∙ sym blobs')
      ∙ sym (model_of-assemble ys)
