-- ===== src/ReadModel/Histories.antt =====
-- read-model.ts: the histories that `assemble` collects, beside a filter of all the occurrences.
use mathlib.Core.List.{append_assoc, append-nil}
use mathlib.Core.Option.{some-injective}
use qe_report.Prelude.{
  String, Option, some, List, [], ◌∷◌, ◌++◌, ◌≡◌, refl, sym, subst, ap, ◌∙◌, inl, inr,
  if◌then◌else◌, arith, Bool-cases,
}
use qe_report.Prelude.Keys.{text_keys, ◌===◌}
use qe_report.Prelude.Assoc.{get, get-set}
use qe_report.Validator.Finish.{values}
use qe_report.ReadModel.Model.{ProjectedRun, ExecutionOccurrence}
use qe_report.ReadModel.Executions.{or_new}
use qe_report.ReadModel.Instant.{bind, bind-some}
use qe_report.ReadModel.History.{history_occurrences_of, joined, sort_history}
use qe_report.ReadModel.Assemble.{
  Seams, Assembly, Histories, history_key, add_occurrence, add_occurrences, histories,
  sort_histories, assembled, assemble, build, ReadModelBuild,
}

-- the occurrences of all these runs
abbrev pub all_occurrences : List ProjectedRun → Option (List ExecutionOccurrence)
all_occurrences [] = some []
all_occurrences (r ∷ rs) = joined (history_occurrences_of r) (all_occurrences rs)

module _ (c : Seams) where
  abbrev key : ExecutionOccurrence → String
  key o = history_key c o.project_id o.runner_name o.historical_id

  -- the occurrences under a key, in their order
  abbrev pub under : String → List ExecutionOccurrence → List ExecutionOccurrence
  under k [] = []
  under k (o ∷ os) = if key o === k then o ∷ under k os else under k os

  under-append :
      (k : String) (xs ys : List ExecutionOccurrence)
      → under k (xs ++ ys) ≡ under k xs ++ under k ys
  under-append k [] ys = refl
  under-append k (x ∷ xs) ys = ground (arith, under-append k xs ys)

  under-add :
      (k : String) (h : Histories) (o : ExecutionOccurrence)
      → or_new (get k (add_occurrence c h o)) ≡ or_new (get k h) ++ under k (o ∷ [])
  under-add k h o = elim (Bool-cases (key o === k)) [
    | inl s ↦
        let same = (text_keys.beq_iff (key o) k).0 s in
        ground
          (arith, get-set (key o) k (or_new (get (key o) h) ++ (o ∷ [])) h, ap (λ z. get z h) same)
    | inr s ↦ ground (
      arith,
      get-set (key o) k (or_new (get (key o) h) ++ (o ∷ [])) h,
      append-nil (or_new (get k h)),
    )
  ]

  under-add_all :
      (k : String) (h : Histories) (os : List ExecutionOccurrence)
      → or_new (get k (add_occurrences c h os)) ≡ or_new (get k h) ++ under k os
  under-add_all k h [] = sym (append-nil (or_new (get k h)))
  under-add_all k h (o ∷ os) =
      under-add_all k (add_occurrence c h o) os
      ∙ ap (λ l. l ++ under k os) (under-add k h o)
      ∙ append_assoc (or_new (get k h)) (under k (o ∷ [])) (under k os)
      ∙ ap (λ l. or_new (get k h) ++ l) (sym (under-append k (o ∷ []) os))

  abbrev Collected : Histories → Histories → List ProjectedRun → Type 0
  Collected h h' rs =
      (os : List ExecutionOccurrence) × (all_occurrences rs ≡ some os)
      × ((k : String) → or_new (get k h') ≡ or_new (get k h) ++ under k os)

  histories-Collected :
      (h h' : Histories) (rs : List ProjectedRun) → histories c h rs ≡ some h' → Collected h h' rs
  histories-Collected h h' [] e = (
    [],
    refl,
    λ k.
        ap (λ x. or_new (get k x)) (sym (some-injective _ _ e))
        ∙ sym (append-nil (or_new (get k h))),
  )
  histories-Collected h h' (r ∷ rs) e =
      let (os, p, q) =
        bind-some (history_occurrences_of r) (λ os. histories c (add_occurrences c h os) rs) h' e in
      let (rest, p', q') = histories-Collected (add_occurrences c h os) h' rs q in
      (
        os ++ rest,
        ap (λ x. joined x (all_occurrences rs)) p ∙ ap (joined (some os)) p',
        λ k.
            q' k
            ∙ ap (λ l. l ++ under k rest) (under-add_all k h os)
            ∙ append_assoc (or_new (get k h)) (under k os) (under k rest)
            ∙ ap (λ l. or_new (get k h) ++ l) (sym (under-append k os rest)),
      )

  sorted_each :
      (k : String) (h s : Histories)
      → sort_histories c h ≡ some s
      → sort_history c.instant (or_new (get k h)) ≡ some (or_new (get k s))
  unfolding get sort_history
  sorted_each k [] s e = ap (λ x. some (or_new (get k x))) (some-injective _ _ e)
  sorted_each k ((j, l) ∷ h) s e =
      let (sorted, p, q) =
        bind-some (sort_history c.instant l)
          (λ sorted. bind (sort_histories c h) λ rest. some ((j, sorted) ∷ rest)) s e in
      let (rest, p', q') = bind-some (sort_histories c h) (λ rest. some ((j, sorted) ∷ rest)) s q in
      elim (Bool-cases (j === k)) [
        | inl t ↦ rw t p ∙ ap (λ x. some (or_new (get k x))) (some-injective _ _ q')
        | inr t ↦
            rw t (sorted_each k h rest p')
            ∙ ap (λ x. some (or_new (get k x))) (some-injective _ _ q')
      ]

  parts :
      (runs : List ProjectedRun) (b : ReadModelBuild)
      → assemble c runs ≡ some b
      → (h : Histories) × (histories c [] (values b.model.runs_by_key) ≡ some h)
        × (sort_histories c h ≡ some b.model.history)
  unfolding assemble
  parts runs b e =
      let s : Assembly = assembled c runs in
      let (h, p, q) =
        bind-some (histories c [] (values s.accepted))
          (λ history. bind (sort_histories c history) λ sorted. some (build s sorted)) b e in
      let (sorted, p', q') = bind-some (sort_histories c h) (λ sorted. some (build s sorted)) b q in
      let same = some-injective _ _ q' in
      (
        h,
        subst (λ x. histories c [] (values x.model.runs_by_key) ≡ some h) same p,
        p' ∙ ap (λ x. some x.model.history) same,
      )

  -- If `assemble` returns, then the runs of the model have occurrences, and under every key the history of the
  -- model is the occurrences with this key among them, in history order.
  pub assemble-history :
      (runs : List ProjectedRun) (b : ReadModelBuild)
      → assemble c runs ≡ some b
      → (os : List ExecutionOccurrence) × (all_occurrences (values b.model.runs_by_key) ≡ some os)
        × ((k : String)
            → sort_history c.instant (under k os) ≡ some (or_new (get k b.model.history)))
  unfolding get
  assemble-history runs b e =
      let (h, p, q) = parts runs b e in
      let (os, r, f) = histories-Collected [] h (values b.model.runs_by_key) p in
      (os, r, λ k. ap (sort_history c.instant) (sym (f k)) ∙ sorted_each k h b.model.history q)
