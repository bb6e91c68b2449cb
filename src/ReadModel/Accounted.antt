-- ===== src/ReadModel/Accounted.antt =====
-- read-model.ts: the model and the problems beside the runs that `assemble` is given.
use mathlib.Core.List.Permᴰ
use mathlib.Core.Option.{some-injective}
use qe_report.Prelude.{
  String, true, false, Option, none, some, List, [], ◌∷◌, ◌≡◌, refl, sym, subst, ◌⊎◌, inl, inr, All,
  arith, Bool-cases, ap,
}
use qe_report.Prelude.Keys.{text_keys, ◌===◌, ===_refl}
use qe_report.Prelude.Assoc.{Assoc, get}
use qe_report.Prelude.Order.{sort}
use qe_report.Prelude.Sorting.{Apart-perm, All-perm, sort_permutes}
use qe_report.ReadModel.Compare.{at_or_before}
use qe_report.ReadModel.Executions.{compare_keys}
use qe_report.Validator.Finish.{values}
use qe_report.ReadModel.Instant.{bind, bind-some}
use qe_report.ReadModel.Model.{ProjectedRun, IngestionProblem}
use qe_report.ReadModel.Assemble.{
  Seams, Assembly, run_key, Candidates, with_candidate, add_candidate, candidates, nothing,
  assembled, assemble, build, histories, sort_histories, ReadModelBuild,
}
use qe_report.ReadModel.Handled.{Reported, Handled, same_key, Keyed, Keyed-set, Handled-keys}
use qe_report.ReadModel.Lookups.{
  All-get, Reported-of, any_in, get-set_other, get-set_same, with_candidate-keeps,
  with_candidate-own,
}

module _ (c : Seams) where
  abbrev key : ProjectedRun → String
  key r = run_key c r.project_id r.run_id

  abbrev Held : Candidates → ProjectedRun → Type 0
  Held m r = any_in r.run_directory (get (key r) m) ≡ true

  Held-add : (m : Candidates) (x r : ProjectedRun) → Held m r → Held (add_candidate c m x) r
  Held-add m x r h =
      let v : List ProjectedRun = with_candidate x (get (key x) m) in
      elim (Bool-cases (key x === key r)) [
        | inl e ↦
            let same = (text_keys.beq_iff (key x) (key r)).0 e in
            subst (λ o. any_in r.run_directory o ≡ true) (sym (get-set_same (key x) (key r) v m e))
              (with_candidate-keeps r.run_directory x (get (key x) m)
                (subst (λ k. any_in r.run_directory (get k m) ≡ true) (sym same) h))
        | inr e ↦
            subst (λ o. any_in r.run_directory o ≡ true) (sym (get-set_other (key x) (key r) v m e))
              h
      ]

  Held-own : (m : Candidates) (r : ProjectedRun) → Held (add_candidate c m r) r
  Held-own m r =
      let v : List ProjectedRun = with_candidate r (get (key r) m) in
      subst (λ o. any_in r.run_directory o ≡ true)
        (sym (get-set_same (key r) (key r) v m (===_refl (key r))))
        (with_candidate-own r (get (key r) m))

  Held-all :
      (m : Candidates) (r : ProjectedRun) (rs : List ProjectedRun)
      → Held m r
      → Held (candidates c m rs) r
  Held-all m r [] h = h
  Held-all m r (x ∷ rs) h = Held-all (add_candidate c m x) r rs (Held-add m x r h)

  All-Held : (m : Candidates) (rs : List ProjectedRun) → All (Held (candidates c m rs)) rs
  All-Held m [] = tt
  All-Held m (x ∷ rs) =
      (Held-all (add_candidate c m x) x rs (Held-own m x), All-Held (add_candidate c m x) rs)

  pub candidates-Keyed :
      (m : Candidates) (rs : List ProjectedRun) → Keyed m → Keyed (candidates c m rs)
  candidates-Keyed m [] h = h
  candidates-Keyed m (x ∷ rs) h =
      candidates-Keyed (add_candidate c m x) rs
        (Keyed-set (key x) (with_candidate x (get (key x) m)) m h)

  none_accepted : (gs : Candidates) → All (λ g. get g.0 nothing.accepted ≡ none) gs
  unfolding get
  none_accepted [] = tt
  none_accepted (g ∷ gs) = (refl, none_accepted gs)

  All-Handled : (runs : List ProjectedRun) → All (Handled (assembled c runs)) (candidates c [] runs)
  unfolding assembled
  All-Handled runs =
      let m : Candidates = candidates c [] runs in
      let sorts = sort_permutes (at_or_before compare_keys) m in
      All-perm (Handled (assembled c runs)) sorts (
        Handled-keys nothing (sort (at_or_before compare_keys) m)
          (Apart-perm same_key (Permᴰ.symm sorts) (candidates-Keyed [] runs tt))
          (none_accepted (sort (at_or_before compare_keys) m)))

  -- The run's key holds a run of its directory, or a problem names the directory.
  abbrev pub Accounted : Assoc String ProjectedRun → List IngestionProblem → ProjectedRun → Type 0
  Accounted accepted problems r =
      ((run : ProjectedRun) × (get (key r) accepted ≡ some run)
        × (run.run_directory ≡ r.run_directory))
      ⊎ Reported problems r

  Accounted-Handled :
      (t : Assembly) (r : ProjectedRun) (l : List ProjectedRun)
      → Handled t (key r, l)
      → any_in r.run_directory (some l) ≡ true
      → Accounted t.accepted t.problems r
  Accounted-Handled t r [] h e = cc
  Accounted-Handled t r (x ∷ []) (inl h) e =
      inl (x, h, (text_keys.beq_iff x.run_directory r.run_directory).0 (ground arith))
  Accounted-Handled t r (x ∷ []) (inr h) e =
      inr (Reported-of t.problems r.run_directory (x ∷ []) (h, tt) e)
  Accounted-Handled t r (x ∷ y ∷ l) h e =
      inr (Reported-of t.problems r.run_directory (x ∷ y ∷ l) h.1 e)

  Accounted-found :
      (t : Assembly) (m : Candidates) (r : ProjectedRun) (o : Option (List ProjectedRun))
      → All (Handled t) m
      → get (key r) m ≡ o
      → any_in r.run_directory o ≡ true
      → Accounted t.accepted t.problems r
  Accounted-found t m r none h g e = cc
  Accounted-found t m r (some l) h g e =
      Accounted-Handled t r l (All-get (Handled t) (key r) m l h g) e

  each-Accounted :
      (t : Assembly) (m : Candidates) (rs : List ProjectedRun)
      → All (Handled t) m
      → All (Held m) rs
      → All (Accounted t.accepted t.problems) rs
  each-Accounted t m [] h k = tt
  each-Accounted t m (r ∷ rs) h k =
      (Accounted-found t m r (get (key r) m) h refl k.0, each-Accounted t m rs h k.1)

  -- two directories under one key
  Conflict-Handled :
      (t : Assembly) (k d e : String) (l : List ProjectedRun)
      → Handled t (k, l)
      → any_in d (some l) ≡ true
      → any_in e (some l) ≡ true
      → (d === e) ≡ false
      → get k t.accepted ≡ none
  Conflict-Handled t k d e [] h p q n = cc
  Conflict-Handled t k d e (x ∷ []) h p q n = absurd (
      ground (
        arith,
        text_keys.beq_iff x.run_directory d,
        text_keys.beq_iff x.run_directory e,
        text_keys.beq_iff d e,
      ))
  Conflict-Handled t k d e (x ∷ y ∷ l) h p q n = h.0

  Conflict-found :
      (t : Assembly) (m : Candidates) (k d e : String) (o : Option (List ProjectedRun))
      → All (Handled t) m
      → get k m ≡ o
      → any_in d o ≡ true
      → any_in e o ≡ true
      → (d === e) ≡ false
      → get k t.accepted ≡ none
  Conflict-found t m k d e none h g p q n = cc
  Conflict-found t m k d e (some l) h g p q n =
      Conflict-Handled t k d e l (All-get (Handled t) k m l h g) p q n

  -- No run of another directory has the key of `r`, or the model has nothing under this key.
  abbrev pub NotPreferred : Assoc String ProjectedRun → ProjectedRun → ProjectedRun → Type 0
  NotPreferred accepted r x =
      key r ≡ key x → (r.run_directory === x.run_directory) ≡ false → get (key r) accepted ≡ none

  All-NotPreferred :
      (t : Assembly) (m : Candidates) (r : ProjectedRun) (rs : List ProjectedRun)
      → All (Handled t) m
      → Held m r
      → All (Held m) rs
      → All (NotPreferred t.accepted r) rs
  All-NotPreferred t m r [] h k l = tt
  All-NotPreferred t m r (x ∷ rs) h k l = (
    λ same n.
        Conflict-found t m (key r) r.run_directory x.run_directory (get (key r) m) h refl k
          (subst (λ i. any_in x.run_directory (get i m) ≡ true) (sym same) l.0) n,
    All-NotPreferred t m r rs h k l.1,
  )

  each-NotPreferred :
      (t : Assembly) (m : Candidates) (qs rs : List ProjectedRun)
      → All (Handled t) m
      → All (Held m) qs
      → All (Held m) rs
      → All (λ r. All (NotPreferred t.accepted r) rs) qs
  each-NotPreferred t m [] rs h k l = tt
  each-NotPreferred t m (q ∷ qs) rs h k l =
      (All-NotPreferred t m q rs h k.0 l, each-NotPreferred t m qs rs h k.1 l)

  assemble-parts :
      (runs : List ProjectedRun) (b : ReadModelBuild)
      → assemble c runs ≡ some b
      → (b.model.runs_by_key ≡ (assembled c runs).accepted)
        × (b.problems ≡ (assembled c runs).problems)
  unfolding assemble
  assemble-parts runs b h =
      let s : Assembly = assembled c runs in
      let (hs, p, q) =
        bind-some (histories c [] (values s.accepted))
          (λ history. bind (sort_histories c history) λ sorted. some (build s sorted)) b h in
      let (sorted, p', q') =
        bind-some (sort_histories c hs) (λ sorted. some (build s sorted)) b q in
      (
        sym (ap (λ x. x.model.runs_by_key) (some-injective _ _ q')),
        sym (ap (λ x. x.problems) (some-injective _ _ q')),
      )

  -- Of every run that `assemble` is given, the model holds under its key a run of the same directory,
  -- or a problem names the directory; and where another run has the same key and a different directory,
  -- the model holds neither.
  pub assemble-Accounted :
      (runs : List ProjectedRun) (b : ReadModelBuild)
      → assemble c runs ≡ some b
      → All (Accounted b.model.runs_by_key b.problems) runs
        × All (λ r. All (NotPreferred b.model.runs_by_key r) runs) runs
  assemble-Accounted runs b h =
      let s : Assembly = assembled c runs in
      let m : Candidates = candidates c [] runs in
      let held = All-Held [] runs in
      let (same, problems) = assemble-parts runs b h in
      (
        subst (λ a. All (Accounted a b.problems) runs) (sym same)
            (subst (λ p. All (Accounted s.accepted p) runs) (sym problems)
              (each-Accounted s m runs (All-Handled runs) held)),
        subst (λ a. All (λ r. All (NotPreferred a r) runs) runs) (sym same)
            (each-NotPreferred s m runs runs (All-Handled runs) held held),
      )
