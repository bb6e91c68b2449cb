-- ===== src/ReadModel/Handled.antt =====
-- read-model.ts: what becomes of the candidates of each run key.
use mathlib.Core.List.{append_assoc}
use qe_report.Prelude.{
  String, Bool, true, false, ◌&&◌, none, some, List, [], ◌∷◌, ◌++◌, ◌≡◌, refl, subst, ◌∙◌, ◌⊎◌, inl,
  inr, map, any, any-append, All, arith, Bool-cases,
}
use qe_report.Prelude.Keys.{text_keys, ◌===◌, ===_refl}
use qe_report.Prelude.Assoc.{get, set, get-set}
use qe_report.Prelude.Sorting.{Apart}
use qe_report.ReadModel.Model.{
  ProjectedRun, IngestionProblem, IngestionProblemCode, duplicate_run, blob_size_conflict,
}
use qe_report.ReadModel.Assemble.{
  Assembly, Candidates, run_problem, conflicts, accept, assemble_key, assemble_keys,
}

-- A problem names the directory.
abbrev pub names_directory : String → IngestionProblem → Bool
names_directory directory p = p.run_directory === directory

abbrev pub Reported : List IngestionProblem → ProjectedRun → Type 0
Reported problems run = any (names_directory run.run_directory) problems ≡ true

Reported-append :
    (ps qs : List IngestionProblem) (run : ProjectedRun) → Reported ps run → Reported (ps ++ qs) run
Reported-append ps qs run h = ground (arith, any-append (names_directory run.run_directory) ps qs)

Reported-own :
    (ps : List IngestionProblem) (code : IngestionProblemCode) (run : ProjectedRun)
    → Reported (ps ++ (run_problem code run ∷ [])) run
Reported-own ps code run = ground (
  arith,
  any-append (names_directory run.run_directory) ps (run_problem code run ∷ []),
  ===_refl run.run_directory,
)

-- What has become of the candidates of a key.
abbrev pub Handled : Assembly → String × List ProjectedRun → Type 0
Handled t (key, []) = Unit
Handled t (key, run ∷ []) = (get key t.accepted ≡ some run) ⊎ Reported t.problems run
Handled t (key, a ∷ b ∷ r) = (get key t.accepted ≡ none) × All (Reported t.problems) (a ∷ b ∷ r)

-- later keys leave a key alone
record Later (key : String) (s t : Assembly) : Type 0 where
  kept : get key t.accepted ≡ get key s.accepted
  reported : (run : ProjectedRun) → Reported s.problems run → Reported t.problems run

All-Reported :
    (s t : Assembly) (l : List ProjectedRun)
    → ((run : ProjectedRun) → Reported s.problems run → Reported t.problems run)
    → All (Reported s.problems) l
    → All (Reported t.problems) l
All-Reported s t [] f h = tt
All-Reported s t (x ∷ l) f h = (f x h.0, All-Reported s t l f h.1)

Handled-Later :
    (s t : Assembly) (g : String × List ProjectedRun) → Later g.0 s t → Handled s g → Handled t g
Handled-Later s t (key, []) l h = tt
Handled-Later s t (key, run ∷ []) l (inl e) = inl (l.kept ∙ e)
Handled-Later s t (key, run ∷ []) l (inr e) = inr (l.reported run e)
Handled-Later s t (key, a ∷ b ∷ r) l h = (l.kept ∙ h.0, All-Reported s t (a ∷ b ∷ r) l.reported h.1)

Later-key :
    (k : String) (s : Assembly) (g : String × List ProjectedRun)
    → (g.0 === k) ≡ false
    → Later k s (assemble_key s g)
Later-key k s (key, []) h = record { kept = refl; reported = λ run r. r }
Later-key k s (key, run ∷ []) h = elim (Bool-cases (conflicts s.blobs run.attachments)) [
  | inl e ↦
      rw (e, accept)
        (record {
          kept = refl;
          reported =
              λ x r. Reported-append s.problems (run_problem blob_size_conflict run ∷ []) x r;
        })
  | inr e ↦
      rw (e, accept) (record { kept = get-set key k run s.accepted ∙ rw h; reported = λ x r. r })
]
Later-key k s (key, a ∷ b ∷ r) h = record {
  kept = refl;
  reported = λ x y. Reported-append s.problems (map (run_problem duplicate_run) (a ∷ b ∷ r)) x y;
}

each-Reported :
    (ps : List IngestionProblem) (l : List ProjectedRun)
    → All (Reported (ps ++ map (run_problem duplicate_run) l)) l
each-Reported ps [] = tt
each-Reported ps (x ∷ l) =
    let head : List IngestionProblem = run_problem duplicate_run x ∷ [] in
    let same = append_assoc ps head (map (run_problem duplicate_run) l) in
    (
      subst (λ q. Reported q x) same
          (Reported-append (ps ++ head) (map (run_problem duplicate_run) l) x
            (Reported-own ps duplicate_run x)),
      subst (λ q. All (Reported q) l) same (each-Reported (ps ++ head) l),
    )

Handled-key :
    (s : Assembly) (g : String × List ProjectedRun)
    → get g.0 s.accepted ≡ none
    → Handled (assemble_key s g) g
Handled-key s (key, []) h = tt
Handled-key s (key, run ∷ []) h = elim (Bool-cases (conflicts s.blobs run.attachments)) [
  | inl e ↦ rw (e, accept) (inr (Reported-own s.problems blob_size_conflict run))
  | inr e ↦ rw (e, accept) (inl (get-set key key run s.accepted ∙ rw (===_refl key)))
]
Handled-key s (key, a ∷ b ∷ r) h = (h, each-Reported s.problems (a ∷ b ∷ r))

-- two entries have one key
abbrev pub same_key {ℓ} : {V : Type ℓ} → String × V → String × V → Bool
same_key a b = a.0 === b.0

pub turned : (a b : String) → (a === b) ≡ false → (b === a) ≡ false
turned a b h = ground (arith, text_keys.beq_iff a b, text_keys.beq_iff b a)

both : (a b : String) → ((a === b) && (b === a)) ≡ false → (a === b) ≡ false
both a b h = ground (arith, text_keys.beq_iff a b, text_keys.beq_iff b a)

keys_apart : (a b : String) → (a === b) ≡ false → ((a === b) && (b === a)) ≡ false
keys_apart a b h = ground arith

-- a map's keys are told apart
abbrev pub Keyed : Candidates → Type 0
Keyed = Apart same_key

All-set :
    (P : String → Type 0) (k : String) (v : List ProjectedRun) (m : Candidates)
    → All (λ g. P g.0) m
    → P k
    → All (λ g. P g.0) (set k v m)
unfolding set
All-set P k v [] h p = (p, tt)
All-set P k v ((j, w) ∷ m) h p = elim (Bool-cases (j === k)) [
  | inl e ↦ rw (e, set) h
  | inr e ↦ rw (e, set) (h.0, All-set P k v m h.1 p)
]

pub Keyed-set : (k : String) (v : List ProjectedRun) (m : Candidates) → Keyed m → Keyed (set k v m)
unfolding set
Keyed-set k v [] h = (tt, tt)
Keyed-set k v ((j, w) ∷ m) h = elim (Bool-cases (j === k)) [
  | inl e ↦ rw (e, set) h
  | inr e ↦
      rw (e, set)
        (
          All-set (λ x. ((j === x) && (x === j)) ≡ false) k v m h.0 (keys_apart j k e),
          Keyed-set k v m h.1,
        )
]

Later-keys :
    (k : String) (s : Assembly) (gs : Candidates)
    → All (λ g. (g.0 === k) ≡ false) gs
    → Later k s (assemble_keys s gs)
Later-keys k s [] h = record { kept = refl; reported = λ run r. r }
Later-keys k s (g ∷ gs) h =
    let one = Later-key k s g h.0 in
    let rest = Later-keys k (assemble_key s g) gs h.1 in
    record {
      kept = rest.kept ∙ one.kept;
      reported = λ run r. rest.reported run (one.reported run r);
    }

others_apart :
    (g : String × List ProjectedRun) (gs : Candidates)
    → All (λ h. (same_key g h && same_key h g) ≡ false) gs
    → All (λ h. (h.0 === g.0) ≡ false) gs
others_apart g [] h = tt
others_apart g (x ∷ gs) h = (turned g.0 x.0 (both g.0 x.0 h.0), others_apart g gs h.1)

still_free :
    (s : Assembly) (g : String × List ProjectedRun) (gs : Candidates)
    → All (λ h. (same_key g h && same_key h g) ≡ false) gs
    → All (λ h. get h.0 s.accepted ≡ none) gs
    → All (λ h. get h.0 (assemble_key s g).accepted ≡ none) gs
still_free s g [] d f = tt
still_free s g (x ∷ gs) d f =
    ((Later-key x.0 s g (both g.0 x.0 d.0)).kept ∙ f.0, still_free s g gs d.1 f.1)

pub Handled-keys :
    (s : Assembly) (gs : Candidates)
    → Keyed gs
    → All (λ g. get g.0 s.accepted ≡ none) gs
    → All (Handled (assemble_keys s gs)) gs
Handled-keys s [] d f = tt
Handled-keys s (g ∷ gs) d f = (
  Handled-Later (assemble_key s g) (assemble_keys (assemble_key s g) gs) g
      (Later-keys g.0 (assemble_key s g) gs (others_apart g gs d.0)) (Handled-key s g f.0),
  Handled-keys (assemble_key s g) gs d.1 (still_free s g gs d.0 f.1),
)
