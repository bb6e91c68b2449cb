-- ===== src/ReadModel/Standings.antt =====
-- read-model.ts: which run, if any, a run key stands for.
use mathlib.Core.List.{Permᴰ}
use qe_report.Prelude.{
  String, true, Option, none, some, List, [], ◌∷◌, ◌≡◌, refl, sym, ap, ◌∙◌, inl, inr, arith,
  Bool-cases, if◌then◌else◌,
}
use qe_report.Prelude.Keys.{text_keys, ◌===◌}
use qe_report.Prelude.Assoc.{get, get-set}
use qe_report.Prelude.Sorting.{Pairwise, Pairwise-perm}
use qe_report.ReadModel.Model.{ProjectedRun}
use qe_report.ReadModel.Assemble.{
  Seams, run_key, Candidates, with_candidate, add_candidate, candidates,
}

pub data Standing : Type 0 where
  vacant : Standing
  held : ProjectedRun → Standing
  contested : Standing

abbrev pub standing : Option (List ProjectedRun) → Standing
standing none = vacant
standing (some []) = vacant
standing (some (r ∷ [])) = held r
standing (some (a ∷ b ∷ r)) = contested

abbrev pub step : ProjectedRun → Standing → Standing
step x vacant = held x
step x (held r) = if r.run_directory === x.run_directory then held r else contested
step x contested = contested

standing-with_candidate :
    (x : ProjectedRun) (o : Option (List ProjectedRun))
    → standing (some (with_candidate x o)) ≡ step x (standing o)
standing-with_candidate x none = refl
standing-with_candidate x (some []) = refl
standing-with_candidate x (some (r ∷ [])) = ground arith
standing-with_candidate x (some (a ∷ b ∷ r)) = ground arith

module _ (c : Seams) where
  abbrev pub key : ProjectedRun → String
  key r = run_key c r.project_id r.run_id

  -- The same run, where the key and the directory are the same.
  abbrev pub Agrees : ProjectedRun → ProjectedRun → Type 0
  Agrees x y = (key x === key y) ≡ true → (x.run_directory === y.run_directory) ≡ true → x ≡ y

  Agrees-comm : (x y : ProjectedRun) → Agrees x y → Agrees y x
  Agrees-comm x y h k d = sym (
      h (ground (arith, text_keys.beq_iff (key x) (key y), text_keys.beq_iff (key y) (key x))) (
        ground (
          arith,
          text_keys.beq_iff x.run_directory y.run_directory,
          text_keys.beq_iff y.run_directory x.run_directory,
        )))

  abbrev seen : String → ProjectedRun → Standing → Standing
  seen k r s = if key r === k then step r s else s

  -- the standing of a key after these runs
  abbrev pub standing_after : String → Standing → List ProjectedRun → Standing
  standing_after k s [] = s
  standing_after k s (r ∷ rs) = standing_after k (seen k r s) rs

  standing-add :
      (k : String) (m : Candidates) (r : ProjectedRun)
      → standing (get k (add_candidate c m r)) ≡ seen k r (standing (get k m))
  standing-add k m r = elim (Bool-cases (key r === k)) [
    | inl s ↦
        let same = (text_keys.beq_iff (key r) k).0 s in
        ground (
          arith,
          get-set (key r) k (with_candidate r (get (key r) m)) m,
          standing-with_candidate r (get (key r) m),
          ap (λ z. get z m) same,
        )
    | inr s ↦ ground (arith, get-set (key r) k (with_candidate r (get (key r) m)) m)
  ]

  pub standing-candidates :
      (k : String) (m : Candidates) (rs : List ProjectedRun)
      → standing (get k (candidates c m rs)) ≡ standing_after k (standing (get k m)) rs
  standing-candidates k m [] = refl
  standing-candidates k m (r ∷ rs) =
      standing-candidates k (add_candidate c m r) rs
      ∙ ap (λ s. standing_after k s rs) (standing-add k m r)

  step_swap :
      (x y : ProjectedRun) (s : Standing)
      → ((x.run_directory === y.run_directory) ≡ true → x ≡ y)
      → step x (step y s) ≡ step y (step x s)
  step_swap x y vacant h = elim (Bool-cases (x.run_directory === y.run_directory)) [
    | inl s ↦ ground (
      arith,
      h s,
      text_keys.beq_iff x.run_directory y.run_directory,
      text_keys.beq_iff y.run_directory x.run_directory,
    )
    | inr s ↦ ground (
      arith,
      text_keys.beq_iff x.run_directory y.run_directory,
      text_keys.beq_iff y.run_directory x.run_directory,
    )
  ]
  step_swap x y (held r) h = ground (arith)
  step_swap x y contested h = refl

  seen_swap :
      (k : String) (x y : ProjectedRun) (s : Standing)
      → Agrees x y
      → seen k x (seen k y s) ≡ seen k y (seen k x s)
  seen_swap k x y s h = elim (Bool-cases (key x === k)) [
    | inl p ↦ elim (Bool-cases (key y === k)) [
      | inl q ↦
          rw (p, q)
            (step_swap x y s (
              h (
                ground (
                  arith,
                  text_keys.beq_iff (key x) k,
                  text_keys.beq_iff (key y) k,
                  text_keys.beq_iff (key x) (key y),
                ))))
      | inr q ↦ ground arith
    ]
    | inr p ↦ ground arith
  ]

  -- The order in which runs come is nothing to the standing of a key.
  pub standing_after-perm :
      (k : String) (s : Standing) {xs ys : List ProjectedRun}
      → Permᴰ xs ys
      → Pairwise Agrees xs
      → standing_after k s xs ≡ standing_after k s ys
  standing_after-perm k s Permᴰ.nil h = refl
  standing_after-perm k s (Permᴰ.cons {b = b} {l₁ = xs} e p) h =
      ap (λ z. standing_after k (seen k z s) xs) e ∙ standing_after-perm k (seen k b s) p h.1
  standing_after-perm k s (Permᴰ.swap {a = a} {b = b} {a' = d} {l = l} e f) h =
      ap (λ z. standing_after k z l) (seen_swap k b a s (Agrees-comm a b h.0.0))
      ∙ ap (λ z. standing_after k (seen k a (seen k z s)) l) f
      ∙ ap (λ z. standing_after k (seen k z (seen k d s)) l) e
  standing_after-perm k s (Permᴰ.trans p q) h =
      standing_after-perm k s p h ∙ standing_after-perm k s q (Pairwise-perm Agrees Agrees-comm p h)
