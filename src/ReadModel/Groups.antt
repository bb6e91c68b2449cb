-- ===== src/ReadModel/Groups.antt =====
-- projector.ts: the groups of attempts by execution.
use mathlib.Core.List.{Permᴰ, append_assoc}
use mathlib.Core.List.Permᴰ
use qe_report.Prelude.{
  String, Option, List, [], ◌∷◌, ◌++◌, ◌≡◌, refl, sym, subst, ◌∙◌, All, All-append, Bool-cases, inl,
  inr,
}
use qe_report.Prelude.Keys.{text_keys, ◌===◌}
use qe_report.Prelude.Assoc.{Assoc, get, set}
use qe_report.Validator.Finish.{values}
use qe_report.ReadModel.Project.{AttemptState}
use qe_report.ReadModel.Executions.{Groups, group_one, group, or_new}

-- the states of all groups
abbrev pub grouped : Groups → List AttemptState
grouped [] = []
grouped (g ∷ r) = g.1 ++ grouped r

blocks_swap {ℓ} : {A : Type ℓ} (a b l : List A) → Permᴰ (a ++ (b ++ l)) (b ++ (a ++ l))
blocks_swap a b l =
    subst (λ s. Permᴰ s (b ++ (a ++ l))) (append_assoc a b l)
      (subst (λ s. Permᴰ ((a ++ b) ++ l) s) (append_assoc b a l)
        (Permᴰ.append_right l (Permᴰ.append_comm a b)))

pub grouped-perm : {xs ys : Groups} → Permᴰ xs ys → Permᴰ (grouped xs) (grouped ys)
grouped-perm Permᴰ.nil = Permᴰ.nil
grouped-perm (Permᴰ.cons {a = a} {l₁ = l} {l₂ = m} e p) =
    subst (λ x. Permᴰ (a.1 ++ grouped l) (x.1 ++ grouped m)) e
      (Permᴰ.append_left a.1 (grouped-perm p))
grouped-perm (Permᴰ.swap {a = a} {b = b} {a' = c} {l = l} e f) =
    subst (λ x. Permᴰ (a.1 ++ (b.1 ++ grouped l)) (c.1 ++ (x.1 ++ grouped l))) e
      (subst (λ x. Permᴰ (a.1 ++ (b.1 ++ grouped l)) (x.1 ++ (a.1 ++ grouped l))) f
        (blocks_swap a.1 b.1 (grouped l)))
grouped-perm (Permᴰ.trans p q) = Permᴰ.trans (grouped-perm p) (grouped-perm q)

-- a new state of the group `k`
pushed-perm :
    (k : String) (a : AttemptState) (o : Option (List AttemptState)) (m : Groups)
    → get k m ≡ o
    → Permᴰ (grouped (set k (or_new o ++ (a ∷ [])) m)) (a ∷ grouped m)
unfolding get set
pushed-perm k a o [] h =
    subst (λ x. Permᴰ (grouped ((k, or_new x ++ (a ∷ [])) ∷ [])) (a ∷ [])) h (Permᴰ.refl (a ∷ []))
pushed-perm k a o ((j, w) ∷ m) h = elim (Bool-cases (j === k)) [
  | inl e ↦
      subst (λ x. Permᴰ (grouped (set k (or_new x ++ (a ∷ [])) ((j, w) ∷ m))) (a ∷ w ++ grouped m))
        (rw (e, get) at h)
        (rw (e, set)
          (subst (λ l. Permᴰ l (a ∷ w ++ grouped m)) (sym (append_assoc w (a ∷ []) (grouped m)))
            (Permᴰ.middle a w (grouped m))))
  | inr e ↦
      rw (e, set)
        (Permᴰ.trans (Permᴰ.append_left w (pushed-perm k a o m (rw (e, get) at h)))
          (Permᴰ.middle a w (grouped m)))
]

pub group-perm :
    (g : Groups) (attempts : Assoc String AttemptState)
    → Permᴰ (grouped (group g attempts)) (values attempts ++ grouped g)
group-perm g [] = Permᴰ.refl (grouped g)
group-perm g ((_, a) ∷ r) =
    let id = a.started.payload.test.execution_id in
    Permᴰ.trans (group-perm (group_one g a) r) (
      Permᴰ.trans (Permᴰ.append_left (values r) (pushed-perm id a (get id g) g refl))
        (Permᴰ.middle a (values r) (grouped g)))

-- every state stands in the group of its execution
abbrev pub InGroup : String × List AttemptState → Type 0
InGroup g = All (λ a. a.started.payload.test.execution_id ≡ g.0) g.1

InGroup-pushed :
    (k : String) (a : AttemptState) (o : Option (List AttemptState)) (m : Groups)
    → get k m ≡ o
    → a.started.payload.test.execution_id ≡ k
    → All InGroup m
    → All InGroup (set k (or_new o ++ (a ∷ [])) m)
unfolding get set
InGroup-pushed k a o [] h p t = (subst (λ x. InGroup (k, or_new x ++ (a ∷ []))) h (p, tt), tt)
InGroup-pushed k a o ((j, w) ∷ m) h p t = elim (Bool-cases (j === k)) [
  | inl e ↦
      subst (λ x. All InGroup (set k (or_new x ++ (a ∷ [])) ((j, w) ∷ m))) (rw (e, get) at h)
        (rw (e, set)
          (
            All-append (λ b. b.started.payload.test.execution_id ≡ j) w (a ∷ []) t.0
                (p ∙ sym ((text_keys.beq_iff j k).0 e), tt),
            t.1,
          ))
  | inr e ↦ rw (e, set) (t.0, InGroup-pushed k a o m (rw (e, get) at h) p t.1)
]

pub group-InGroup :
    (g : Groups) (attempts : Assoc String AttemptState)
    → All InGroup g
    → All InGroup (group g attempts)
group-InGroup g [] t = t
group-InGroup g ((_, a) ∷ r) t =
    let id = a.started.payload.test.execution_id in
    group-InGroup (group_one g a) r (InGroup-pushed id a (get id g) g refl refl t)
