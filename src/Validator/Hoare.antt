-- ===== src/Validator/Hoare.antt =====
-- Assertions about the steps of `feed`: from a state where `P` holds, a step that goes on leaves
-- `Q` of its value and the state, and one that ends the line leaves `E`.
use qe_report.Validator.Feed.{Feed, Flow, skip, next, Step, follow, ◌>>=◌, after_line}

abbrev pub Leaves {ℓ} : {A : Type 0} → (A → Feed → Type ℓ) → (Feed → Type ℓ) → Flow A → Type ℓ
Leaves Q E (skip s) = E s
Leaves Q E (next a s) = Q a s

pub record Triple {ℓ} {A : Type 0} (P : Feed → Type ℓ) (m : Step A) (Q : A → Feed → Type ℓ)
    (E : Feed → Type ℓ) : Type ℓ where
  pub from : (s : Feed) → P s → Leaves Q E (m s)

Leaves-follow {ℓ} :
    {A B : Type 0} {Q : A → Feed → Type ℓ} {R : B → Feed → Type ℓ} {E : Feed → Type ℓ} (r : Flow A)
    (f : A → Step B)
    → ((a : A) → Triple (Q a) (f a) R E)
    → Leaves Q E r
    → Leaves R E (follow r f)
Leaves-follow (skip s) f rest h = h
Leaves-follow (next a s) f rest h = (rest a).from s h

pub Triple-bind {ℓ} :
    {A B : Type 0} {P : Feed → Type ℓ} {Q : A → Feed → Type ℓ} {R : B → Feed → Type ℓ}
    {E : Feed → Type ℓ} {m : Step A} {f : A → Step B}
    → Triple P m Q E
    → ((a : A) → Triple (Q a) (f a) R E)
    → Triple P (m >>= f) R E
Triple-bind {m = m} {f = f} first rest = record {
  from = λ s h. Leaves-follow (m s) f rest (first.from s h);
}

-- what holds of either outcome holds after the line
pub Leaves-after_line {ℓ} :
    {A : Type 0} (E : Feed → Type ℓ) (r : Flow A) → Leaves (λ _ s. E s) E r → E (after_line r)
Leaves-after_line E (skip s) h = h
Leaves-after_line E (next a s) h = h
