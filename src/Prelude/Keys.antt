-- ===== src/Prelude/Keys.antt =====
-- Types with a Boolean equality, as the keys of a JavaScript `Map` have one (`===`).
use Prim.Native.Nat.{ℕ}
use Prim.Native.String.{String}
use mathlib.Core.Path.{◌≡◌, refl, ap}
use mathlib.Core.Option.{Option, none, some, some-injective}
use mathlib.Core.Logic.{◌↔◌}
use mathlib.Core.Bool.{Bool, true, false}
use text.Mathlib.Text.{◌==◌ as text_eq}
use text.Mathlib.TextEquality.{eq_iff}
use qe_report.Prelude.Tests.{◌==◌ as nat_eq, ==_iff as nat_eq_iff}

pub record Eq {ℓ} (A : Type ℓ) : Type ℓ where
  pub beq : A → A → Bool
  pub beq_iff : (a b : A) → (beq a b ≡ true) ↔ (a ≡ b)

infix 50 ◌===◌
abbrev pub ◌===◌ {ℓ} : {A : Type ℓ} ⦃e : Eq A⦄ → A → A → Bool
◌===◌ ⦃e⦄ = e.beq

instance abbrev pub nat_keys : Eq ℕ
nat_keys = record { beq = nat_eq; beq_iff = nat_eq_iff }

instance abbrev pub text_keys : Eq String
text_keys = record { beq = text_eq; beq_iff = eq_iff }

module _ {ℓ} {A : Type ℓ} ⦃e : Eq A⦄ where
  pub ===_refl : (a : A) → (a === a) ≡ true
  ===_refl a = (e.beq_iff a a).1 refl

-- `===` on values that may be `undefined`
abbrev pub option_beq {ℓ} : {A : Type ℓ} → Eq A → Option A → Option A → Bool
option_beq e none none = true
option_beq e (some a) (some b) = e.beq a b
option_beq e _ _ = false

pub option_beq_iff {ℓ} :
    {A : Type ℓ} (e : Eq A) (a b : Option A) → (option_beq e a b ≡ true) ↔ (a ≡ b)
option_beq_iff e none none = (λ _. refl, λ _. refl)
option_beq_iff e none (some b) = (λ h. cc, λ h. cc)
option_beq_iff e (some a) none = (λ h. cc, λ h. cc)
option_beq_iff e (some a) (some b) =
    (λ h. ap some ((e.beq_iff a b).0 h), λ h. (e.beq_iff a b).1 (some-injective a b h))

instance abbrev pub option_keys {ℓ} : {A : Type ℓ} ⦃e : Eq A⦄ → Eq (Option A)
option_keys ⦃e⦄ = record { beq = option_beq e; beq_iff = option_beq_iff e }
