-- ===== src/Common/Eq.antt =====
-- Equality tests by instances: numbers, integers, texts, optional values.
use Prim.Native.Nat.{ℕ}
use Prim.Native.String.{String}
use mathlib.Core.Path.{◌≡◌, refl, ap}
use mathlib.Core.Logic.{◌↔◌}
use mathlib.Core.Bool.{Bool, true, false}
use mathlib.Core.Option.{Option, none, some}
use text.Mathlib.Text.{◌==◌ as text_test}
use text.Mathlib.TextEquality.{eq_iff}
use conversation_blackboard.Common.Tests.{nat_beq, nat_beq_iff}
use conversation_blackboard.Common.Int.{ℤ, int_beq, int_beq_iff}

-- A column type that a statement may compare.
pub record Eq {ℓ} (Column : Type ℓ) : Type ℓ where
  pub same : Column → Column → Bool
  pub same_iff : (x y : Column) → (same x y ≡ true) ↔ (x ≡ y)

instance abbrev pub int_eq : Eq ℤ
int_eq = record { same = int_beq; same_iff = int_beq_iff }

instance abbrev pub nat_eq : Eq ℕ
nat_eq = record { same = nat_beq; same_iff = nat_beq_iff }

instance abbrev pub string_eq : Eq String
string_eq = record { same = text_test; same_iff = eq_iff }

module _ {ℓ} {Column : Type ℓ} ⦃column : Eq Column⦄ where
  infix 50 ◌==◌
  abbrev pub ◌==◌ : Column → Column → Bool
  x == y = column.same x y

  pub ==_iff : (x y : Column) → (x == y ≡ true) ↔ (x ≡ y)
  ==_iff x y = column.same_iff x y

  pub ==_refl : (x : Column) → x == x ≡ true
  ==_refl x = (==_iff x x).1 refl

  abbrev pub option_beq : Option Column → Option Column → Bool
  option_beq none none = true
  option_beq none (some y) = false
  option_beq (some x) none = false
  option_beq (some x) (some y) = column.same x y

  pub option_beq_iff : (a b : Option Column) → (option_beq a b ≡ true) ↔ (a ≡ b)
  option_beq_iff none none = (λ h. refl, λ h. refl)
  option_beq_iff none (some y) = (λ h. cc, λ h. cc)
  option_beq_iff (some x) none = (λ h. cc, λ h. cc)
  option_beq_iff (some x) (some y) =
      (λ h. ap some ((column.same_iff x y).0 h), λ h. (column.same_iff x y).1 (cc))

  instance abbrev pub option_eq : Eq (Option Column)
  option_eq = record { same = option_beq; same_iff = option_beq_iff }
