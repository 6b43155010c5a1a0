-- ===== src/Text/Decimal.antt =====
-- `to_string` of a number, as `format!` prints it.
use Prim.Native.String.{char_at, ◌++◌ as text_append}
use conversation_blackboard.Common.{
  ℕ, zero, suc, ◌/◌, ◌%◌, ◌<◌, ◌≡◌, refl, ap, String, ltb, if◌then◌else◌, arith, Bool-cases, inl,
  inr,
}

abbrev digit : ℕ → String
digit n = String.◌∷◌ (char_at "0123456789" n) String.[]

-- The digits of a number, the last one last, with at most as many as the fuel.
unfoldable pub digits : ℕ → ℕ → String
digits zero n = String.[]
digits (suc fuel) n =
    let front = digits fuel (n / 10) in
    if ltb n 10 then digit n else text_append front (digit (n % 10))

unfoldable pub to_string : ℕ → String
unfolding digits
to_string n = digits (suc n) n

-- More fuel than the number itself prints the same.
pub digits-enough : (fuel n : ℕ) → n < fuel → digits fuel n ≡ digits (suc fuel) n
unfolding digits
digits-enough zero n h = absurd (omega arith)
digits-enough (suc fuel) n h = elim (Bool-cases (ltb n 10)) [
  | inl small ↦ rw small refl
  | inr large ↦
      let shorter : n / 10 < fuel = ground arith in
      rw large (ap (λ s. text_append s (digit (n % 10))) (digits-enough fuel (n / 10) shorter))
]
