-- ===== src/Identity/Guard.antt =====
-- What a login promises, said apart from the table: a machine that remembers the last step used, the
-- failures in a row and a lock.
use conversation_blackboard.Common.{
  ℕ, ◌+◌, Bool, false, Option, none, some, leb, ltb, if◌then◌else◌,
}
use Prim.Native.Nat.{min}
use conversation_blackboard.WebAuth.{u64_max, totp_max_failures, totp_lock_secs}
use conversation_blackboard.Identity.Totp.{to_i64}

pub record Guard : Type 0 where
  pub last_step : Option ℕ
  pub fail_count : ℕ
  pub locked_until : Option ℕ

-- What one login came to.
pub data Verdict : Type 0 where
  accepted : ℕ → Verdict
  refused : Verdict

abbrev pub is_locked : ℕ → Option ℕ → Bool
is_locked now none = false
is_locked now (some until) = ltb now until

-- A step that is not later than the last one was used already.
abbrev pub is_used : ℕ → Option ℕ → Bool
is_used step none = false
is_used step (some last) = leb step last

abbrev pub lock_end : ℕ → ℕ
lock_end now = to_i64 (min (now + totp_lock_secs) u64_max)

-- The failures that count: none after a lock.
abbrev pub counted : Guard → ℕ
counted g = elim g.locked_until [ none ↦ g.fail_count | some until ↦ 0 ]

-- One login at a time `now`, with the step that its code matches, if any.
unfoldable pub attempt : ℕ → Option ℕ → Guard → Guard × Verdict
attempt now matched g =
    if is_locked (to_i64 now) g.locked_until then (g, Verdict.refused) else elim matched [
      | some step ↦ if is_used (to_i64 step) g.last_step then (g, Verdict.refused) else (
        record { last_step = some (to_i64 step); fail_count = 0; locked_until = none },
        Verdict.accepted (to_i64 step),
      )
      | none ↦
          if leb totp_max_failures (counted g + 1)
          then (
            record { last_step = g.last_step; fail_count = 0; locked_until = some (lock_end now) },
            Verdict.refused,
          )
          else (
            record { last_step = g.last_step; fail_count = counted g + 1; locked_until = none },
            Verdict.refused,
          )
    ]
