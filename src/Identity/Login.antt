-- ===== src/Identity/Login.antt =====
-- A login acts on its participant's row as the guard's machine does, and on no other row.
use conversation_blackboard.Common.{
  ℕ, ◌+◌, String, ◌≡◌, ◌≢◌, refl, sym, ap, inl, inr, true, false, not, Option, none, some, leb, ltb,
  Bool-cases, Option-cases, arith,
}
use conversation_blackboard.Common.Eq.{◌==◌, string_eq}
use conversation_blackboard.Sql.{Result, ok, DbError, select, find}
use conversation_blackboard.Board.{Identity, Participant, Database}
use conversation_blackboard.Transaction.{in_tx}
use conversation_blackboard.Authorization.Delegated.{is_some_and}
use conversation_blackboard.WebAuth.{HmacSha1, totp_max_failures, is_totp_code, matching_totp_step}
use conversation_blackboard.Identity.{is_acceptable_id}
use conversation_blackboard.Identity.Totp.{
  to_i64, can_login, update_login, accept_step, lock_login, count_failure, failures_after,
  refuse_code, accept_code, or_empty, login_with_row, authenticate_web_totp,
}
use conversation_blackboard.Identity.LoginRows.{
  with_login_columns, IsLoginUpdate, update_login-own, update_login-other, update_login-other_rows,
}
use conversation_blackboard.Identity.Guard.{
  Guard, Verdict, accepted, refused, is_locked, is_used, lock_end, counted, attempt,
}

-- What the machine sees of a row.
abbrev pub guard_of : Participant → Guard
guard_of r = record {
  last_step = r.totp_last_step;
  fail_count = r.totp_fail_count;
  locked_until = r.totp_locked_until;
}

-- What the caller of a login gets.
abbrev pub answer : String → Participant → Verdict → Option Identity
answer p r (accepted step) = some (record { source = r.source; instance_id = p; label = r.label })
answer p r refused = none

-- The login took the step of the machine.
pub record IsAttempt (p : String) (r : Participant) (step : Guard × Verdict) (before : Database)
    (out : Database × Result DbError (Option Identity)) : Type 0 where
  pub row : Participant
  pub found : find (can_login p) out.0.web_participants ≡ some row
  pub guard : guard_of row ≡ step.0
  pub same_secret : row.totp_secret ≡ r.totp_secret
  pub other_columns : row ≡ with_login_columns row r
  pub answered : out.1 ≡ ok (answer p r step.1)
  pub others :
      (q : String)
      → q ≢ p
      → find (can_login q) out.0.web_participants ≡ find (can_login q) before.web_participants
  pub other_rows :
      select (λ x. not (x.participant_id == p)) out.0.web_participants
      ≡ select (λ x. not (x.participant_id == p)) before.web_participants
  pub other_tables : out.0 ≡ record before { web_participants = out.0.web_participants }

module _ (p : String) (r : Participant) (db : Database)
    (here : find (can_login p) db.web_participants ≡ some r) where
  unchanged-IsAttempt :
      (step : Guard × Verdict) → step ≡ (guard_of r, refused) → IsAttempt p r step db (db, ok none)
  unchanged-IsAttempt step e = record {
    row = r;
    found = here;
    guard = ap (λ s. s.0) (sym e);
    same_secret = refl;
    other_columns = refl;
    answered = ap (λ s. ok (answer p r s.1)) (sym e);
    others = λ q differs. refl;
    other_rows = refl;
    other_tables = refl;
  }

  updated-IsAttempt :
      (f : Participant → Participant) (step : Guard × Verdict)
      → IsLoginUpdate f
      → step.0 ≡ guard_of (f r)
      → IsAttempt p r step db (update_login p f db, ok (answer p r step.1))
  updated-IsAttempt f step keeps e = record {
    row = f r;
    found = update_login-own p f keeps db here;
    guard = sym e;
    same_secret = keeps.secret r;
    other_columns = keeps.columns r;
    answered = refl;
    others = λ q differs. update_login-other p f keeps db q differs;
    other_rows = update_login-other_rows p f keeps db.web_participants;
    other_tables = refl;
  }

pub is_locked_test : (n : ℕ) (o : Option ℕ) → is_some_and o (λ until. ltb n until) ≡ is_locked n o
unfolding is_some_and
is_locked_test n none = refl
is_locked_test n (some until) = refl

is_used_test : (n : ℕ) (o : Option ℕ) → is_some_and o (λ last. leb n last) ≡ is_used n o
unfolding is_some_and
is_used_test n none = refl
is_used_test n (some last) = refl

-- The saturation of the count is out of reach of the limit.
failures_after-counted :
    (r : Participant)
    → (leb totp_max_failures (failures_after r) ≡ leb totp_max_failures (counted (guard_of r) + 1))
      × (leb totp_max_failures (counted (guard_of r) + 1) ≡ false
          → failures_after r ≡ counted (guard_of r) + 1)
unfolding failures_after
failures_after-counted r = (ground arith, λ few. ground arith)

module _ (hmac : HmacSha1) (clock : ℕ) (p value : String) (now : ℕ) (r : Participant)
    (db : Database) (here : find (can_login p) db.web_participants ≡ some r) where
  accept_code-IsAttempt :
      (step : ℕ)
      → is_locked (to_i64 now) r.totp_locked_until ≡ false
      → IsAttempt p r
          (attempt now (some step) (guard_of r))
          db
          (in_tx db (accept_code clock p step r db))
  unfolding accept_code in_tx attempt
  accept_code-IsAttempt step unlocked = elim (Bool-cases (is_used (to_i64 step) r.totp_last_step)) [
    | inl used ↦
        rw (unlocked, is_used_test (to_i64 step) r.totp_last_step, used)
          (unchanged-IsAttempt p r db here (guard_of r, refused) refl)
    | inr unused ↦
        rw (unlocked, is_used_test (to_i64 step) r.totp_last_step, unused)
          (updated-IsAttempt p r db here (accept_step clock (to_i64 step))
            (guard_of (accept_step clock (to_i64 step) r), accepted (to_i64 step))
            (record { id = λ x. refl; status = λ x. refl; secret = λ x. refl; columns = λ x. refl })
            refl)
  ]

  refuse_code-IsAttempt :
      is_locked (to_i64 now) r.totp_locked_until ≡ false
      → IsAttempt p r (attempt now none (guard_of r)) db (in_tx db (refuse_code clock p now r db))
  unfolding refuse_code in_tx attempt
  refuse_code-IsAttempt unlocked =
      let (same, below) = failures_after-counted r in
      elim (Bool-cases (leb totp_max_failures (counted (guard_of r) + 1))) [
        | inl enough ↦
            rw (unlocked, same, enough)
              (updated-IsAttempt p r db here (lock_login clock (lock_end now))
                (guard_of (lock_login clock (lock_end now) r), refused)
                (record {
                  id = λ x. refl;
                  status = λ x. refl;
                  secret = λ x. refl;
                  columns = λ x. refl;
                })
                refl)
        | inr few ↦
            rw (unlocked, same, few)
              (updated-IsAttempt p r db here (count_failure clock (failures_after r))
                (
                  record {
                    last_step = r.totp_last_step;
                    fail_count = counted (guard_of r) + 1;
                    locked_until = none;
                  },
                  refused,
                )
                (record {
                  id = λ x. refl;
                  status = λ x. refl;
                  secret = λ x. refl;
                  columns = λ x. refl;
                })
                (ap
                  (λ n. record {
                    last_step = r.totp_last_step;
                    fail_count = n;
                    locked_until = none;
                  })
                  (sym (below few))))
      ]

  attempt-locked :
      (matched : Option ℕ)
      → is_locked (to_i64 now) r.totp_locked_until ≡ true
      → attempt now matched (guard_of r) ≡ (guard_of r, refused)
  unfolding attempt
  attempt-locked matched locked = rw locked refl

  login_with_row-IsAttempt :
      IsAttempt p r
        (attempt now (matching_totp_step hmac (or_empty r.totp_secret) value now) (guard_of r))
        db
        (in_tx db (login_with_row hmac clock p value now r db))
  unfolding login_with_row in_tx
  login_with_row-IsAttempt = elim (Bool-cases (is_locked (to_i64 now) r.totp_locked_until)) [
    | inl locked ↦
        rw (is_locked_test (to_i64 now) r.totp_locked_until, locked)
          (unchanged-IsAttempt p r db here _ (attempt-locked _ locked))
    | inr unlocked ↦
        elim (Option-cases (matching_totp_step hmac (or_empty r.totp_secret) value now)) [
          | inl unmatched ↦
              rw
                (
                  is_locked_test (to_i64 now) r.totp_locked_until,
                  unlocked,
                  unmatched,
                  login_with_row,
                )
                (refuse_code-IsAttempt unlocked)
          | inr (step, matched) ↦
              rw
                (is_locked_test (to_i64 now) r.totp_locked_until, unlocked, matched, login_with_row)
                (accept_code-IsAttempt step unlocked)
        ]
  ]

  -- A login with a well-formed code, by a participant that may log in, takes the step of the
  -- machine on the participant's row: the row is found again with the machine's new state and, but
  -- for the time of its update, all else as it was, the answer is the identity if and only if the
  -- machine accepts, and no row with another participant's id and no other table changes.
  pub authenticate_web_totp-IsAttempt :
      is_acceptable_id p ≡ true
      → is_totp_code value ≡ true
      → IsAttempt p r
          (attempt now (matching_totp_step hmac (or_empty r.totp_secret) value now) (guard_of r))
          db
          (authenticate_web_totp hmac clock p value now db)
  unfolding authenticate_web_totp
  authenticate_web_totp-IsAttempt acceptable formed =
      rw (acceptable, formed, here) login_with_row-IsAttempt
