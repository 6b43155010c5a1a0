-- ===== src/Identity/Totp.antt =====
-- `authenticate_web_totp` of identity.rs: a login with a one-time password.
use conversation_blackboard.Common.{
  ℕ, ◌+◌, String, Bool, not, ◌&&◌, ◌||◌, Option, none, some, ltb, leb, is_some, if◌then◌else◌,
}
use Prim.Native.Nat.{min}
use conversation_blackboard.Common.Eq.{◌==◌, string_eq, nat_eq}
use conversation_blackboard.Sql.{Result, ok, DbError, find, update_where}
use conversation_blackboard.Board.{Identity, Participant, Database}
use conversation_blackboard.Transaction.{TxEnd, commit, rollback, in_tx}
use conversation_blackboard.Authorization.Delegated.{is_some_and}
use conversation_blackboard.WebAuth.{
  HmacSha1, u64_max, totp_max_failures, totp_lock_secs, is_totp_code, matching_totp_step,
}
use conversation_blackboard.Identity.{is_participant, is_acceptable_id}

-- The largest `i64`: `i64::try_from(n).unwrap_or(i64::MAX)`
abbrev pub i64_max : ℕ
i64_max = 9223372036854775807

abbrev pub to_i64 : ℕ → ℕ
to_i64 n = min n i64_max

-- WHERE participant_id = ?1 AND status = 'active' AND totp_secret IS NOT NULL
abbrev pub can_login : String → Participant → Bool
can_login participant_id r =
    r.participant_id == participant_id && r.status == "active" && is_some r.totp_secret

-- UPDATE web_participants SET … WHERE participant_id = ?
abbrev pub update_login : String → (Participant → Participant) → Database → Database
update_login participant_id f db = record db {
  web_participants = update_where (is_participant participant_id) f db.web_participants;
}

abbrev pub accept_step : ℕ → ℕ → Participant → Participant
accept_step clock step r = record r {
  totp_last_step = some step;
  totp_fail_count = 0;
  totp_locked_until = none;
  updated_at = clock;
}

abbrev pub lock_login : ℕ → ℕ → Participant → Participant
lock_login clock until r = record r {
  totp_fail_count = 0;
  totp_locked_until = some until;
  updated_at = clock;
}

abbrev pub count_failure : ℕ → ℕ → Participant → Participant
count_failure clock failures r = record r {
  totp_fail_count = failures;
  totp_locked_until = none;
  updated_at = clock;
}

-- The failures so far, with the new one; a lock that has run out starts them again.
unfoldable pub failures_after : Participant → ℕ
failures_after r = min ((if is_some r.totp_locked_until then 0 else r.totp_fail_count) + 1) i64_max

-- A code that matches no step.
unfoldable pub refuse_code :
    ℕ → String → ℕ → Participant → Database → Result DbError (TxEnd (Option Identity))
unfolding failures_after
refuse_code clock participant_id now r db =
    if leb totp_max_failures (failures_after r)
    then ok (
        commit
          (update_login participant_id
            (lock_login clock (to_i64 (min (now + totp_lock_secs) u64_max))) db)
          none)
    else ok (commit (update_login participant_id (count_failure clock (failures_after r)) db) none)

-- A code that matches a step.
unfoldable pub accept_code :
    ℕ → String → ℕ → Participant → Database → Result DbError (TxEnd (Option Identity))
accept_code clock participant_id step r db =
    if is_some_and r.totp_last_step (λ last. leb (to_i64 step) last)
    then ok (rollback none)
    else ok (
        commit (update_login participant_id (accept_step clock (to_i64 step)) db)
          (some (record { source = r.source; instance_id = participant_id; label = r.label })))

abbrev pub or_empty : Option String → String
or_empty none = ""
or_empty (some value) = value

module _ (hmac_sha1 : HmacSha1) where
  -- From the row on; its query leaves out the rows without a secret.
  unfoldable pub login_with_row :
      ℕ → String → String → ℕ → Participant → Database → Result DbError (TxEnd (Option Identity))
  login_with_row clock participant_id value now r db =
      if is_some_and r.totp_locked_until (λ until. ltb (to_i64 now) until)
      then ok (rollback none)
      else elim (matching_totp_step hmac_sha1 (or_empty r.totp_secret) value now) [
        | some step ↦ accept_code clock participant_id step r db
        | none ↦ refuse_code clock participant_id now r db
      ]

  -- `now` is the caller's reading of the clock, and `clock` what `unixepoch()` reads.
  unfoldable pub authenticate_web_totp :
      ℕ → String → String → ℕ → Database → Database × Result DbError (Option Identity)
  authenticate_web_totp clock participant_id value now db =
      if not (is_acceptable_id participant_id) || not (is_totp_code value)
      then (db, ok none)
      else in_tx db (elim (find (can_login participant_id) db.web_participants) [
        | none ↦ ok (rollback none)
        | some r ↦ login_with_row clock participant_id value now r db
      ])
