-- ===== src/Identity/Logins.antt =====
-- Sequences of logins, what a login may come to, and what the guard's machine accepts.
use conversation_blackboard.Common.{
  ℕ, ◌≤◌, ◌<◌, String, ◌≡◌, refl, ap, inl, inr, Option, none, some, List, [], ◌∷◌, Bool-cases,
  Option-cases, arith,
}
use conversation_blackboard.Common.Eq.{string_eq}
use conversation_blackboard.Sql.{Result, ok, DbError, find}
use conversation_blackboard.Board.{Identity, Participant, Database}
use conversation_blackboard.Transaction.{in_tx}
use conversation_blackboard.WebAuth.{HmacSha1, is_totp_code, matching_totp_step}
use conversation_blackboard.Identity.{is_acceptable_id}
use conversation_blackboard.Identity.Totp.{to_i64, can_login, or_empty, authenticate_web_totp}
use conversation_blackboard.Identity.Guard.{
  Guard, Verdict, accepted, refused, is_locked, is_used, attempt,
}
use conversation_blackboard.Identity.Login.{
  guard_of, answer, IsAttempt, authenticate_web_totp-IsAttempt,
}

-- The last step used is `s` or later.
abbrev pub HasUsed : ℕ → Guard → Type 0
HasUsed s g = (last : ℕ) × (g.last_step ≡ some last) × (s ≤ last)

pub attempt-HasUsed :
    (now : ℕ) (matched : Option ℕ) (g : Guard) {s : ℕ}
    → HasUsed s g
    → HasUsed s (attempt now matched g).0
unfolding attempt
attempt-HasUsed now none g (last, e, below) = (last, ground arith, below)
attempt-HasUsed now (some step) g (last, e, below) =
    elim (Bool-cases (is_locked (to_i64 now) g.locked_until)) [
      | inl locked ↦ rw locked (last, e, below)
      | inr unlocked ↦ elim (Bool-cases (is_used (to_i64 step) g.last_step)) [
        | inl used ↦ rw (unlocked, used) (last, e, below)
        | inr unused ↦
            let later = rw e at unused in rw (unlocked, unused) (to_i64 step, refl, ground arith)
      ]
    ]

accepted_injective : {j k : ℕ} → accepted j ≡ accepted k → j ≡ k
accepted_injective e = cc

refused-not_accepted : {k : ℕ} → ¬ (refused ≡ accepted k)
refused-not_accepted e = cc

-- The machine accepts a matched step only, keeps it, and has used no step as late.
pub record IsAcceptance (matched : Option ℕ) (before after : Guard) (k : ℕ) : Type 0 where
  pub step : ℕ
  pub is_matched : matched ≡ some step
  pub is_step : to_i64 step ≡ k
  pub kept : after.last_step ≡ some k
  pub later : (last : ℕ) → before.last_step ≡ some last → last < k

pub attempt-accepted :
    (now : ℕ) (matched : Option ℕ) (g : Guard) {k : ℕ}
    → (attempt now matched g).1 ≡ accepted k
    → IsAcceptance matched g (attempt now matched g).0 k
unfolding attempt
attempt-accepted now none g h = absurd (ground arith)
attempt-accepted now (some step) g {k = k} h =
    elim (Bool-cases (is_locked (to_i64 now) g.locked_until)) [
      | inl locked ↦ absurd (refused-not_accepted (rw (locked, attempt) at h))
      | inr unlocked ↦ elim (Bool-cases (is_used (to_i64 step) g.last_step)) [
        | inl used ↦ absurd (refused-not_accepted (rw (unlocked, used, attempt) at h))
        | inr unused ↦
            let same : to_i64 step ≡ k = accepted_injective (rw (unlocked, unused, attempt) at h) in
            rw (unlocked, unused)
              (record {
                step = step;
                is_matched = refl;
                is_step = same;
                kept = ap some same;
                later = λ last e. let test = rw e at unused in ground arith;
              })
      ]
    ]

-- Which of the two an answer tells.
pub answer-accepted :
    (p : String) (r : Participant) (v : Verdict) {i : Identity}
    → answer p r v ≡ some i
    → (k : ℕ) × (v ≡ accepted k)
answer-accepted p r (accepted k) h = (k, refl)
answer-accepted p r refused h = cc

pub record Login : Type 0 where
  pub clock : ℕ
  pub participant_id : String
  pub value : String
  pub now : ℕ

module _ (hmac : HmacSha1) where
  abbrev pub login : Login → Database → Database × Result DbError (Option Identity)
  login l db = authenticate_web_totp hmac l.clock l.participant_id l.value l.now db

  -- Any logins, by any participants, one after the other.
  unfoldable pub log_in_all : List Login → Database → Database
  log_in_all [] db = db
  log_in_all (l ∷ ls) db = log_in_all ls (login l db).0

  -- A login that returns nothing did not reach a row, or it took a step on one.
  pub data LoginCases (l : Login) (db : Database) : Type 0 where
    idle : (login l db).0 ≡ db → (login l db).1 ≡ ok none → LoginCases l db
    tried :
        (r : Participant)
        → find (can_login l.participant_id) db.web_participants ≡ some r
        → IsAttempt l.participant_id r
            (attempt l.now
              (matching_totp_step hmac (or_empty r.totp_secret) l.value l.now)
              (guard_of r))
            db
            (login l db)
        → LoginCases l db

  pub login-cases : (l : Login) (db : Database) → LoginCases l db
  unfolding authenticate_web_totp in_tx
  login-cases l db = elim (Bool-cases (is_acceptable_id l.participant_id)) [
    | inr malformed ↦ LoginCases.idle (rw malformed refl) (rw malformed refl)
    | inl acceptable ↦ elim (Bool-cases (is_totp_code l.value)) [
      | inr malformed ↦
          LoginCases.idle (rw (acceptable, malformed) refl) (rw (acceptable, malformed) refl)
      | inl formed ↦ elim (Option-cases (find (can_login l.participant_id) db.web_participants)) [
        | inl nobody ↦
            LoginCases.idle (rw (acceptable, formed, nobody) refl)
              (rw (acceptable, formed, nobody) refl)
        | inr (r, here) ↦ LoginCases.tried r here (
            authenticate_web_totp-IsAttempt hmac l.clock l.participant_id l.value l.now r db here
              acceptable formed)
      ]
    ]
  ]
