-- ===== src/Examples/LoggingIn.antt =====
-- The theorems on logins and on participants, applied to a participant with a TOTP secret. The stand-in
-- for HMAC-SHA1 shows the step in the code.
use conversation_blackboard.Common.{
  ℕ, ◌<◌, String, ◌≡◌, refl, sym, ap, subst, true, some, none, [], ◌∷◌, ◌++◌, Memᴰ, arith,
}
use conversation_blackboard.Sql
use conversation_blackboard.Sql.{Result, ok, find}
use conversation_blackboard.Board.{Database, Participant, Identity}
use conversation_blackboard.Transaction
use conversation_blackboard.Text
use conversation_blackboard.Authorization.Delegated
use conversation_blackboard.WebAuth
use conversation_blackboard.WebAuth.{HmacSha1, matching_totp_step}
use conversation_blackboard.Identity
use conversation_blackboard.Identity.Totp
use conversation_blackboard.Identity.Totp.{to_i64, can_login, or_empty, authenticate_web_totp}
use conversation_blackboard.Identity.Guard.{attempt}
use conversation_blackboard.Identity.Login.{guard_of, IsAttempt, authenticate_web_totp-IsAttempt}
use conversation_blackboard.Identity.Logins
use conversation_blackboard.Identity.Logins.{Login, login, log_in_all}
use conversation_blackboard.Identity.Replay.{login-login_later}
use conversation_blackboard.Identity.Lockout.{IsWrong, HasFailed, log_in_all-locked}
use conversation_blackboard.Identity.Lifecycle.{
  IsInactive, set_web_participant_status-IsInactive, IsProvisioned,
  provision_web_participant_identity-IsProvisioned,
}
use conversation_blackboard.Examples.World.{alice_row, board}

pair_eq : {A B : Type 0} {p : A × B} {b : B} → p.1 ≡ b → p ≡ (p.0, b)
pair_eq {p = p} e = ap (λ x. (p.0, x)) e

abbrev step_mac : HmacSha1
step_mac = λ key message. message ++ 0 ∷ 0 ∷ 0 ∷ 4 ∷ []

abbrev secret : String
secret = "AAAAAAAAAAAAAAAA"

abbrev alice_login : Participant
alice_login = record alice_row { totp_secret = some secret }

abbrev door : Database
door = record board { web_participants = alice_login ∷ [] }

abbrev code_at : String → ℕ → Login
code_at value now = record { clock = now; participant_id = "alice"; value = value; now = now }

abbrev first_login : Login
first_login = code_at "000100" 3000

abbrev second_login : Login
second_login = code_at "000101" 3030

abbrev alice_identity : Identity
alice_identity = record { source = "agent"; instance_id = "alice"; label = none }

-- Codes match the step of their time; they log in once each, and the same code does not again.
login_runs :
    ((login step_mac first_login door).1 ≡ ok (some alice_identity))
    × ((login step_mac first_login (login step_mac first_login door).0).1 ≡ ok none)
    × ((login step_mac second_login
          (log_in_all step_mac (first_login ∷ []) (login step_mac first_login door).0)).1
        ≡ ok (some alice_identity))
    × (matching_totp_step step_mac secret "999999" 3000 ≡ none)
    × (Identity.is_acceptable_id "alice" ≡ true)
    × (WebAuth.is_totp_code "999999" ≡ true)
    × (find (can_login "alice") door.web_participants ≡ some alice_login)
unfolding Totp.authenticate_web_totp Totp.login_with_row Totp.accept_code Totp.refuse_code
    Totp.failures_after Transaction.in_tx Sql.find Sql.update_where Text.validate_participant_id
    Text.trim Text.trim_start Text.trim_end Text.is_whitespace Text.is_participant_id Text.any_char
    Delegated.is_some_and WebAuth.is_totp_code WebAuth.matching_totp_step WebAuth.base32_decode
    WebAuth.decode_chars WebAuth.base32_index WebAuth.first_matching WebAuth.candidate_steps
    WebAuth.totp_code_bytes WebAuth.truncate_digest WebAuth.zero_padded WebAuth.be_bytes
    Logins.log_in_all
login_runs = (refl, refl, refl, refl, refl, refl, refl)

authenticate_web_totp-IsAttempt_example :
    IsAttempt "alice" alice_login
      (attempt 3000 (matching_totp_step step_mac secret "999999" 3000) (guard_of alice_login))
      door
      (authenticate_web_totp step_mac 3000 "alice" "999999" 3000 door)
authenticate_web_totp-IsAttempt_example =
    authenticate_web_totp-IsAttempt step_mac 3000 "alice" "999999" 3000 alice_login door
      login_runs.6 login_runs.4 login_runs.5

login-login_later_example :
    (r : Participant) × (s : ℕ) × (t : ℕ) × (find (can_login "alice") door.web_participants
      ≡ some r)
    × (matching_totp_step step_mac (or_empty r.totp_secret) "000100" 3000 ≡ some s)
    × (matching_totp_step step_mac (or_empty r.totp_secret) "000101" 3030 ≡ some t)
    × (to_i64 s < to_i64 t)
login-login_later_example =
    login-login_later step_mac "alice" first_login second_login (first_login ∷ []) door refl refl
      login_runs.0 login_runs.2

abbrev guess : Login
guess = code_at "999999" 3000

guess-IsWrong : IsWrong step_mac "alice" (some secret) guess
guess-IsWrong = record {
  own = refl;
  acceptable = login_runs.4;
  formed = login_runs.5;
  unmatched = login_runs.3;
}

guesses-IsWrong :
    (w : Login)
    → Memᴰ w (guess ∷ guess ∷ guess ∷ guess ∷ [])
    → IsWrong step_mac "alice" (some secret) w
guesses-IsWrong w (Memᴰ.head e) =
    subst (IsWrong step_mac "alice" (some secret)) (sym e) guess-IsWrong
guesses-IsWrong w (Memᴰ.tail (Memᴰ.head e)) =
    subst (IsWrong step_mac "alice" (some secret)) (sym e) guess-IsWrong
guesses-IsWrong w (Memᴰ.tail (Memᴰ.tail (Memᴰ.head e))) =
    subst (IsWrong step_mac "alice" (some secret)) (sym e) guess-IsWrong
guesses-IsWrong w (Memᴰ.tail (Memᴰ.tail (Memᴰ.tail (Memᴰ.head e)))) =
    subst (IsWrong step_mac "alice" (some secret)) (sym e) guess-IsWrong
guesses-IsWrong w (Memᴰ.tail (Memᴰ.tail (Memᴰ.tail (Memᴰ.tail m)))) = elim m [ ]

door-HasFailed : HasFailed step_mac "alice" (some secret) 0 door
door-HasFailed = record {
  row = alice_login;
  found = login_runs.6;
  same_secret = refl;
  failures = refl;
  unlocked = refl;
}

abbrev locked_door : Database
locked_door =
    (login step_mac guess (log_in_all step_mac (guess ∷ guess ∷ guess ∷ guess ∷ []) door)).0

log_in_all-locked_example : login step_mac second_login locked_door ≡ (locked_door, ok none)
log_in_all-locked_example =
    log_in_all-locked step_mac "alice" (some secret) (guess ∷ guess ∷ guess ∷ guess ∷ []) guess
      second_login door door-HasFailed guesses-IsWrong guess-IsWrong refl refl (omega arith)

-- The statuses and the provisioning of participants succeed on the same board.
participant_runs :
    ((Identity.set_web_participant_status 50 "alice" "inactive" door).1 ≡ ok true)
    × ((Identity.provision_web_participant_identity 50 " carol " "agent/x" (some "  ") door).1
        ≡ ok (some (record { source = "agent/x"; instance_id = "carol"; label = none })))
unfolding Identity.set_web_participant_status Identity.update_participant
    Identity.provision_web_participant_identity Identity.provisioned Identity.get_web_participant
    Identity.validate_source Identity.is_source Identity.normalize_label Sql.find Sql.update_where
    Sql.count_rows Text.validate_participant_id Text.trim Text.trim_start Text.trim_end
    Text.is_whitespace Text.is_participant_id Text.any_char
participant_runs = (refl, refl)

set_web_participant_status-IsInactive_example :
    IsInactive step_mac "alice" (Identity.set_web_participant_status 50 "alice" "inactive" door).0
set_web_participant_status-IsInactive_example =
    set_web_participant_status-IsInactive 50 "alice" door step_mac (pair_eq participant_runs.0)

provision_web_participant_identity-IsProvisioned_example :
    IsProvisioned door
      (Identity.provision_web_participant_identity 50 " carol " "agent/x" (some "  ") door).0
      (record { source = "agent/x"; instance_id = "carol"; label = none })
provision_web_participant_identity-IsProvisioned_example =
    provision_web_participant_identity-IsProvisioned 50 " carol " "agent/x" (some "  ") door
      (pair_eq participant_runs.1)
