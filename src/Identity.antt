-- ===== src/Identity.antt =====
-- src/identity.rs: the identities of participants, with their roles, states and credentials.
pub mod Totp
pub mod Guard
pub mod LoginRows
pub mod Login
pub mod Logins
pub mod Replay
pub mod Lockout
pub mod Lifecycle
use Prim.Native.Char.{Char, code}
use Prim.Native.String.{count}
use conversation_blackboard.Common.{
  ℕ, String, Bool, true, false, not, ◌&&◌, ◌||◌, Option, none, some, List, [], ◌∷◌, ◌++◌, leb, ltb,
  is_some, if◌then◌else◌,
}
use conversation_blackboard.Common.Eq.{◌==◌, string_eq, nat_eq, option_eq}
use conversation_blackboard.Sql.{
  Result, ok, err, DbError, invalid_query, ◌>>=◌, count_rows, find, update_where,
}
use conversation_blackboard.Board.{Identity, Participant, Database}
use conversation_blackboard.Text.{trim, is_empty, any_char, validate_participant_id}
use conversation_blackboard.WebAuth.{validate_totp_secret}

abbrev pub is_participant : String → Participant → Bool
is_participant participant_id r = r.participant_id == participant_id

abbrev pub identity_of : Participant → Identity
identity_of r = record { source = r.source; instance_id = r.participant_id; label = r.label }

-- `Option::map` over the row of a query
abbrev pub read_row {ℓ} : {A B : Type ℓ} → (A → B) → Option A → Option B
read_row f none = none
read_row f (some r) = some (f r)

unfoldable pub get_web_participant : Database → String → Option Identity
get_web_participant db participant_id =
    read_row identity_of (find (is_participant participant_id) db.web_participants)

abbrev pub is_acceptable_id : String → Bool
is_acceptable_id participant_id = is_some (validate_participant_id participant_id)

abbrev pub is_active : String → Participant → Bool
is_active participant_id r = r.participant_id == participant_id && r.status == "active"

unfoldable pub get_web_participant_role : Database → String → Option String
get_web_participant_role db participant_id =
    if not (is_acceptable_id participant_id)
    then none
    else read_row (λ r. r.role) (find (is_active participant_id) db.web_participants)

-- UPDATE web_participants SET … WHERE …; `changed == 1`
unfoldable pub update_participant :
    (Participant → Bool) → (Participant → Participant) → Database → Database × Bool
update_participant p f db = (
  record db { web_participants = update_where p f db.web_participants },
  count_rows p db.web_participants == 1,
)

-- A refused argument is an error, before the statement runs.
abbrev pub guarded : Bool → Database → Database × Bool → Database × Result DbError Bool
guarded false db out = (db, err invalid_query)
guarded true db out = (out.0, ok out.1)

unfoldable pub set_web_participant_role :
    ℕ → String → String → Database → Database × Result DbError Bool
set_web_participant_role now participant_id role db =
    guarded (is_acceptable_id participant_id && (role == "user" || role == "admin")) db (
      update_participant (is_participant participant_id)
        (λ r. record r { role = role; updated_at = now }) db)

unfoldable pub set_web_participant_status :
    ℕ → String → String → Database → Database × Result DbError Bool
set_web_participant_status now participant_id status db =
    guarded (is_acceptable_id participant_id && (status == "active" || status == "inactive")) db (
      update_participant (is_participant participant_id)
        (λ r. record r { status = status; updated_at = now }) db)

unfoldable pub set_web_participant_totp :
    ℕ → String → String → Database → Database × Result DbError Bool
set_web_participant_totp now participant_id secret db =
    guarded (is_acceptable_id participant_id && validate_totp_secret secret) db (
      update_participant (is_participant participant_id)
        (λ r. record r {
          totp_secret = some secret;
          totp_last_step = none;
          totp_fail_count = 0;
          totp_locked_until = none;
          updated_at = now;
        })
        db)

unfoldable pub revoke_web_participant_totp : ℕ → String → Database → Database × Result DbError Bool
revoke_web_participant_totp now participant_id db = guarded (is_acceptable_id participant_id) db (
    update_participant (λ r. r.participant_id == participant_id && is_some r.totp_secret)
      (λ r. record r {
        totp_secret = none;
        totp_last_step = none;
        totp_fail_count = 0;
        totp_locked_until = none;
        updated_at = now;
      })
      db)

-- participant_auth.rs: `AUTH_SCHEME`
abbrev pub auth_scheme_name : String
auth_scheme_name = "hmac-sha256-v1"

pub record ParticipantAuth : Type 0 where
  pub identity : Identity
  pub auth_scheme : String
  pub auth_secret : String

abbrev pub auth_of : Participant → String → String → ParticipantAuth
auth_of r scheme secret = record {
  identity = identity_of r;
  auth_scheme = scheme;
  auth_secret = secret;
}

-- WHERE participant_id = ?1 AND status = 'active' AND auth_scheme = ?2 AND auth_secret IS NOT NULL
abbrev pub can_sign : String → Participant → Bool
can_sign participant_id r =
    r.participant_id == participant_id
    && r.status == "active"
    && r.auth_scheme == some auth_scheme_name
    && is_some r.auth_secret

unfoldable pub get_web_participant_auth : Database → String → Option ParticipantAuth
get_web_participant_auth db participant_id =
    if not (is_acceptable_id participant_id)
    then none
    else elim (find (can_sign participant_id) db.web_participants) [
      | none ↦ none
      | some r ↦ read_row (auth_of r auth_scheme_name) r.auth_secret
    ]

-- `participant_auth::validate_secret` decodes base64 text; the section's parameter stands for it.
unfoldable pub set_web_participant_auth_secret :
    (String → Bool) → ℕ → String → String → Database → Database × Result DbError Bool
set_web_participant_auth_secret validate_secret now participant_id secret db =
    guarded (is_acceptable_id participant_id && validate_secret secret) db (
      update_participant (is_participant participant_id)
        (λ r. record r {
          auth_secret = some secret;
          auth_scheme = some auth_scheme_name;
          updated_at = now;
        })
        db)

unfoldable pub revoke_web_participant_auth : ℕ → String → Database → Database × Result DbError Bool
revoke_web_participant_auth now participant_id db = guarded (is_acceptable_id participant_id) db (
    update_participant (λ r. r.participant_id == participant_id && is_some r.auth_secret)
      (λ r. record r { auth_secret = none; auth_scheme = none; updated_at = now }) db)

abbrev is_source_char : Char → Bool
is_source_char c =
    let n = code c in
    leb 65 n && leb n 90
    || leb 97 n && leb n 122
    || leb 48 n && leb n 57
    || n == 46
    || n == 95
    || n == 58
    || n == 47
    || n == 45

abbrev is_alphanumeric : Char → Bool
is_alphanumeric c =
    let n = code c in leb 65 n && leb n 90 || leb 97 n && leb n 122 || leb 48 n && leb n 57

-- ^[A-Za-z0-9][A-Za-z0-9._:/-]{0,127}$
unfoldable pub is_source : String → Bool
is_source String.[] = false
is_source (String.◌∷◌ c s) =
    is_alphanumeric c && not (any_char (λ d. not (is_source_char d)) s) && leb (count s) 127

unfoldable pub validate_source : String → Option String
validate_source value = let trimmed = trim value in if is_source trimmed then some trimmed else none

-- The error is a message only.
unfoldable pub normalize_label : Option String → Result DbError (Option String)
normalize_label none = ok none
normalize_label (some value) =
    let trimmed = trim value in
    if is_empty trimmed
    then ok none
    else if ltb 256 (count trimmed)
    then err invalid_query
    else ok (some trimmed)

abbrev or_invalid : {A : Type 0} → Option A → Result DbError A
or_invalid none = err invalid_query
or_invalid (some a) = ok a

-- The defaults of the other columns are those of schema.sql.
abbrev pub new_participant : ℕ → String → String → Option String → Participant
new_participant now participant_id source label = record {
  participant_id = participant_id;
  source = source;
  label = label;
  role = "user";
  status = "active";
  auth_scheme = none;
  auth_secret = none;
  totp_secret = none;
  totp_last_step = none;
  totp_fail_count = 0;
  totp_locked_until = none;
  owner_provider = none;
  owner_subject = none;
  owner_login = none;
  updated_at = now;
}

-- What is inserted, if anything.
unfoldable pub provisioned :
    ℕ → String → String → Option String → Database → Result DbError (Option Participant)
provisioned now participant_id source label db = do
  id ← or_invalid (validate_participant_id participant_id)
  name ← or_invalid (validate_source source)
  title ← normalize_label label
  ok (
      if is_some (get_web_participant db id)
      then none
      else some (new_participant now id name title))

unfoldable pub provision_web_participant_identity :
    ℕ → String → String → Option String → Database → Database × Result DbError (Option Identity)
provision_web_participant_identity now participant_id source label db =
    elim (provisioned now participant_id source label db) [
      | err e ↦ (db, err e)
      | ok none ↦ (db, ok none)
      | ok (some r) ↦ (
        record db { web_participants = db.web_participants ++ r ∷ [] },
        ok (some (identity_of r)),
      )
    ]
