-- ===== src/Authorization/Implicit.antt =====
-- The authority that a principal has without a grant: `participant_policy_row` and
-- `implicit_authority_reason` of authorization.rs.
use conversation_blackboard.Common.{
  String, Bool, true, false, ◌&&◌, ◌||◌, Option, none, some, if◌then◌else◌,
}
use conversation_blackboard.Common.Eq.{◌==◌, string_eq, option_eq}
use conversation_blackboard.Sql.{find}
use conversation_blackboard.Board.{Principal, Participant, Database}
use conversation_blackboard.Authorization.Capability.{
  read_messages, post_message, reply, read_execution_receipt, read_execution_audit,
  read_execution_audit_sweep, execution_audit_sweep_resource, read_authorization_policy_integrity,
  authorization_policy_integrity_resource, read_authorization_policy, authorization_policy_resource,
  read_authorization_decision, authorization_decision_resource, manage_authorization_policy,
  authorization_policy_admin_resource, read_authorization_administration_history,
  authorization_administration_history_resource, manage_channels,
}

unfoldable pub participant_policy_row : Database → String → Option Participant
participant_policy_row db participant_id =
    find (λ p. p.participant_id == participant_id) db.web_participants

-- `condition.then_some(value)`
abbrev pub then_some {ℓ} : {A : Type ℓ} → Bool → A → Option A
then_some true a = some a
then_some false a = none

unfoldable pub is_participation_capability : String → Bool
is_participation_capability capability =
    capability == read_messages
    || capability == post_message
    || capability == reply
    || capability == read_execution_receipt
    || capability == read_execution_audit

unfoldable pub is_self_authenticated : Principal → String → Bool
is_self_authenticated principal participant_id =
    (principal.provider == "participant-hmac" || principal.provider == "human-web")
    && principal.subject == participant_id

unfoldable pub is_github_owner : Principal → Participant → Bool
is_github_owner principal participant =
    principal.provider == "github"
    && participant.owner_provider == some "github"
    && participant.owner_subject == some principal.subject

unfoldable pub is_web_admin : Principal → Participant → Bool
is_web_admin principal participant =
    principal.provider == "human-web" && participant.role == "admin"

-- The branch `if self_authenticated { … }`.
unfoldable pub self_authority_reason :
    Principal → String → Option String → Participant → Option String
self_authority_reason principal capability resource participant =
    let admin = is_web_admin principal participant in
    if capability == read_authorization_policy
    then then_some (admin && resource == some authorization_policy_resource)
        "implicit_human_web_admin_authorization_policy"
    else if capability == read_authorization_policy_integrity
    then then_some (admin && resource == some authorization_policy_integrity_resource)
        "implicit_human_web_admin_authorization_policy_integrity"
    else if capability == read_authorization_decision
    then then_some (admin && resource == some authorization_decision_resource)
        "implicit_human_web_admin_authorization_decision"
    else if capability == manage_authorization_policy
    then then_some (admin && resource == some authorization_policy_admin_resource)
        "implicit_human_web_admin_authorization_administration"
    else if capability == read_authorization_administration_history
    then then_some (admin && resource == some authorization_administration_history_resource)
        "implicit_human_web_admin_authorization_administration_history"
    else if capability == read_execution_audit_sweep
    then then_some (admin && resource == some execution_audit_sweep_resource)
        "implicit_human_web_admin_audit_sweep"
    else if capability == manage_channels
    then then_some admin "implicit_human_web_admin"
    else if is_participation_capability capability
    then some (
        if principal.provider == "participant-hmac"
        then "implicit_participant_hmac"
        else "implicit_human_web")
    else none

unfoldable pub implicit_authority_reason :
    Principal → String → String → Option String → Participant → Option String
implicit_authority_reason principal participant_id capability resource participant =
    if is_self_authenticated principal participant_id
    then self_authority_reason principal capability resource participant
    else then_some (is_github_owner principal participant && is_participation_capability capability)
        "implicit_github_owner"
