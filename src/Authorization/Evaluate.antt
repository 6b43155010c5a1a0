-- ===== src/Authorization/Evaluate.antt =====
-- `evaluate_authorization_current_schema` of authorization.rs and the entry points around it. Each
-- takes the reading of `unixepoch()` that it makes.
use conversation_blackboard.Common.{
  ℕ, String, Bool, ◌&&◌, ◌||◌, Option, none, some, ltb, leb, is_some, if◌then◌else◌,
}
use conversation_blackboard.Common.Eq.{◌==◌, string_eq, option_eq}
use conversation_blackboard.Sql.{
  Result, ok, err, DbError, invalid_query, select, count_rows, first, order_by, sql_eq,
}
use conversation_blackboard.Board.{Principal, DurableGrant, Participant, Database}
use conversation_blackboard.Authorization.Capability.{AuthorizationDecision, allow, deny}
use conversation_blackboard.Authorization.Schema.{
  ensure_grant_schema, authorization_decision_schema_current, effective_grants_schema_current,
}
use conversation_blackboard.Authorization.Implicit.{
  participant_policy_row, implicit_authority_reason,
}
use conversation_blackboard.Authorization.Delegated.{
  holds_first, delegated_candidates, scan_candidates,
}

unfoldable pub durable_in_scope : Principal → String → String → DurableGrant → Bool
durable_in_scope principal participant_id capability g =
    g.principal_provider == principal.provider
    && g.principal_subject == principal.subject
    && g.participant_id == participant_id
    && g.capability == capability
    && g.status == "active"

-- AND (resource IS NULL OR resource = ?5)
unfoldable pub durable_covers : Option String → DurableGrant → Bool
durable_covers resource g = g.resource == none || sql_eq g.resource resource

-- ORDER BY (resource IS NOT NULL) DESC, id ASC
unfoldable pub durable_before : DurableGrant → DurableGrant → Bool
durable_before a b = holds_first (is_some a.resource) (is_some b.resource) (leb a.id b.id)

unfoldable pub explicit_count : Database → Principal → String → String → ℕ
explicit_count db principal participant_id capability =
    count_rows (durable_in_scope principal participant_id capability) db.principal_grants

unfoldable pub explicit_match :
    Database → Principal → String → String → Option String → Option DurableGrant
explicit_match db principal participant_id capability resource = first (
    order_by durable_before (
      select
        (λ g. durable_in_scope principal participant_id capability g && durable_covers resource g)
        db.principal_grants))

-- From `if let Some(intent_id) = intent_id` to the end.
unfoldable pub delegated_or_denied :
    Database
    → ℕ
    → Principal
    → String
    → String
    → Option String
    → Option String
    → AuthorizationDecision
delegated_or_denied db now principal participant_id capability resource intent_id =
    let denied : AuthorizationDecision =
      if ltb 0 (explicit_count db principal participant_id capability)
      then deny "principal_grants" "explicit_resource_scope_mismatch" none
      else deny "policy" "no_matching_authority" none in
    elim intent_id [
      | none ↦ denied
      | some intent ↦
          elim (scan_candidates db now participant_id resource intent
            (delegated_candidates db principal participant_id capability) none) [
              | some decision ↦ decision
              | none ↦ denied
            ]
    ]

-- What an active participant's row leads to.
unfoldable pub evaluate_active :
    Database
    → ℕ
    → Principal
    → String
    → String
    → Option String
    → Option String
    → Participant
    → AuthorizationDecision
evaluate_active db now principal participant_id capability resource intent_id participant =
    let otherwise =
      delegated_or_denied db now principal participant_id capability resource intent_id in
    if ltb 0 (explicit_count db principal participant_id capability)
    then elim (explicit_match db principal participant_id capability resource) [
      | some g ↦ allow "principal_grants" "explicit_durable_grant_match" (some g.id) none
      | none ↦ otherwise
    ]
    else elim (implicit_authority_reason principal participant_id capability resource participant) [
      | some reason ↦ allow "implicit_authority" reason none none
      | none ↦ otherwise
    ]

unfoldable pub evaluate_authorization_current_schema :
    Database
    → ℕ
    → Principal
    → String
    → String
    → Option String
    → Option String
    → AuthorizationDecision
evaluate_authorization_current_schema db now principal participant_id capability resource
      intent_id =
    elim (participant_policy_row db participant_id) [
      | none ↦ deny "participant_lifecycle" "participant_missing" none
      | some participant ↦
          if participant.status == "active"
          then evaluate_active db now principal participant_id capability resource intent_id
              participant
          else deny "participant_lifecycle" "participant_inactive" none
    ]

-- The tables may be created on the way, so the database comes back too.
unfoldable pub evaluate_authorization :
    Database
    → ℕ
    → Principal
    → String
    → String
    → Option String
    → Option String
    → Database × AuthorizationDecision
evaluate_authorization db now principal participant_id capability resource intent_id =
    let current = ensure_grant_schema db in
    (
      current,
      evaluate_authorization_current_schema current now principal participant_id capability resource
          intent_id,
    )

unfoldable pub explain_authorization :
    Database
    → ℕ
    → Principal
    → String
    → String
    → Option String
    → Option String
    → Result DbError AuthorizationDecision
explain_authorization db now principal participant_id capability resource intent_id =
    if authorization_decision_schema_current db
    then ok (
        evaluate_authorization_current_schema db now principal participant_id capability resource
          intent_id)
    else err invalid_query

unfoldable pub evaluate_read_authorization :
    Database
    → ℕ
    → Principal
    → String
    → String
    → Option String
    → Result DbError AuthorizationDecision
evaluate_read_authorization db now principal participant_id capability resource =
    if effective_grants_schema_current db
    then ok (
        evaluate_authorization_current_schema db now principal participant_id capability resource
          none)
    else err invalid_query

unfoldable pub authorize :
    Database → ℕ → Principal → String → String → Option String → Database × Bool
unfolding evaluate_authorization
authorize db now principal participant_id capability resource =
    let (current, decision) =
      evaluate_authorization db now principal participant_id capability resource none in
    (current, decision.allowed)
