-- ===== src/Authorization/Effective.antt =====
-- `effective_grants` of authorization.rs: what a principal may do for a participant, as a list.
use conversation_blackboard.Common.{
  ℕ, String, Bool, not, ◌&&◌, Option, none, some, List, [], ◌∷◌, ◌++◌, map, if◌then◌else◌,
}
use conversation_blackboard.Common.Eq.{◌==◌, string_eq}
use conversation_blackboard.Sql.{
  Result, ok, err, DbError, invalid_query, select, exists_row, order_by, text_leb,
  optional_text_leb,
}
use conversation_blackboard.Board.{Principal, DurableGrant, Database}
use conversation_blackboard.Authorization.Capability.{
  known_capabilities, read_execution_audit_sweep, execution_audit_sweep_resource,
  read_authorization_policy_integrity, authorization_policy_integrity_resource,
  read_authorization_policy, authorization_policy_resource, read_authorization_decision,
  authorization_decision_resource, manage_authorization_policy, authorization_policy_admin_resource,
  read_authorization_administration_history, authorization_administration_history_resource,
}
use conversation_blackboard.Authorization.Schema.{effective_grants_schema_current}
use conversation_blackboard.Authorization.Implicit.{participant_policy_row}
use conversation_blackboard.Authorization.Evaluate.{evaluate_authorization_current_schema}

pub record EffectiveGrant : Type 0 where
  pub capability : String
  pub resource : Option String
  pub origin : String

-- WHERE principal_provider = ?1 AND principal_subject = ?2 AND participant_id = ?3 AND
-- status = 'active'
unfoldable pub is_held : Principal → String → DurableGrant → Bool
is_held principal participant_id g =
    g.principal_provider == principal.provider
    && g.principal_subject == principal.subject
    && g.participant_id == participant_id
    && g.status == "active"

-- By capability, then by resource: ORDER BY capability, resource, and `grants.sort_by(…)`
abbrev pub scope_before : String → Option String → String → Option String → Bool
scope_before c r d s = if c == d then optional_text_leb r s else text_leb c d

abbrev pub explicit_grant : DurableGrant → EffectiveGrant
explicit_grant g = record { capability = g.capability; resource = g.resource; origin = "explicit" }

unfoldable pub explicit_grants : Database → Principal → String → List EffectiveGrant
explicit_grants db principal participant_id = map explicit_grant (
    order_by (λ a b. scope_before a.capability a.resource b.capability b.resource)
      (select (is_held principal participant_id) db.principal_grants))

-- The resource that an implicit right is bound to.
unfoldable pub implicit_resource : String → Option String
implicit_resource capability =
    if capability == read_execution_audit_sweep
    then some execution_audit_sweep_resource
    else if capability == read_authorization_policy_integrity
    then some authorization_policy_integrity_resource
    else if capability == read_authorization_policy
    then some authorization_policy_resource
    else if capability == read_authorization_decision
    then some authorization_decision_resource
    else if capability == manage_authorization_policy
    then some authorization_policy_admin_resource
    else if capability == read_authorization_administration_history
    then some authorization_administration_history_resource
    else none

abbrev pub implicit_grant : String → EffectiveGrant
implicit_grant capability = record {
  capability = capability;
  resource = implicit_resource capability;
  origin = "implicit";
}

module _ (db : Database) (now : ℕ) (principal : Principal) (participant_id : String) where
  abbrev pub is_allowed : String → Option String → Bool
  is_allowed capability resource =
      (evaluate_authorization_current_schema db now principal participant_id capability resource
        none).allowed

  -- The loop over the known capabilities: those without an explicit grant that are allowed.
  unfoldable pub implicit_grants : List EffectiveGrant → List String → List EffectiveGrant
  implicit_grants explicit [] = []
  implicit_grants explicit (c ∷ rest) =
      let others = implicit_grants explicit rest in
      if exists_row (λ g. g.capability == c) explicit
      then others
      else if is_allowed c (implicit_resource c)
      then implicit_grant c ∷ others
      else others

  unfoldable pub listed_grants : List EffectiveGrant
  listed_grants =
      let explicit = explicit_grants db principal participant_id in
      order_by (λ a b. scope_before a.capability a.resource b.capability b.resource)
        (explicit ++ implicit_grants explicit known_capabilities)

  unfoldable pub effective_grants : Result DbError (List EffectiveGrant)
  effective_grants =
      if not (effective_grants_schema_current db)
      then err invalid_query
      else elim (participant_policy_row db participant_id) [
        | none ↦ ok []
        | some participant ↦
            if not (participant.status == "active") then ok [] else ok listed_grants
      ]
