-- ===== src/Execution/Audit.antt =====
-- `verify_execution_audit_integrity` of execution.rs, stage by stage: what each stage pushes onto the
-- lists of checks and of violations. `message_request_hash` is a parameter, as for executions.
pub mod Ingress
pub mod Conditions
pub mod Stages
pub mod Authority
pub mod Scan
pub mod Navigation
pub mod Presence
pub mod Valid
pub mod Added
pub mod Delivered
pub mod Consumed
pub mod Executed
pub mod Sweep
pub mod Swept
use conversation_blackboard.Common.{
  ℕ, String, Bool, true, false, not, ◌&&◌, ◌||◌, Option, none, some, List, [], ◌∷◌, ◌++◌, leb,
  is_some, if◌then◌else◌,
}
use conversation_blackboard.Common.Eq.{◌==◌, string_eq, nat_eq, option_eq}
use conversation_blackboard.Sql.{select, count_rows, first, find, order_by}
use conversation_blackboard.Board.{
  Principal, Message, DelegatedGrant, NavigationWrite, Database, table_exists,
}
use conversation_blackboard.Text.{trim, is_empty}
use conversation_blackboard.Messages.{has_message_id, is_reservation}
use conversation_blackboard.Authorization.Delegated.{holds_first}
use conversation_blackboard.Execution.Types.{ExecutionReceipt}
use conversation_blackboard.Execution.Record.{
  is_provenance_of, AuthorizationProvenance, get_execution_receipt, get_authorization_provenance,
}
use conversation_blackboard.Execution.Execute.{RequestHash}

pub record ExecutionAuditIntegrityReport : Type 0 where
  pub participant_id : String
  pub intent_id : String
  pub valid : Bool
  pub checks : List String
  pub violations : List String

-- The two lists that the audit grows.
pub record Audit : Type 0 where
  pub checks : List String
  pub violations : List String

-- `checks.push(…)` and `violations.push(…)`
abbrev pub check : String → Audit → Audit
check c a = record a { checks = a.checks ++ c ∷ [] }

abbrev pub violate : String → Audit → Audit
violate v a = record a { violations = a.violations ++ v ∷ [] }

-- One of the two is pushed.
unfoldable pub judge : Bool → String → String → Audit → Audit
judge true c v a = check c a
judge false c v a = violate v a

-- `value.trim().is_empty()`
unfoldable pub is_blank : String → Bool
is_blank value = is_empty (trim value)

unfoldable pub audit_receipt : String → String → ExecutionReceipt → Audit → Audit
audit_receipt participant_id intent_id receipt a =
    let bound = receipt.participant_id == participant_id && receipt.intent_id == intent_id in
    judge (receipt.status == "committed") "receipt_status_committed" "invalid_receipt_status"
      (if bound then a else violate "receipt_binding_mismatch" a)

-- The channel of the message that is there: `expected_authorization_resource`.
abbrev pub effect_channel : Option Message → Option String
effect_channel none = none
effect_channel (some m) = some m.channel

unfoldable pub audit_effect :
    RequestHash → String → ExecutionReceipt → Option Message → Audit → Audit
audit_effect hash participant_id receipt none a = violate "message_effect_missing" a
audit_effect hash participant_id receipt (some m) a =
    judge (receipt.intent_hash == hash m.channel m.kind m.body m.conversation_ref m.reply_to)
      "intent_hash_matches_effect" "intent_hash_mismatch"
      (judge (m.instance_id == participant_id) "message_effect_binding_valid"
        "message_effect_binding_mismatch" (check "message_effect_present" a))

-- ORDER BY CASE WHEN nonce = ?1 THEN 0 ELSE 1 END, created_at
abbrev pub navigation_before : String → NavigationWrite → NavigationWrite → Bool
navigation_before intent_id a b =
    holds_first (a.nonce == intent_id) (b.nonce == intent_id) (leb a.created_at b.created_at)

-- The reservation under the intent, or else one with its nonce or its message.
unfoldable pub navigation_of :
    Database → String → String → ExecutionReceipt → Option NavigationWrite
navigation_of db participant_id intent_id receipt =
    elim (find (is_reservation participant_id intent_id) db.navigation_writes) [
      | some n ↦ some n
      | none ↦ first (
          order_by (navigation_before intent_id) (
            select (λ n. n.nonce == intent_id || n.message_id == receipt.message_id)
              db.navigation_writes))
    ]

unfoldable pub audit_reservation : ExecutionReceipt → Option NavigationWrite → Audit → Audit
audit_reservation receipt none a = violate "navigation_reservation_missing" a
audit_reservation receipt (some n) a =
    judge (n.request_hash == receipt.intent_hash) "navigation_hash_matches_receipt"
      "navigation_hash_mismatch"
      (judge
        (n.instance_id == receipt.participant_id
          && n.nonce == receipt.intent_id
          && n.message_id == receipt.message_id)
        "navigation_binding_valid" "navigation_binding_mismatch"
        (check "navigation_reservation_present" a))

unfoldable pub audit_navigation : Database → String → String → ExecutionReceipt → Audit → Audit
audit_navigation db participant_id intent_id receipt a =
    if not (table_exists db "navigation_writes")
    then violate "navigation_reservation_missing" a
    else audit_reservation receipt (navigation_of db participant_id intent_id receipt) a

unfoldable pub audit_principal : Option Principal → Audit → Audit
audit_principal none a = violate "authorization_principal_unbound" a
audit_principal (some principal) a =
    judge (not (is_blank principal.provider) && not (is_blank principal.subject))
      "authorization_principal_bound" "authorization_metadata_invalid" a

unfoldable pub audit_capability : ExecutionReceipt → Option String → Audit → Audit
audit_capability receipt none a = violate "authorization_scope_unbound" a
audit_capability receipt (some capability) a =
    judge (capability == receipt.capability) "authorization_capability_matches_receipt"
      "authorization_capability_mismatch" a

unfoldable pub audit_resource : Option String → Option String → Audit → Audit
audit_resource expected none a = violate "authorization_scope_unbound" a
audit_resource expected (some resource) a =
    if is_blank resource
    then violate "authorization_metadata_invalid" a
    else judge (expected == some resource) "authorization_resource_matches_effect"
        "authorization_resource_mismatch" a

unfoldable pub audit_provenance :
    String
    → String
    → ExecutionReceipt
    → Option String
    → Option AuthorizationProvenance
    → Audit
    → Audit
audit_provenance participant_id intent_id receipt expected none a = a
audit_provenance participant_id intent_id receipt expected (some auth) a =
    let bound = auth.participant_id == participant_id && auth.intent_id == intent_id in
    audit_resource expected auth.resource (
      audit_capability receipt auth.capability (
        audit_principal auth.principal
          (if bound then a else violate "authorization_binding_mismatch" a)))

unfoldable pub audit_authorization :
    Database → String → String → ExecutionReceipt → Option String → Audit → Audit
audit_authorization db participant_id intent_id receipt expected a =
    let count =
      count_rows (is_provenance_of participant_id intent_id)
        db.execution_authorization_provenance in
    if count == 0
    then violate "authorization_provenance_missing" a
    else if count == 1
    then audit_provenance participant_id intent_id receipt expected
        (get_authorization_provenance db participant_id intent_id)
        (check "authorization_provenance_present" a)
    else violate "authorization_provenance_duplicate" a

unfoldable pub audit_consumption : ExecutionReceipt → DelegatedGrant → Audit → Audit
audit_consumption receipt g a =
    if not g.one_shot
    then check "delegated_grant_non_one_shot" a
    else if not (is_some g.consumed_at)
    then violate "delegated_one_shot_consumption_missing" a
    else judge (g.consumed_intent_id == some receipt.intent_id)
        "delegated_one_shot_consumption_valid" "delegated_one_shot_consumption_mismatch" a

unfoldable pub audit_grant : ExecutionReceipt → Option DelegatedGrant → Audit → Audit
audit_grant receipt none a = violate "delegated_grant_missing" a
audit_grant receipt (some g) a = audit_consumption receipt g (
    judge (g.participant_id == receipt.participant_id && g.capability == receipt.capability)
      "delegated_grant_binding_valid" "delegated_grant_binding_mismatch"
      (check "delegated_grant_present" a))

-- The grant that the provenance names.
unfoldable pub audit_reference : Database → ExecutionReceipt → Option ℕ → Audit → Audit
audit_reference db receipt none a = violate "delegated_grant_reference_missing" a
audit_reference db receipt (some grant_id) a =
    if not (table_exists db "delegated_grants")
    then violate "delegated_grant_missing" a
    else audit_grant receipt (find (λ g. g.id == grant_id) db.delegated_grants) a

unfoldable pub audit_delegation :
    Database → ExecutionReceipt → Option AuthorizationProvenance → Audit → Audit
audit_delegation db receipt none a = a
audit_delegation db receipt (some auth) a =
    if auth.source == "delegated_grants" then audit_reference db receipt auth.grant_id a else a
