-- ===== src/Execution/Audit/Ingress.antt =====
-- The last stage of `verify_execution_audit_integrity`, the ingress rows of an intent, and the whole
-- audit.
use conversation_blackboard.Common.{
  ℕ, suc, String, Bool, true, false, not, ◌&&◌, ◌||◌, none, some, List, [], ◌∷◌, leb, if◌then◌else◌,
}
use conversation_blackboard.Common.Eq.{◌==◌, string_eq, nat_eq}
use conversation_blackboard.Sql.{select, find, exists_row, order_by, text_leb}
use conversation_blackboard.Board.{IngressRow, Database}
use conversation_blackboard.Text.{is_empty}
use conversation_blackboard.Messages.{has_message_id}
use conversation_blackboard.Execution.Types.{ExecutionReceipt}
use conversation_blackboard.Execution.Record.{get_execution_receipt, get_authorization_provenance}
use conversation_blackboard.Execution.Execute.{RequestHash}
use conversation_blackboard.Execution.Audit.{
  ExecutionAuditIntegrityReport, Audit, check, violate, is_blank, audit_receipt, effect_channel,
  audit_effect, audit_navigation, audit_authorization, audit_delegation,
}

-- ORDER BY created_at, delivery_id
abbrev pub delivery_before : IngressRow → IngressRow → Bool
delivery_before a b =
    if a.created_at == b.created_at
    then text_leb a.delivery_id b.delivery_id
    else leb a.created_at b.created_at

-- The flags and the count of the loop over the rows, with the lists that it may push to.
pub record IngressScan : Type 0 where
  pub audit : Audit
  pub metadata_invalid : Bool
  pub participant_unbound : Bool
  pub target_count : ℕ

unfoldable pub has_blank_metadata : IngressRow → Bool
has_blank_metadata r =
    is_blank r.delivery_id
    || is_blank r.transport
    || is_blank r.external_ref
    || is_blank r.principal_provider
    || is_blank r.principal_subject

-- A row that is bound to the participant.
unfoldable pub scan_target : String → String → String → IngressRow → IngressScan → IngressScan
scan_target participant_id intent_id bound r s =
    let agrees = r.intent_id == intent_id && bound == participant_id in
    record {
      audit = if agrees then s.audit else violate "ingress_binding_mismatch" s.audit;
      metadata_invalid = s.metadata_invalid || has_blank_metadata r;
      participant_unbound = s.participant_unbound;
      target_count = suc s.target_count;
    }

unfoldable pub scan_row : String → String → IngressRow → IngressScan → IngressScan
scan_row participant_id intent_id r s = elim r.participant_id [
  | none ↦ record s { participant_unbound = true }
  | some bound ↦
      if is_empty bound
      then record s { participant_unbound = true }
      else if bound == participant_id
      then scan_target participant_id intent_id bound r s
      else s
]

unfoldable pub scan_ingress : String → String → List IngressRow → IngressScan → IngressScan
scan_ingress participant_id intent_id [] s = s
scan_ingress participant_id intent_id (r ∷ rest) s =
    scan_ingress participant_id intent_id rest (scan_row participant_id intent_id r s)

-- What the loop leaves is judged.
unfoldable pub conclude_ingress : IngressScan → Audit
conclude_ingress s =
    let a1 =
      if s.participant_unbound then violate "ingress_participant_unbound" s.audit else s.audit in
    let a2 =
      if s.target_count == 0
      then violate "ingress_missing" a1
      else if not (exists_row (λ v. v == "ingress_binding_mismatch") a1.violations)
      then check "ingress_binding_valid" a1
      else a1 in
    if s.metadata_invalid
    then violate "ingress_metadata_invalid" a2
    else if not (s.target_count == 0)
    then check "ingress_metadata_valid" a2
    else a2

unfoldable pub ingress_rows : Database → String → List IngressRow
ingress_rows db intent_id =
    order_by delivery_before (select (λ r. r.intent_id == intent_id) db.ingress_provenance)

unfoldable pub audit_ingress : Database → String → String → Audit → Audit
audit_ingress db participant_id intent_id a = conclude_ingress (
    scan_ingress participant_id intent_id (ingress_rows db intent_id) (record {
      audit = a;
      metadata_invalid = false;
      participant_unbound = false;
      target_count = 0;
    }))

-- `violations.is_empty()`
abbrev pub is_unblemished : List String → Bool
is_unblemished [] = true
is_unblemished (v ∷ violations) = false

unfoldable pub report_of : String → String → Audit → ExecutionAuditIntegrityReport
report_of participant_id intent_id a =
    let valid = is_unblemished a.violations in
    let concluded = if valid then check "valid_committed_audit" a else a in
    record {
      participant_id = participant_id;
      intent_id = intent_id;
      valid = valid;
      checks = concluded.checks;
      violations = concluded.violations;
    }

abbrev pub unstarted : Audit
unstarted = record { checks = []; violations = [] }

module _ (message_request_hash : RequestHash) (db : Database)
    (participant_id intent_id : String) where
  -- The stages that follow once there is a receipt.
  unfoldable pub audit_of_receipt : ExecutionReceipt → Audit
  audit_of_receipt receipt =
      let message = find (has_message_id receipt.message_id) db.messages in
      audit_ingress db participant_id intent_id (
        audit_delegation db receipt (get_authorization_provenance db participant_id intent_id) (
          audit_authorization db participant_id intent_id receipt (effect_channel message) (
            audit_navigation db participant_id intent_id receipt (
              audit_effect message_request_hash participant_id receipt message (
                audit_receipt participant_id intent_id receipt
                  (check "receipt_present" unstarted))))))

  unfoldable pub verify_execution_audit_integrity : ExecutionAuditIntegrityReport
  verify_execution_audit_integrity = elim (get_execution_receipt db participant_id intent_id) [
    | none ↦ record {
      participant_id = participant_id;
      intent_id = intent_id;
      valid = false;
      checks = [];
      violations = "receipt_missing" ∷ [];
    }
    | some receipt ↦ report_of participant_id intent_id (audit_of_receipt receipt)
  ]
