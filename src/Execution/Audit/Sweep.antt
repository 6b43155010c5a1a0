-- ===== src/Execution/Audit/Sweep.antt =====
-- `sweep_execution_audit_integrity` of execution.rs: the audit of every receipt, and the evidence that
-- belongs to none.
use Prim.Native.String.{◌++◌ as text_append}
use conversation_blackboard.Common.{
  ℕ, String, Bool, true, false, not, ◌&&◌, Option, none, some, List, [], ◌∷◌, ◌++◌, map, length,
  if◌then◌else◌,
}
use conversation_blackboard.Common.Eq.{◌==◌, string_eq, option_eq}
use conversation_blackboard.Sql.{select, exists_row, order_by, text_leb, optional_text_leb}
use conversation_blackboard.Board.{IngressRow, ReceiptRow, ProvenanceRow, NavigationWrite, Database}
use conversation_blackboard.Text.Decimal.{to_string}
use conversation_blackboard.Execution.Record.{is_receipt_of}
use conversation_blackboard.Execution.Execute.{RequestHash}
use conversation_blackboard.Execution.Audit.{ExecutionAuditIntegrityReport, is_blank}
use conversation_blackboard.Execution.Audit.Ingress.{verify_execution_audit_integrity}

pub record ExecutionAuditOrphanEvidence : Type 0 where
  pub kind : String
  pub participant_id : Option String
  pub intent_id : String
  pub reference : Option String

pub record ExecutionAuditSweepReport : Type 0 where
  pub valid : Bool
  pub executions_scanned : ℕ
  pub invalid_executions : List ExecutionAuditIntegrityReport
  pub orphan_evidence : List ExecutionAuditOrphanEvidence

-- Two text columns of an ORDER BY.
abbrev pair_before : String → String → String → String → Bool
pair_before a b c d = if a == c then text_leb b d else text_leb a c

-- EXISTS (SELECT 1 FROM execution_receipts AS r WHERE …)
unfoldable pub has_receipt : Database → String → String → Bool
has_receipt db participant_id intent_id =
    exists_row (is_receipt_of participant_id intent_id) db.execution_receipts

abbrev pub receipt_before : ReceiptRow → ReceiptRow → Bool
receipt_before a b = pair_before a.participant_id a.intent_id b.participant_id b.intent_id

unfoldable pub swept_receipts : Database → List ReceiptRow
swept_receipts db = order_by receipt_before db.execution_receipts

-- The reports of the executions that are not valid.
unfoldable pub invalid_reports :
    RequestHash → Database → List ReceiptRow → List ExecutionAuditIntegrityReport
invalid_reports hash db [] = []
invalid_reports hash db (r ∷ rest) =
    let others = invalid_reports hash db rest in
    let report = verify_execution_audit_integrity hash db r.participant_id r.intent_id in
    if not report.valid then report ∷ others else others

abbrev grant_reference : Option ℕ → Option String
grant_reference none = none
grant_reference (some id) = some (text_append "grant_id=" (to_string id))

abbrev provenance_orphan : ProvenanceRow → ExecutionAuditOrphanEvidence
provenance_orphan a = record {
  kind = "orphan_authorization_provenance";
  participant_id = some a.participant_id;
  intent_id = a.intent_id;
  reference = grant_reference a.grant_id;
}

unfoldable pub provenance_orphans : Database → List ExecutionAuditOrphanEvidence
provenance_orphans db = map provenance_orphan (
    order_by (λ a b. pair_before a.participant_id a.intent_id b.participant_id b.intent_id)
      (select (λ a. not (has_receipt db a.participant_id a.intent_id))
        db.execution_authorization_provenance))

abbrev unbound_ingress : IngressRow → ExecutionAuditOrphanEvidence
unbound_ingress i = record {
  kind = "unbound_legacy_ingress";
  participant_id = none;
  intent_id = i.intent_id;
  reference = some i.delivery_id;
}

abbrev orphan_ingress : String → IngressRow → ExecutionAuditOrphanEvidence
orphan_ingress participant_id i = record {
  kind = "orphan_ingress_provenance";
  participant_id = some participant_id;
  intent_id = i.intent_id;
  reference = some i.delivery_id;
}

-- What one row of the LEFT JOIN pushes; the key of receipts lets it match one row at most.
unfoldable pub ingress_orphan : Database → IngressRow → List ExecutionAuditOrphanEvidence
ingress_orphan db i = elim i.participant_id [
  | none ↦ unbound_ingress i ∷ []
  | some participant_id ↦
      if is_blank participant_id
      then unbound_ingress i ∷ []
      else if not (has_receipt db participant_id i.intent_id)
      then orphan_ingress participant_id i ∷ []
      else []
]

unfoldable pub ingress_orphans_of : Database → List IngressRow → List ExecutionAuditOrphanEvidence
ingress_orphans_of db [] = []
ingress_orphans_of db (i ∷ rest) = ingress_orphan db i ++ ingress_orphans_of db rest

abbrev pub delivery_before : IngressRow → IngressRow → Bool
delivery_before a b = pair_before a.intent_id a.delivery_id b.intent_id b.delivery_id

unfoldable pub ingress_orphans : Database → List ExecutionAuditOrphanEvidence
ingress_orphans db = ingress_orphans_of db (order_by delivery_before db.ingress_provenance)

abbrev navigation_orphan : NavigationWrite → ExecutionAuditOrphanEvidence
navigation_orphan n = record {
  kind = "orphan_navigation_reservation";
  participant_id = some n.instance_id;
  intent_id = n.nonce;
  reference = some (text_append "message_id=" (to_string n.message_id));
}

unfoldable pub navigation_orphans : Database → List ExecutionAuditOrphanEvidence
navigation_orphans db = map navigation_orphan (
    order_by (λ a b. pair_before a.instance_id a.nonce b.instance_id b.nonce)
      (select (λ n. not (has_receipt db n.instance_id n.nonce)) db.navigation_writes))

-- `orphan_evidence.sort_by(…)`: by kind, participant, intent and reference
abbrev pub orphan_before : ExecutionAuditOrphanEvidence → ExecutionAuditOrphanEvidence → Bool
orphan_before a b =
    if not (a.kind == b.kind)
    then text_leb a.kind b.kind
    else if not (a.participant_id == b.participant_id)
    then optional_text_leb a.participant_id b.participant_id
    else if not (a.intent_id == b.intent_id)
    then text_leb a.intent_id b.intent_id
    else optional_text_leb a.reference b.reference

unfoldable pub orphans : Database → List ExecutionAuditOrphanEvidence
orphans db =
    order_by orphan_before ((provenance_orphans db ++ ingress_orphans db) ++ navigation_orphans db)

-- `is_empty()`
abbrev pub is_nil {ℓ} : {A : Type ℓ} → List A → Bool
is_nil [] = true
is_nil (x ∷ xs) = false

unfoldable pub sweep_execution_audit_integrity : RequestHash → Database → ExecutionAuditSweepReport
sweep_execution_audit_integrity hash db =
    let receipts = swept_receipts db in
    let invalid = invalid_reports hash db receipts in
    record {
      valid = is_nil invalid && is_nil (orphans db);
      executions_scanned = length receipts;
      invalid_executions = invalid;
      orphan_evidence = orphans db;
    }
