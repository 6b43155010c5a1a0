-- ===== src/Execution/Record.antt =====
-- The evidence of an execution: `record_execution_in_tx`, `record_authorization_provenance_in_tx`
-- and the reads of receipts and provenance.
use conversation_blackboard.Common.{
  ℕ, String, Bool, not, ◌&&◌, Option, none, some, [], ◌∷◌, ◌++◌, if◌then◌else◌,
}
use conversation_blackboard.Common.Eq.{◌==◌, string_eq, nat_eq, option_eq}
use conversation_blackboard.Sql.{
  Result, ok, err, DbError, invalid_query, constraint, ◌>>=◌, find, exists_row,
}
use conversation_blackboard.Board.{Principal, IngressRow, ReceiptRow, ProvenanceRow, Database}
use conversation_blackboard.Authorization.Capability.{AuthorizationDecision}
use conversation_blackboard.Execution.Types.{IngressProvenance, ExecutionReceipt}

abbrev pub is_delivery : String → IngressRow → Bool
is_delivery delivery_id r = r.delivery_id == delivery_id

abbrev pub is_receipt_of : String → String → ReceiptRow → Bool
is_receipt_of participant_id intent_id r =
    r.participant_id == participant_id && r.intent_id == intent_id

abbrev pub is_provenance_of : String → String → ProvenanceRow → Bool
is_provenance_of participant_id intent_id r =
    r.participant_id == participant_id && r.intent_id == intent_id

-- `existing == expected` for a delivery that is there already.
unfoldable pub is_same_delivery : IngressProvenance → ExecutionReceipt → IngressRow → Bool
is_same_delivery ingress receipt r =
    r.participant_id == some receipt.participant_id
    && r.intent_id == ingress.intent_id
    && r.transport == ingress.transport
    && r.external_ref == ingress.external_ref
    && r.principal_provider == ingress.principal.provider
    && r.principal_subject == ingress.principal.subject

abbrev pub delivery_row : ℕ → IngressProvenance → ExecutionReceipt → IngressRow
delivery_row now ingress receipt = record {
  delivery_id = ingress.delivery_id;
  participant_id = some receipt.participant_id;
  intent_id = ingress.intent_id;
  transport = ingress.transport;
  external_ref = ingress.external_ref;
  principal_provider = ingress.principal.provider;
  principal_subject = ingress.principal.subject;
  created_at = now;
}

-- The first half of `record_execution_in_tx`.
unfoldable pub record_delivery :
    ℕ → IngressProvenance → ExecutionReceipt → Database → Result DbError Database
record_delivery now ingress receipt db =
    elim (find (is_delivery ingress.delivery_id) db.ingress_provenance) [
      | some old ↦ if is_same_delivery ingress receipt old then ok db else err invalid_query
      | none ↦ ok (record db {
        ingress_provenance = db.ingress_provenance ++ delivery_row now ingress receipt ∷ [];
      })
    ]

-- A stored receipt must agree but for its hash.
unfoldable pub is_same_receipt : ExecutionReceipt → ReceiptRow → Bool
is_same_receipt receipt r =
    r.capability == receipt.capability
    && r.message_id == receipt.message_id
    && r.status == receipt.status

abbrev pub receipt_row : ℕ → ExecutionReceipt → ReceiptRow
receipt_row now receipt = record {
  participant_id = receipt.participant_id;
  intent_id = receipt.intent_id;
  intent_hash = receipt.intent_hash;
  capability = receipt.capability;
  message_id = receipt.message_id;
  status = receipt.status;
  created_at = now;
}

-- The second half of `record_execution_in_tx`.
unfoldable pub record_receipt : ℕ → ExecutionReceipt → Database → Result DbError Database
record_receipt now receipt db =
    elim (find (is_receipt_of receipt.participant_id receipt.intent_id) db.execution_receipts) [
      | some old ↦ if is_same_receipt receipt old then ok db else err invalid_query
      | none ↦
          ok (record db {
            execution_receipts = db.execution_receipts ++ receipt_row now receipt ∷ [];
          })
    ]

unfoldable pub record_execution_in_tx :
    ℕ → IngressProvenance → ExecutionReceipt → Database → Result DbError Database
record_execution_in_tx now ingress receipt db = do
  db1 ← record_delivery now ingress receipt db
  record_receipt now receipt db1

abbrev pub provenance_row :
    ℕ → ExecutionReceipt → Principal → String → AuthorizationDecision → ProvenanceRow
provenance_row now receipt principal resource decision = record {
  participant_id = receipt.participant_id;
  intent_id = receipt.intent_id;
  principal_provider = some principal.provider;
  principal_subject = some principal.subject;
  capability = some receipt.capability;
  resource = some resource;
  source = decision.source;
  reason = decision.reason;
  grant_id = decision.grant_id;
  created_at = now;
}

-- A plain INSERT: the primary key (participant_id, intent_id) refuses a second row.
unfoldable pub record_authorization_provenance_in_tx :
    ℕ
    → ExecutionReceipt
    → Principal
    → String
    → AuthorizationDecision
    → Database
    → Result DbError Database
record_authorization_provenance_in_tx now receipt principal resource decision db =
    if not decision.allowed
    then err invalid_query
    else if exists_row (is_provenance_of receipt.participant_id receipt.intent_id)
        db.execution_authorization_provenance
    then err constraint
    else ok (record db {
      execution_authorization_provenance =
          db.execution_authorization_provenance
          ++ provenance_row now receipt principal resource decision ∷ [];
    })

abbrev receipt_of_row : ReceiptRow → ExecutionReceipt
receipt_of_row r = record {
  participant_id = r.participant_id;
  intent_id = r.intent_id;
  intent_hash = r.intent_hash;
  capability = r.capability;
  message_id = r.message_id;
  status = r.status;
}

abbrev option_map : {A B : Type 0} → (A → B) → Option A → Option B
option_map f none = none
option_map f (some a) = some (f a)

unfoldable pub get_execution_receipt : Database → String → String → Option ExecutionReceipt
get_execution_receipt db participant_id intent_id =
    option_map receipt_of_row (find (is_receipt_of participant_id intent_id) db.execution_receipts)

pub record AuthorizationProvenance : Type 0 where
  pub participant_id : String
  pub intent_id : String
  pub principal : Option Principal
  pub capability : Option String
  pub resource : Option String
  pub source : String
  pub reason : String
  pub grant_id : Option ℕ

abbrev both : Option String → Option String → Option Principal
both none subject = none
both (some p) none = none
both (some p) (some s) = some (record { provider = p; subject = s })

abbrev provenance_of_row : ProvenanceRow → AuthorizationProvenance
provenance_of_row r = record {
  participant_id = r.participant_id;
  intent_id = r.intent_id;
  principal = both r.principal_provider r.principal_subject;
  capability = r.capability;
  resource = r.resource;
  source = r.source;
  reason = r.reason;
  grant_id = r.grant_id;
}

unfoldable pub get_authorization_provenance :
    Database → String → String → Option AuthorizationProvenance
get_authorization_provenance db participant_id intent_id =
    option_map provenance_of_row
      (find (is_provenance_of participant_id intent_id) db.execution_authorization_provenance)
