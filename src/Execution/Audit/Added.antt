-- ===== src/Execution/Audit/Added.antt =====
-- The rows that a first execution adds to the tables of evidence.
use conversation_blackboard.Common.{
  ℕ, String, ◌≡◌, sym, ap, ◌∙◌, inl, inr, true, false, none, [], ◌∷◌, ◌++◌, arith, Option-cases,
  true-false,
}
use conversation_blackboard.Common.Eq.{◌==◌, string_eq, nat_eq, option_eq}
use conversation_blackboard.Sql.{ok, find, exists_row}
use conversation_blackboard.Sql.Laws.{find_sound, exists_row-Memᴰ}
use conversation_blackboard.Board.{Principal, Identity, Message, Database}
use conversation_blackboard.Messages.{bind_reservation}
use conversation_blackboard.Authorization.Capability.{AuthorizationDecision}
use conversation_blackboard.Authorization.Schema.{ensure_grant_schema}
use conversation_blackboard.Execution.Types.{
  IngressProvenance, ExecutionReceipt, MessageExecutionRequest, created,
}
use conversation_blackboard.Execution.Record.{
  is_delivery, is_receipt_of, is_provenance_of, is_same_delivery, delivery_row, receipt_row,
  provenance_row, record_delivery, record_receipt, record_execution_in_tx,
  record_authorization_provenance_in_tx,
}
use conversation_blackboard.Execution.Execute.{RequestHash, receipt_for, execute_message_intent}
use conversation_blackboard.Execution.Frames.{
  bind-ok, FinishSteps-frame, record_delivery-frame, record_receipt-frame, record_execution-frame,
  provenance-frame, consume-frame,
}
use conversation_blackboard.Execution.Outcome.{decision_on}
use conversation_blackboard.Execution.Reserving.{with_nonce-SameRest}
use conversation_blackboard.Execution.SchemaKept.{with_channel-schema, with_nonce-frame}
use conversation_blackboard.Execution.Accepted.{created-steps}

-- No delivery speaks of the intent.
abbrev pub IsUnheard : Database → String → Type 0
IsUnheard db intent_id = exists_row (λ r. r.intent_id == intent_id) db.ingress_provenance ≡ false

record_delivery-added :
    (now : ℕ) (ingress : IngressProvenance) (receipt : ExecutionReceipt) (db : Database)
    {db' : Database}
    → IsUnheard db ingress.intent_id
    → record_delivery now ingress receipt db ≡ ok db'
    → db'.ingress_provenance ≡ db.ingress_provenance ++ delivery_row now ingress receipt ∷ []
unfolding record_delivery is_same_delivery
record_delivery-added now ingress receipt db unheard h =
    elim (Option-cases (find (is_delivery ingress.delivery_id) db.ingress_provenance)) [
      | inl new ↦ ground arith
      | inr (old, found) ↦
          let (m, q) = find_sound _ db.ingress_provenance found in
          let same : is_same_delivery ingress receipt old ≡ true = ground arith in
          let named : old.intent_id == ingress.intent_id ≡ true = ground arith in
          absurd (
            true-false (
              sym (
                exists_row-Memᴰ (λ r. r.intent_id == ingress.intent_id) db.ingress_provenance m
                  named)
              ∙ unheard))
    ]

record_receipt-added :
    (now : ℕ) (receipt : ExecutionReceipt) (db : Database) {db' : Database}
    → find (is_receipt_of receipt.participant_id receipt.intent_id) db.execution_receipts ≡ none
    → record_receipt now receipt db ≡ ok db'
    → db'.execution_receipts ≡ db.execution_receipts ++ receipt_row now receipt ∷ []
unfolding record_receipt
record_receipt-added now receipt db new h = ground arith

record_execution-added :
    (now : ℕ) (ingress : IngressProvenance) (receipt : ExecutionReceipt) (db : Database)
    {db' : Database}
    → IsUnheard db ingress.intent_id
    → find (is_receipt_of receipt.participant_id receipt.intent_id) db.execution_receipts ≡ none
    → record_execution_in_tx now ingress receipt db ≡ ok db'
    → (db'.ingress_provenance ≡ db.ingress_provenance ++ delivery_row now ingress receipt ∷ [])
      × (db'.execution_receipts ≡ db.execution_receipts ++ receipt_row now receipt ∷ [])
unfolding record_execution_in_tx
record_execution-added now ingress receipt db unheard unreceipted h =
    let (d1, e1, e2) =
      bind-ok (record_delivery now ingress receipt db) (record_receipt now receipt) h in
    let g1 = record_delivery-frame now ingress receipt db e1 in
    let g2 = record_receipt-frame now receipt d1 e2 in
    let same = ap (λ x. x.execution_receipts) g1 in
    (
      ap (λ x. x.ingress_provenance) g2 ∙ record_delivery-added now ingress receipt db unheard e1,
      record_receipt-added now receipt d1 (rw same unreceipted) e2
          ∙ ap (λ l. l ++ receipt_row now receipt ∷ []) same,
    )

provenance-added :
    (now : ℕ) (receipt : ExecutionReceipt) (principal : Principal) (resource : String)
    (decision : AuthorizationDecision) (db : Database) {db' : Database}
    → record_authorization_provenance_in_tx now receipt principal resource decision db ≡ ok db'
    → (exists_row
          (is_provenance_of receipt.participant_id receipt.intent_id)
          db.execution_authorization_provenance
        ≡ false)
      × (db'.execution_authorization_provenance
          ≡ db.execution_authorization_provenance
            ++ provenance_row now receipt principal resource decision ∷ [])
unfolding record_authorization_provenance_in_tx
provenance-added now receipt principal resource decision db h = ground arith

pub record IsAdded (now : ℕ) (request : MessageExecutionRequest) (db db' : Database) (m : Message)
    : Type 0 where
  pub receipts :
      db'.execution_receipts
      ≡ db.execution_receipts ++ receipt_row now (receipt_for request m.id) ∷ []
  pub deliveries :
      db'.ingress_provenance
      ≡ db.ingress_provenance ++ delivery_row now request.ingress (receipt_for request m.id) ∷ []
  pub unproven :
      exists_row
        (is_provenance_of request.intent.participant_id request.intent.intent_id)
        db.execution_authorization_provenance
      ≡ false
  pub provenance :
      db'.execution_authorization_provenance
      ≡ db.execution_authorization_provenance
        ++ provenance_row now
            (receipt_for request m.id)
            request.authority.principal
            request.intent.resource
            (decision_on db now request)
          ∷ []
  pub schema : db'.schema ≡ (ensure_grant_schema db).schema

module _ (hash : RequestHash) (now : ℕ) (identity : Identity) (request : MessageExecutionRequest)
    (db : Database) where
  pub created-IsAdded :
      {db' : Database} {m : Message}
      → execute_message_intent hash now identity request db ≡ (db', ok (created m))
      → IsUnheard db request.ingress.intent_id
      → find
          (is_receipt_of request.intent.participant_id request.intent.intent_id)
          db.execution_receipts
        ≡ none
      → IsAdded now request db db' m
  unfolding receipt_for bind_reservation
  created-IsAdded {db' = db'} {m = m} h unheard unreceipted =
      let made = (created-steps hash now identity request db h).steps in
      let rest = with_nonce-SameRest now identity request db in
      let reserved = with_nonce-frame now identity request (ensure_grant_schema db) in
      let frame = FinishSteps-frame _ _ _ _ _ made in
      let f1 = record_execution-frame _ _ _ _ made.evidence in
      let f2 = provenance-frame _ _ _ _ _ made.evidenced made.provenance in
      let f3 = consume-frame _ _ _ made.proven made.consumption in
      let receipt = receipt_for request m.id in
      let (heard, receipted) =
        record_execution-added now request.ingress receipt _
          (ap (exists_row (λ r. r.intent_id == request.ingress.intent_id)) rest.ingress ∙ unheard)
          (ap (find (is_receipt_of request.intent.participant_id request.intent.intent_id))
              rest.receipts
            ∙ unreceipted)
          made.evidence in
      let (unproven, proven) = provenance-added _ _ _ _ _ made.evidenced made.provenance in
      let row =
        provenance_row now receipt request.authority.principal request.intent.resource
          (decision_on db now request) in
      let before = ap (λ x. x.execution_authorization_provenance) f1 ∙ rest.provenance in
      record {
        receipts =
            ap (λ x. x.execution_receipts) f3
            ∙ ap (λ x. x.execution_receipts) f2
            ∙ receipted
            ∙ ap (λ l. l ++ receipt_row now receipt ∷ []) rest.receipts;
        deliveries =
            ap (λ x. x.ingress_provenance) f3
            ∙ ap (λ x. x.ingress_provenance) f2
            ∙ heard
            ∙ ap (λ l. l ++ delivery_row now request.ingress receipt ∷ []) rest.ingress;
        unproven = sym (ap (exists_row _) before) ∙ unproven;
        provenance =
            ap (λ x. x.execution_authorization_provenance) f3
            ∙ proven
            ∙ ap (λ l. l ++ row ∷ []) before;
        schema = ap (λ x. x.schema) frame ∙ reserved.0 ∙ with_channel-schema now identity request _;
      }
