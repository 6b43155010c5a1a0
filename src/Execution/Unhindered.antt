-- ===== src/Execution/Unhindered.antt =====
-- Where no row stands in the way, each statement of the evidence succeeds.
use conversation_blackboard.Common.{
  ℕ, String, ◌≡◌, refl, ap, ◌∙◌, inl, inr, true, false, Option, none, some, arith,
}
use conversation_blackboard.Common.Eq.{==_iff, nat_eq}
use conversation_blackboard.Sql.{ok, find, exists_row, count_rows}
use conversation_blackboard.Board.{Principal, Database}
use conversation_blackboard.Authorization.Capability.{AuthorizationDecision}
use conversation_blackboard.Authorization.Delegated.{is_consumable, consume_delegated_grant_in_tx}
use conversation_blackboard.Execution.Types.{IngressProvenance, ExecutionReceipt}
use conversation_blackboard.Execution.Record.{
  is_delivery, is_receipt_of, is_provenance_of, record_delivery, record_receipt,
  record_execution_in_tx, record_authorization_provenance_in_tx,
}
use conversation_blackboard.Execution.Execute.{consume_if_given}
use conversation_blackboard.Execution.Frames.{ok-or-err, record_delivery-frame}

record_delivery-fresh :
    (now : ℕ) (ingress : IngressProvenance) (receipt : ExecutionReceipt) (db : Database)
    → find (is_delivery ingress.delivery_id) db.ingress_provenance ≡ none
    → (d : Database) × (record_delivery now ingress receipt db ≡ ok d)
unfolding record_delivery
record_delivery-fresh now ingress receipt db h =
    elim (ok-or-err (record_delivery now ingress receipt db)) [
      | inl done ↦ done
      | inr (e, failed) ↦ absurd (ground arith)
    ]

record_receipt-fresh :
    (now : ℕ) (receipt : ExecutionReceipt) (db : Database)
    → find (is_receipt_of receipt.participant_id receipt.intent_id) db.execution_receipts ≡ none
    → (d : Database) × (record_receipt now receipt db ≡ ok d)
unfolding record_receipt
record_receipt-fresh now receipt db h = elim (ok-or-err (record_receipt now receipt db)) [
  | inl done ↦ done
  | inr (e, failed) ↦ absurd (ground arith)
]

pub record_execution-fresh :
    (now : ℕ) (ingress : IngressProvenance) (receipt : ExecutionReceipt) (db : Database)
    → find (is_delivery ingress.delivery_id) db.ingress_provenance ≡ none
    → find (is_receipt_of receipt.participant_id receipt.intent_id) db.execution_receipts ≡ none
    → (d : Database) × (record_execution_in_tx now ingress receipt db ≡ ok d)
unfolding record_execution_in_tx
record_execution-fresh now ingress receipt db undelivered unreceipted =
    let (d1, e1) = record_delivery-fresh now ingress receipt db undelivered in
    let frame = ap (λ x. x.execution_receipts) (record_delivery-frame now ingress receipt db e1) in
    let (d2, e2) =
      record_receipt-fresh now receipt d1
        (ap (find (is_receipt_of receipt.participant_id receipt.intent_id)) frame ∙ unreceipted) in
    (d2, rw (e1, record_execution_in_tx) e2)

pub provenance-fresh :
    (now : ℕ) (receipt : ExecutionReceipt) (principal : Principal) (resource : String)
    (decision : AuthorizationDecision) (db : Database)
    → decision.allowed ≡ true
    → exists_row
        (is_provenance_of receipt.participant_id receipt.intent_id)
        db.execution_authorization_provenance
      ≡ false
    → (d : Database) × (record_authorization_provenance_in_tx now receipt principal resource
          decision db
        ≡ ok d)
unfolding record_authorization_provenance_in_tx
provenance-fresh now receipt principal resource decision db allowed unproven =
    elim (ok-or-err
      (record_authorization_provenance_in_tx now receipt principal resource decision db)) [
        | inl done ↦ done
        | inr (e, failed) ↦ absurd (ground arith)
      ]

pub consume-fresh :
    (now : ℕ) (grant : Option ℕ) (intent_id : String) (db : Database)
    → ((id : ℕ) → grant ≡ some id → count_rows (is_consumable id) db.delegated_grants ≡ 1)
    → (d : Database) × (consume_if_given now grant intent_id db ≡ ok d)
unfolding consume_if_given consume_delegated_grant_in_tx
consume-fresh now none intent_id db h = (db, refl)
consume-fresh now (some id) intent_id db h =
    let one = (==_iff (count_rows (is_consumable id) db.delegated_grants) 1).1 (h id refl) in
    elim (ok-or-err (consume_if_given now (some id) intent_id db)) [
      | inl done ↦ done
      | inr (e, failed) ↦ absurd (ground arith)
    ]
