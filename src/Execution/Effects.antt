-- ===== src/Execution/Effects.antt =====
-- What an execution leaves in the database: nothing when it is refused, and the message with all
-- its evidence when it creates one.
use conversation_blackboard.Common.{
  ℕ, String, ◌≡◌, inl, inr, true, some, [], ◌∷◌, ◌++◌, arith, and_intro, Bool-cases, Option-cases,
}
use conversation_blackboard.Common.Eq.{==_refl, string_eq, nat_eq}
use conversation_blackboard.Sql.{ok, find, exists_row}
use conversation_blackboard.Sql.Laws.{find-append_last, find-of_exists}
use conversation_blackboard.Board.{ReceiptRow, Principal, Database}
use conversation_blackboard.Authorization.Capability.{AuthorizationDecision}
use conversation_blackboard.Execution.Types.{IngressProvenance, ExecutionReceipt}
use conversation_blackboard.Execution.Record.{
  is_receipt_of, is_provenance_of, record_delivery, record_receipt, record_execution_in_tx,
  record_authorization_provenance_in_tx, provenance_row, is_same_receipt, receipt_row,
}
use conversation_blackboard.Execution.Frames.{bind-ok}

is_same_receipt_self :
    (now : ℕ) (receipt : ExecutionReceipt)
    → is_same_receipt receipt (receipt_row now receipt) ≡ true
unfolding is_same_receipt
is_same_receipt_self now receipt =
    and_intro (and_intro (==_refl receipt.capability) (==_refl receipt.message_id))
      (==_refl receipt.status)

-- The row that `record_receipt` leaves: the one it inserted, or one that agrees with it.
pub record_receipt-found :
    (now : ℕ) (receipt : ExecutionReceipt) (db : Database) {db' : Database}
    → record_receipt now receipt db ≡ ok db'
    → (r : ReceiptRow) × (find
          (is_receipt_of receipt.participant_id receipt.intent_id)
          db'.execution_receipts
        ≡ some r)
      × (is_same_receipt receipt r ≡ true)
unfolding record_receipt
record_receipt-found now receipt db {db' = db'} h =
    elim (Option-cases
      (find (is_receipt_of receipt.participant_id receipt.intent_id) db.execution_receipts)) [
        | inr (old, found) ↦
            let same : is_same_receipt receipt old ≡ true = ground arith in
            let kept : db ≡ db' = ground arith in (old, rw (← kept) found, same)
        | inl new ↦
            let kept : record db {
              execution_receipts = db.execution_receipts ++ receipt_row now receipt ∷ [];
            }
                ≡ db' =
              ground arith in
            (
              receipt_row now receipt,
              rw (← kept) (
                  find-append_last (is_receipt_of receipt.participant_id receipt.intent_id)
                    db.execution_receipts (receipt_row now receipt) new
                    (and_intro (==_refl receipt.participant_id) (==_refl receipt.intent_id))),
              is_same_receipt_self now receipt,
            )
      ]

-- The provenance that a recorded decision leaves.
pub provenance-found :
    (now : ℕ) (receipt : ExecutionReceipt) (principal : Principal) (resource : String)
    (decision : AuthorizationDecision) (db : Database) {db' : Database}
    → record_authorization_provenance_in_tx now receipt principal resource decision db ≡ ok db'
    → find
        (is_provenance_of receipt.participant_id receipt.intent_id)
        db'.execution_authorization_provenance
      ≡ some (provenance_row now receipt principal resource decision)
unfolding record_authorization_provenance_in_tx
provenance-found now receipt principal resource decision db {db' = db'} h =
    elim (Bool-cases decision.allowed) [
      | inr denied ↦ absurd (ground arith)
      | inl allowed ↦
          elim (Bool-cases (
            exists_row (is_provenance_of receipt.participant_id receipt.intent_id)
              db.execution_authorization_provenance)) [
                | inl there ↦ absurd (ground arith)
                | inr fresh ↦
                    let kept : db.execution_authorization_provenance
                          ++ provenance_row now receipt principal resource decision ∷ []
                        ≡ db'.execution_authorization_provenance =
                      ground arith in
                    rw (← kept) (
                      find-append_last (is_provenance_of receipt.participant_id receipt.intent_id)
                        db.execution_authorization_provenance
                        (provenance_row now receipt principal resource decision)
                        (find-of_exists _ _ fresh)
                        (and_intro (==_refl receipt.participant_id) (==_refl receipt.intent_id)))
              ]
    ]

pub record_execution-found :
    (now : ℕ) (ingress : IngressProvenance) (receipt : ExecutionReceipt) (db : Database)
    {db' : Database}
    → record_execution_in_tx now ingress receipt db ≡ ok db'
    → (r : ReceiptRow) × (find
          (is_receipt_of receipt.participant_id receipt.intent_id)
          db'.execution_receipts
        ≡ some r)
      × (is_same_receipt receipt r ≡ true)
unfolding record_execution_in_tx
record_execution-found now ingress receipt db h =
    let (db1, e1, e2) =
      bind-ok (record_delivery now ingress receipt db) (record_receipt now receipt) h in
    record_receipt-found now receipt db1 e2
