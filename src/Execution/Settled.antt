-- ===== src/Execution/Settled.antt =====
-- A settled intent: the board holds all that a repetition of it reads, and the repetition changes
-- nothing.
use conversation_blackboard.Common.{ℕ, ◌≡◌, ◌⊎◌, inl, inr, true, false, some, arith, Option-cases}
use conversation_blackboard.Common.Eq.{==_iff, string_eq, nat_eq}
use conversation_blackboard.Sql.{ok, find}
use conversation_blackboard.Sql.Laws.{exists_row-find}
use conversation_blackboard.Board.{
  Identity, Message, IngressRow, ReceiptRow, NavigationWrite, Database,
}
use conversation_blackboard.Transaction.{commit, in_tx}
use conversation_blackboard.Channels.{
  is_named, insert_channel, default_visibility, channel_metadata,
}
use conversation_blackboard.Messages.{
  has_message_id, is_reservation, message_by_id, find_reservation,
}
use conversation_blackboard.Authorization.Capability.{AuthorizationDecision}
use conversation_blackboard.Authorization.Schema.{ensure_grant_schema}
use conversation_blackboard.Authorization.Evaluate.{evaluate_authorization}
use conversation_blackboard.Execution.Types.{
  IngressProvenance, ExecutionReceipt, MessageExecutionRequest, existing,
}
use conversation_blackboard.Execution.Record.{
  is_delivery, is_same_delivery, is_receipt_of, is_same_receipt, record_delivery, record_receipt,
  record_execution_in_tx,
}
use conversation_blackboard.Execution.Execute.{
  RequestHash, is_bound_request, differs_from_request, receipt_for, finish_existing, repeat_intent,
  is_open, admitted_intent, decided_intent, execute_message_intent,
}
use conversation_blackboard.Execution.Outcome.{decision_on, reserve_nonce-old}

-- The delivery and the receipt are there and say what the request says.
pub record Evidenced (ingress : IngressProvenance) (receipt : ExecutionReceipt) (db : Database)
    : Type 0 where
  pub delivery : IngressRow
  pub delivered : find (is_delivery ingress.delivery_id) db.ingress_provenance ≡ some delivery
  pub same_delivery : is_same_delivery ingress receipt delivery ≡ true
  pub stored_receipt : ReceiptRow
  pub receipted :
      find (is_receipt_of receipt.participant_id receipt.intent_id) db.execution_receipts
      ≡ some stored_receipt
  pub same_receipt : is_same_receipt receipt stored_receipt ≡ true

pub record Settled (identity : Identity) (request : MessageExecutionRequest) (db : Database)
    (m : Message) : Type 0 where
  pub schema : ensure_grant_schema db ≡ db
  pub channel_open : is_open (channel_metadata db request.channel) ≡ true
  pub stored : NavigationWrite
  pub reservation :
      find (is_reservation identity.instance_id request.intent.intent_id) db.navigation_writes
      ≡ some stored
  pub message : find (has_message_id stored.message_id) db.messages ≡ some m
  pub agrees :
      (stored.request_hash ≡ request.intent.request_hash) ⊎ (differs_from_request request m ≡ false)
  pub evidence : Evidenced request.ingress (receipt_for request m.id) db

-- Recording the same evidence again changes nothing.
record_delivery_again :
    (now : ℕ) (ingress : IngressProvenance) (receipt : ExecutionReceipt) (db : Database)
    → Evidenced ingress receipt db
    → record_delivery now ingress receipt db ≡ ok db
unfolding record_delivery
record_delivery_again now ingress receipt db e =
    let delivered = e.delivered in let same = e.same_delivery in ground arith

record_receipt_again :
    (now : ℕ) (ingress : IngressProvenance) (receipt : ExecutionReceipt) (db : Database)
    → Evidenced ingress receipt db
    → record_receipt now receipt db ≡ ok db
unfolding record_receipt
record_receipt_again now ingress receipt db e =
    let receipted = e.receipted in let same = e.same_receipt in ground arith

record_execution_again :
    (now : ℕ) (ingress : IngressProvenance) (receipt : ExecutionReceipt) (db : Database)
    → Evidenced ingress receipt db
    → record_execution_in_tx now ingress receipt db ≡ ok db
unfolding record_execution_in_tx
record_execution_again now ingress receipt db e =
    let d = record_delivery_again now ingress receipt db e in
    let r = record_receipt_again now ingress receipt db e in ground arith

-- A channel that can be read is not inserted again.
insert_channel_again :
    (now : ℕ) (identity : Identity) (request : MessageExecutionRequest) (db : Database)
    → is_open (channel_metadata db request.channel) ≡ true
    → insert_channel now request.channel
        (default_visibility request.channel)
        (some identity.instance_id)
        db
      ≡ (db, 0)
unfolding insert_channel channel_metadata
insert_channel_again now identity request db h =
    elim (Option-cases (find (is_named request.channel) db.channels)) [
      | inl gone ↦ let stuck = rw gone at h in cc
      | inr (c, found) ↦ rw (exists_row-find (is_named request.channel) db.channels found)
    ]

repeat_intent-Settled :
    (now : ℕ) (identity : Identity) (request : MessageExecutionRequest) (db : Database)
    {m : Message}
    → Settled identity request db m
    → repeat_intent now identity request db ≡ ok (commit db (existing m))
unfolding repeat_intent find_reservation message_by_id finish_existing
repeat_intent-Settled now identity request db {m = m} s =
    let reserved = s.reservation in
    let found = s.message in
    let agrees = s.agrees in
    let hashed = ==_iff s.stored.request_hash request.intent.request_hash in
    let again =
      record_execution_again now request.ingress (receipt_for request m.id) db s.evidence in
    ground arith

admitted_intent-Settled :
    (now : ℕ) (identity : Identity) (request : MessageExecutionRequest)
    (decision : AuthorizationDecision) (db : Database) {m : Message}
    → Settled identity request db m
    → admitted_intent now identity request decision db ≡ ok (commit db (existing m))
unfolding admitted_intent
admitted_intent-Settled now identity request decision db {m = m} s =
    let active = s.channel_open in
    let kept = insert_channel_again now identity request db active in
    let old = reserve_nonce-old now identity request db (
      exists_row-find (is_reservation identity.instance_id request.intent.intent_id)
        db.navigation_writes s.reservation) in
    let again = repeat_intent-Settled now identity request db s in ground arith

decided_intent-Settled :
    (now : ℕ) (identity : Identity) (request : MessageExecutionRequest)
    (decision : AuthorizationDecision) (db d : Database) {m : Message}
    → decision.allowed ≡ true
    → d ≡ db
    → Settled identity request db m
    → in_tx db (decided_intent now identity request (d, decision)) ≡ (db, ok (existing m))
unfolding decided_intent in_tx
decided_intent-Settled now identity request decision db d allowed same s =
    let done = admitted_intent-Settled now identity request decision db s in ground arith

-- A bound and authorized request for a settled intent returns its message and changes nothing.
pub execute-Settled :
    (hash : RequestHash) (now : ℕ) (identity : Identity) (request : MessageExecutionRequest)
    (db : Database) {m : Message}
    → is_bound_request hash identity request ≡ true
    → (decision_on db now request).allowed ≡ true
    → Settled identity request db m
    → execute_message_intent hash now identity request db ≡ (db, ok (existing m))
unfolding execute_message_intent evaluate_authorization
execute-Settled hash now identity request db bound allowed s = rw bound (
    decided_intent-Settled now identity request (decision_on db now request) db
      (ensure_grant_schema db) allowed s.schema s)
