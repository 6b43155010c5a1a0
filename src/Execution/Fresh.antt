-- ===== src/Execution/Fresh.antt =====
-- A first execution succeeds: where the intent is new, allowed and well placed, the message is
-- created.
use conversation_blackboard.Common.{
  ℕ, ◌≡◌, refl, ap, ◌∙◌, true, false, Option, none, some, arith, if◌then◌else◌,
}
use conversation_blackboard.Common.Int.{ℤ}
use conversation_blackboard.Common.Eq.{nat_eq}
use conversation_blackboard.Sql.{ok, find, exists_row, count_rows}
use conversation_blackboard.Board.{Identity, Message, Database}
use conversation_blackboard.Transaction.{commit, in_tx}
use conversation_blackboard.Channels.{channel_metadata}
use conversation_blackboard.Messages.{
  is_reservation, reply_target_missing, message_exists, insert_message, bind_reservation,
}
use conversation_blackboard.Authorization.Capability.{AuthorizationDecision}
use conversation_blackboard.Authorization.Schema.{ensure_grant_schema}
use conversation_blackboard.Authorization.Delegated.{is_consumable}
use conversation_blackboard.Authorization.Evaluate.{evaluate_authorization}
use conversation_blackboard.Execution.Types.{MessageExecutionRequest, created, authorization_denied}
use conversation_blackboard.Execution.Record.{is_delivery, is_receipt_of, is_provenance_of}
use conversation_blackboard.Execution.Execute.{
  RequestHash, is_bound_request, receipt_for, finish_created, first_intent, is_open,
  admitted_intent, decided_intent, execute_message_intent,
}
use conversation_blackboard.Execution.Frames.{record_execution-frame, provenance-frame}
use conversation_blackboard.Execution.Outcome.{
  decision_on, new_message, with_channel, with_nonce, with_message, message_by_id-new,
  reserve_nonce-new,
}
use conversation_blackboard.Execution.Creation.{new_message-same}
use conversation_blackboard.Execution.Reserving.{with_nonce-SameRest, with_channel-navigation}
use conversation_blackboard.Execution.Unhindered.{
  record_execution-fresh, provenance-fresh, consume-fresh,
}

-- What an execution meets that has not been executed before: no reservation, delivery, receipt or
-- provenance of it, a reply target that is there, if any, and a grant to consume, if any, that is
-- there once.
pub record IsFresh (now : ℕ) (identity : Identity) (request : MessageExecutionRequest)
    (db : Database) : Type 0 where
  pub active :
      is_open (
        channel_metadata
          (with_channel now identity request (ensure_grant_schema db))
          request.channel)
      ≡ true
  pub unreserved :
      exists_row (is_reservation identity.instance_id request.intent.intent_id) db.navigation_writes
      ≡ false
  pub answerable : reply_target_missing db request.reply_to ≡ false
  pub undelivered : find (is_delivery request.ingress.delivery_id) db.ingress_provenance ≡ none
  pub unreceipted :
      find
        (is_receipt_of request.intent.participant_id request.intent.intent_id)
        db.execution_receipts
      ≡ none
  pub unproven :
      exists_row
        (is_provenance_of request.intent.participant_id request.intent.intent_id)
        db.execution_authorization_provenance
      ≡ false
  pub consumable :
      (id : ℕ)
      → (decision_on db now request).consume_grant_id ≡ some id
      → count_rows (is_consumable id) db.delegated_grants ≡ 1

module _ (now : ℕ) (identity : Identity) (request : MessageExecutionRequest) (db : Database) where
  abbrev begun : Database
  begun =
      with_message now identity request (with_nonce now identity request (ensure_grant_schema db))

  begun-tables :
      (begun.ingress_provenance ≡ db.ingress_provenance)
      × (begun.execution_receipts ≡ db.execution_receipts)
      × (begun.execution_authorization_provenance ≡ db.execution_authorization_provenance)
      × (begun.delegated_grants ≡ db.delegated_grants)
  unfolding bind_reservation
  begun-tables =
      let rest = with_nonce-SameRest now identity request db in
      (rest.ingress, rest.receipts, rest.provenance, rest.delegated)

  finish_created-fresh :
      (m : Message)
      → (decision_on db now request).allowed ≡ true
      → IsFresh now identity request db
      → (d : Database) × (finish_created now request (decision_on db now request) m begun
          ≡ ok (commit d (created m)))
  unfolding finish_created receipt_for
  finish_created-fresh m allowed f =
      let (ingress, receipts, provenance, delegated) = begun-tables in
      let receipt = receipt_for request m.id in
      let (d1, e1) =
        record_execution-fresh now request.ingress receipt begun
          (ap (find (is_delivery request.ingress.delivery_id)) ingress ∙ f.undelivered)
          (ap (find (is_receipt_of request.intent.participant_id request.intent.intent_id)) receipts
            ∙ f.unreceipted) in
      let f1 = record_execution-frame now request.ingress receipt begun e1 in
      let (d2, e2) =
        provenance-fresh now receipt request.authority.principal request.intent.resource
          (decision_on db now request) d1 allowed
          (ap (exists_row (is_provenance_of request.intent.participant_id request.intent.intent_id))
              (ap (λ x. x.execution_authorization_provenance) f1 ∙ provenance)
            ∙ f.unproven) in
      let f2 = provenance-frame _ _ _ _ _ d1 e2 in
      let (d3, e3) =
        consume-fresh now (decision_on db now request).consume_grant_id request.intent.intent_id d2
          (λ id named.
            ap (count_rows (is_consumable id))
              (ap (λ x. x.delegated_grants) f2 ∙ ap (λ x. x.delegated_grants) f1 ∙ delegated)
            ∙ f.consumable id named) in
      (d3, ground arith)

  reply_target_missing-messages :
      (a b : Database) (target : Option ℤ)
      → a.messages ≡ b.messages
      → reply_target_missing a target ≡ reply_target_missing b target
  unfolding reply_target_missing message_exists
  reply_target_missing-messages a b none h = refl
  reply_target_missing-messages a b (some t) h = rw h refl

  first_intent-fresh :
      (decision : AuthorizationDecision) (reserved d : Database)
      → reply_target_missing reserved request.reply_to ≡ false
      → finish_created now request decision
          (new_message now identity request reserved)
          (with_message now identity request reserved)
        ≡ ok (commit d (created (new_message now identity request reserved)))
      → first_intent now identity request decision reserved
        ≡ ok (commit d (created (new_message now identity request reserved)))
  unfolding first_intent insert_message
  first_intent-fresh decision reserved d there e =
      rw (there, first_intent) (rw (message_by_id-new now identity request reserved) e)

  admitted_intent-fresh :
      (decision : AuthorizationDecision) (ready d : Database) (m : Message)
      → is_open (channel_metadata (with_channel now identity request ready) request.channel) ≡ true
      → exists_row
          (is_reservation identity.instance_id request.intent.intent_id)
          (with_channel now identity request ready).navigation_writes
        ≡ false
      → first_intent now identity request decision (with_nonce now identity request ready)
        ≡ ok (commit d (created m))
      → in_tx db (decided_intent now identity request (ready, decision))
        ≡ (if decision.allowed then (d, ok (created m)) else (db, ok authorization_denied))
  unfolding admitted_intent decided_intent in_tx
  admitted_intent-fresh decision ready d m active new e =
      let counted =
        reserve_nonce-new now identity request (with_channel now identity request ready) new in
      ground arith

-- A bound and authorized request for an intent that is new to the board (its channel open, its nonce
-- free, its reply target there, no delivery, receipt or provenance of it, and the grant to consume,
-- if any, there once) is executed: it creates its message.
pub execute-IsFresh :
    (hash : RequestHash) (now : ℕ) (identity : Identity) (request : MessageExecutionRequest)
    (db : Database)
    → is_bound_request hash identity request ≡ true
    → (decision_on db now request).allowed ≡ true
    → IsFresh now identity request db
    → (execute_message_intent hash now identity request db).1
      ≡ ok (created (new_message now identity request db))
unfolding execute_message_intent evaluate_authorization
execute-IsFresh hash now identity request db bound allowed f =
    let ready = ensure_grant_schema db in
    let reserved = with_nonce now identity request ready in
    let log = (with_nonce-SameRest now identity request db).messages in
    let m = new_message now identity request reserved in
    let (d, finish) = finish_created-fresh now identity request db m allowed f in
    let there =
      reply_target_missing-messages now identity request db reserved db request.reply_to log
      ∙ f.answerable in
    let once =
      first_intent-fresh now identity request db (decision_on db now request) reserved d there
        finish in
    let done =
      admitted_intent-fresh now identity request db (decision_on db now request) ready d m f.active
        (ap (exists_row (is_reservation identity.instance_id request.intent.intent_id))
            (with_channel-navigation now identity request db)
          ∙ f.unreserved)
        once in
    let chosen : (if (decision_on db now request).allowed
          then (d, ok (created m))
          else (db, ok authorization_denied))
        ≡ (d, ok (created m)) =
      rw allowed refl in
    rw bound (
      ap (λ x. x.1) (done ∙ chosen)
      ∙ ap (λ k. ok (created k)) (new_message-same now identity request reserved db log))
