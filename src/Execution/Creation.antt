-- ===== src/Execution/Creation.antt =====
-- The first execution of an intent: one message, and the reservation, receipt and provenance that
-- bind it to the intent.
use conversation_blackboard.Common.{
  ℕ, ◌≡◌, sym, ap, subst, ◌∙◌, inl, inr, true, false, some, List, [], ◌∷◌, ◌++◌, arith,
}
use conversation_blackboard.Common.Eq.{string_eq, nat_eq}
use conversation_blackboard.Sql.{ok, find, exists_row}
use conversation_blackboard.Board.{Identity, Message, ReceiptRow, Database}
use conversation_blackboard.Transaction.{commit}
use conversation_blackboard.Messages.{is_reservation}
use conversation_blackboard.Authorization.Capability.{AuthorizationDecision}
use conversation_blackboard.Authorization.Schema.{ensure_grant_schema}
use conversation_blackboard.Execution.Types.{MessageExecutionRequest, created}
use conversation_blackboard.Execution.Record.{
  is_receipt_of, is_provenance_of, provenance_row, is_same_receipt,
}
use conversation_blackboard.Execution.Execute.{
  RequestHash, receipt_for, repeat_intent, first_intent, finish_existing, execute_message_intent,
}
use conversation_blackboard.Execution.Frames.{
  FinishSteps, FinishSteps-frame, finish_created-steps, provenance-frame, consume-frame,
}
use conversation_blackboard.Execution.Outcome.{
  decision_on, new_message, with_nonce, with_message, first_intent-inv, admitted_intent-inv,
}
use conversation_blackboard.Execution.Inversion.{execute-inv}
use conversation_blackboard.Execution.Effects.{record_execution-found, provenance-found}
use conversation_blackboard.Execution.Reserving.{
  key, reservation_row, with_nonce-SameRest, messages-with_message, reservation-with_message,
  with_channel-navigation,
}

-- A message with everything that binds it to the intent that created it.
pub record IsCreated (now : ℕ) (identity : Identity) (request : MessageExecutionRequest)
    (db db' : Database) (m : Message) : Type 0 where
  pub authorized : (decision_on db now request).allowed ≡ true
  pub content : m ≡ new_message now identity request db
  pub log : db'.messages ≡ db.messages ++ m ∷ []
  pub unreserved :
      exists_row (is_reservation identity.instance_id request.intent.intent_id) db.navigation_writes
      ≡ false
  pub reservation :
      find (is_reservation identity.instance_id request.intent.intent_id) db'.navigation_writes
      ≡ some (record {
        instance_id = identity.instance_id;
        nonce = request.intent.intent_id;
        request_hash = request.intent.request_hash;
        message_id = m.id;
        created_at = now;
      })
  pub receipt :
      (r : ReceiptRow) × (find
          (is_receipt_of request.intent.participant_id request.intent.intent_id)
          db'.execution_receipts
        ≡ some r)
      × (is_same_receipt (receipt_for request m.id) r ≡ true)
  pub provenance :
      find
        (is_provenance_of request.intent.participant_id request.intent.intent_id)
        db'.execution_authorization_provenance
      ≡ some (
          provenance_row now
            (receipt_for request m.id)
            request.authority.principal
            request.intent.resource
            (decision_on db now request))

FinishSteps-receipt :
    (now : ℕ) (request : MessageExecutionRequest) (decision : AuthorizationDecision) (m : Message)
    (db : Database) {db' : Database}
    → FinishSteps now request decision m db db'
    → (r : ReceiptRow) × (find
          (is_receipt_of request.intent.participant_id request.intent.intent_id)
          db'.execution_receipts
        ≡ some r)
      × (is_same_receipt (receipt_for request m.id) r ≡ true)
unfolding receipt_for
FinishSteps-receipt now request decision m db s =
    let (r, found, same) =
      record_execution-found now request.ingress (receipt_for request m.id) db s.evidence in
    let f2 = provenance-frame _ _ _ _ _ s.evidenced s.provenance in
    let f3 = consume-frame _ _ _ s.proven s.consumption in
    (
      r,
      ap
            (λ (l : List ReceiptRow).
              find (is_receipt_of request.intent.participant_id request.intent.intent_id) l)
            (ap (λ d. d.execution_receipts) f3 ∙ ap (λ d. d.execution_receipts) f2)
          ∙ found,
      same,
    )

FinishSteps-provenance :
    (now : ℕ) (request : MessageExecutionRequest) (decision : AuthorizationDecision) (m : Message)
    (db : Database) {db' : Database}
    → FinishSteps now request decision m db db'
    → find
        (is_provenance_of request.intent.participant_id request.intent.intent_id)
        db'.execution_authorization_provenance
      ≡ some (
          provenance_row now
            (receipt_for request m.id)
            request.authority.principal
            request.intent.resource
            decision)
unfolding receipt_for
FinishSteps-provenance now request decision m db s =
    let found = provenance-found _ _ _ _ _ s.evidenced s.provenance in
    let f3 = consume-frame _ _ _ s.proven s.consumption in
    ap
      (λ d.
        find (is_provenance_of request.intent.participant_id request.intent.intent_id)
          d.execution_authorization_provenance)
      f3
    ∙ found

pub repeat_intent-not_created :
    (now : ℕ) (identity : Identity) (request : MessageExecutionRequest) (db : Database)
    {db' : Database} {m : Message}
    → ¬ (repeat_intent now identity request db ≡ ok (commit db' (created m)))
unfolding repeat_intent finish_existing
repeat_intent-not_created now identity request db h = ground arith

pub created-injective : {a b : Message} → created a ≡ created b → a ≡ b
created-injective e = cc

pub new_message-same :
    (now : ℕ) (identity : Identity) (request : MessageExecutionRequest) (a b : Database)
    → a.messages ≡ b.messages
    → new_message now identity request a ≡ new_message now identity request b
new_message-same now identity request a b e =
    ap (λ l. new_message now identity request (record a { messages = l })) e

module _ (now : ℕ) (identity : Identity) (request : MessageExecutionRequest) (db : Database) where
  first_intent-created :
      {db' : Database} {m : Message}
      → (decision_on db now request).allowed ≡ true
      → exists_row
          (is_reservation identity.instance_id request.intent.intent_id)
          db.navigation_writes
        ≡ false
      → first_intent now identity request
          (decision_on db now request)
          (with_nonce now identity request (ensure_grant_schema db))
        ≡ ok (commit db' (created m))
      → IsCreated now identity request db db' m
  first_intent-created {db' = db'} {m = m} allowed fresh h =
      let reserved = with_nonce now identity request (ensure_grant_schema db) in
      let decision = decision_on db now request in
      let (there, finish) = first_intent-inv now identity request decision reserved h in
      let (made, steps) =
        finish_created-steps now request decision (new_message now identity request reserved)
          (with_message now identity request reserved) finish in
      let same_log = (with_nonce-SameRest now identity request db).messages in
      let is : m ≡ new_message now identity request reserved = created-injective made in
      let is_new : m ≡ new_message now identity request db =
        is ∙ new_message-same now identity request reserved db same_log in
      let frame = FinishSteps-frame _ _ _ _ _ steps in
      record {
        authorized = allowed;
        content = is_new;
        log = cc (
          ap (λ d. d.messages) frame,
          messages-with_message now identity request reserved,
          same_log,
          is,
        );
        unreserved = fresh;
        reservation =
            ap (λ d. find (key now identity request) d.navigation_writes) frame
            ∙ reservation-with_message now identity request db fresh
            ∙ ap (λ k. some (reservation_row now identity request k)) (ap (λ n. n.id) (sym is));
        receipt =
            subst
              (λ k.
                (r : ReceiptRow) × (find
                    (is_receipt_of request.intent.participant_id request.intent.intent_id)
                    db'.execution_receipts
                  ≡ some r)
                × (is_same_receipt (receipt_for request k) r ≡ true))
              (ap (λ n. n.id) (sym is)) (FinishSteps-receipt now request decision _ _ steps);
        provenance =
            FinishSteps-provenance now request decision _ _ steps
            ∙ ap
                (λ k. some (
                  provenance_row now (receipt_for request k) request.authority.principal
                    request.intent.resource decision))
                (ap (λ n. n.id) (sym is));
      }

-- If an execution creates `m`, then the decision allowed it, the intent's nonce was free, `m` is the
-- request's message under the next id and is the one message added to the log, and the reservation,
-- a receipt that names it and the provenance of that decision are found under the intent.
pub execute-created :
    (hash : RequestHash) (now : ℕ) (identity : Identity) (request : MessageExecutionRequest)
    (db : Database) {db' : Database} {m : Message}
    → execute_message_intent hash now identity request db ≡ (db', ok (created m))
    → IsCreated now identity request db db' m
execute-created hash now identity request db {db' = db'} {m = m} h =
    elim (execute-inv hash now identity request db h).1 [
      | inr refused ↦ absurd refused.1
      | inl (allowed, body) ↦
          elim (admitted_intent-inv now identity request _ (ensure_grant_schema db) body).1 [
            | inl (old, again) ↦ absurd (repeat_intent-not_created now identity request _ again)
            | inr (new, once) ↦
                first_intent-created now identity request db allowed
                  (ap (exists_row (is_reservation identity.instance_id request.intent.intent_id))
                      (sym (with_channel-navigation now identity request db))
                    ∙ new)
                  once
          ]
    ]
