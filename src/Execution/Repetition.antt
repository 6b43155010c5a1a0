-- ===== src/Execution/Repetition.antt =====
-- A repeated intent: it returns the message that the intent has, and adds none.
use conversation_blackboard.Common.{
  ℕ, ◌≡◌, ap, ◌∙◌, ◌⊎◌, inl, inr, true, false, Option, none, some, arith, Option-cases,
}
use conversation_blackboard.Common.Eq.{==_iff, string_eq, nat_eq}
use conversation_blackboard.Sql.{ok, find}
use conversation_blackboard.Board.{Identity, Message, ReceiptRow, NavigationWrite, Database}
use conversation_blackboard.Transaction.{commit}
use conversation_blackboard.Messages.{
  message_by_id, has_message_id, or_no_rows, find_reservation, is_reservation,
}
use conversation_blackboard.Authorization.Schema.{ensure_grant_schema}
use conversation_blackboard.Execution.Types.{
  MessageExecutionRequest, MessageExecutionResult, existing,
}
use conversation_blackboard.Execution.Record.{
  is_receipt_of, is_same_receipt, record_execution_in_tx,
}
use conversation_blackboard.Execution.Execute.{
  RequestHash, differs_from_request, receipt_for, finish_existing, repeat_intent, first_intent,
  execute_message_intent,
}
use conversation_blackboard.Execution.Frames.{record_execution-frame, finish_created-steps}
use conversation_blackboard.Execution.Outcome.{
  decision_on, with_channel, first_intent-inv, admitted_intent-inv,
}
use conversation_blackboard.Execution.Inversion.{execute-inv}
use conversation_blackboard.Execution.Effects.{record_execution-found}
use conversation_blackboard.Execution.Reserving.{with_channel-SameRest, with_channel-navigation}

-- The message is the one that the intent's reservation names, and the request says the same.
pub record IsRepeated (identity : Identity) (request : MessageExecutionRequest) (db db' : Database)
    (m : Message) : Type 0 where
  pub stored : NavigationWrite
  pub reservation :
      find (is_reservation identity.instance_id request.intent.intent_id) db.navigation_writes
      ≡ some stored
  pub message : find (has_message_id stored.message_id) db.messages ≡ some m
  pub agrees :
      (stored.request_hash ≡ request.intent.request_hash) ⊎ (differs_from_request request m ≡ false)
  pub log : db'.messages ≡ db.messages
  pub reservations : db'.navigation_writes ≡ db.navigation_writes
  pub grants : db'.delegated_grants ≡ db.delegated_grants
  pub provenance : db'.execution_authorization_provenance ≡ db.execution_authorization_provenance
  pub receipt :
      (r : ReceiptRow) × (find
          (is_receipt_of request.intent.participant_id request.intent.intent_id)
          db'.execution_receipts
        ≡ some r)
      × (is_same_receipt (receipt_for request m.id) r ≡ true)

or_no_rows-ok : {A : Type 0} (o : Option A) {a : A} → or_no_rows o ≡ ok a → o ≡ some a
or_no_rows-ok none h = cc
or_no_rows-ok (some b) h = cc

pub record Repeats (now : ℕ) (identity : Identity) (request : MessageExecutionRequest)
    (db db' : Database) (r : MessageExecutionResult) : Type 0 where
  pub stored : NavigationWrite
  pub message : Message
  pub result : r ≡ existing message
  pub reservation :
      find (is_reservation identity.instance_id request.intent.intent_id) db.navigation_writes
      ≡ some stored
  pub found : find (has_message_id stored.message_id) db.messages ≡ some message
  pub agrees :
      (stored.request_hash ≡ request.intent.request_hash)
      ⊎ (differs_from_request request message ≡ false)
  pub evidence :
      record_execution_in_tx now request.ingress (receipt_for request message.id) db ≡ ok db'

pub repeat_intent-inv :
    (now : ℕ) (identity : Identity) (request : MessageExecutionRequest) (db : Database)
    {db' : Database} {r : MessageExecutionResult}
    → repeat_intent now identity request db ≡ ok (commit db' r)
    → Repeats now identity request db db' r
unfolding repeat_intent finish_existing find_reservation message_by_id
repeat_intent-inv now identity request db {db' = db'} h =
    elim (Option-cases
      (find (is_reservation identity.instance_id request.intent.intent_id) db.navigation_writes)) [
        | inl gone ↦ absurd (ground arith)
        | inr (stored, e1) ↦
            elim (Option-cases (find (has_message_id stored.message_id) db.messages)) [
              | inl gone ↦ absurd (ground arith)
              | inr (message, e2) ↦ record {
                stored = stored;
                message = message;
                result = ground arith;
                reservation = e1;
                found = e2;
                agrees = ground (arith, ==_iff stored.request_hash request.intent.request_hash);
                evidence = ground arith;
              }
            ]
      ]

pub existing-injective : {a b : Message} → existing a ≡ existing b → a ≡ b
existing-injective e = cc

pub first_intent-not_existing :
    (hash : RequestHash) (now : ℕ) (identity : Identity) (request : MessageExecutionRequest)
    (db d : Database) {db' : Database} {m : Message}
    → ¬ (
        first_intent now identity request (decision_on db now request) d
        ≡ ok (commit db' (existing m)))
first_intent-not_existing hash now identity request db d h =
    let (there, finish) = first_intent-inv now identity request _ d h in
    let (made, steps) = finish_created-steps now request _ _ _ finish in cc

IsRepeated-of :
    (now : ℕ) (identity : Identity) (request : MessageExecutionRequest) (db : Database)
    {db' : Database} {m : Message}
    → Repeats now identity request
        (with_channel now identity request (ensure_grant_schema db))
        db'
        (existing m)
    → IsRepeated identity request db db' m
unfolding receipt_for
IsRepeated-of now identity request db {db' = db'} {m = m} s =
    let ready = with_channel now identity request (ensure_grant_schema db) in
    let rest = with_channel-SameRest now identity request db in
    let navigation = with_channel-navigation now identity request db in
    let is : m ≡ s.message = existing-injective s.result in
    let frame = record_execution-frame now request.ingress _ ready s.evidence in
    let (r, found, same) = record_execution-found now request.ingress _ ready s.evidence in
    record {
      stored = s.stored;
      reservation = rw navigation at s.reservation;
      message = rw (rest.messages, ← is) at s.found;
      agrees = rw (← is) at s.agrees;
      log = ap (λ d. d.messages) frame ∙ rest.messages;
      reservations = ap (λ d. d.navigation_writes) frame ∙ navigation;
      grants = ap (λ d. d.delegated_grants) frame ∙ rest.delegated;
      provenance = ap (λ d. d.execution_authorization_provenance) frame ∙ rest.provenance;
      receipt = (r, found, rw (← is) at same);
    }

-- If an execution returns an existing message `m`, then the intent's reservation names `m`, the
-- request has the hash of the reservation or says just what `m` says, the log, the reservations, the
-- delegated grants and the provenance are as they were, and a receipt names `m`.
pub execute-existing :
    (hash : RequestHash) (now : ℕ) (identity : Identity) (request : MessageExecutionRequest)
    (db : Database) {db' : Database} {m : Message}
    → execute_message_intent hash now identity request db ≡ (db', ok (existing m))
    → IsRepeated identity request db db' m
execute-existing hash now identity request db h =
    elim (execute-inv hash now identity request db h).1 [
      | inr refused ↦ absurd refused.1
      | inl (allowed, body) ↦
          elim (admitted_intent-inv now identity request _ (ensure_grant_schema db) body).1 [
            | inl (old, again) ↦
                IsRepeated-of now identity request db
                  (repeat_intent-inv now identity request _ again)
            | inr (new, once) ↦
                absurd (first_intent-not_existing hash now identity request db _ once)
          ]
    ]
