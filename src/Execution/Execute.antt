-- ===== src/Execution/Execute.antt =====
-- `execute_message_intent` of execution.rs, stage by stage. The section's parameter is
-- `message_request_hash`: the SHA-256 of a JSON text, by sha2 and serde_json.
use conversation_blackboard.Common.{
  ℕ, String, Bool, false, not, ◌&&◌, ◌||◌, Option, none, some, if◌then◌else◌,
}
use conversation_blackboard.Common.Int.{ℤ}
use conversation_blackboard.Common.Eq.{◌==◌, string_eq, nat_eq, int_eq, option_eq}
use conversation_blackboard.Sql.{Result, ok, err, DbError, invalid_query, ◌>>=◌}
use conversation_blackboard.Board.{Identity, Message, ChannelMetadata, Database, principal_beq}
use conversation_blackboard.Transaction.{TxEnd, commit, rollback, in_tx}
use conversation_blackboard.Channels.{insert_channel, default_visibility, channel_metadata}
use conversation_blackboard.Messages.{
  message_by_id, insert_message, reserve_nonce, find_reservation, bind_reservation,
  reply_target_missing,
}
use conversation_blackboard.Authorization.Capability.{AuthorizationDecision, post_message}
use conversation_blackboard.Authorization.Delegated.{consume_delegated_grant_in_tx}
use conversation_blackboard.Authorization.Evaluate.{evaluate_authorization}
use conversation_blackboard.Execution.Types.{
  ExecutionReceipt, MessageExecutionRequest, MessageExecutionResult, created, existing,
  intent_conflict, reply_target_not_found, channel_archived, authorization_denied,
}
use conversation_blackboard.Execution.Record.{
  record_execution_in_tx, record_authorization_provenance_in_tx,
}

abbrev pub RequestHash : Type 0
RequestHash = String → String → String → Option String → Option ℤ → String

-- The guard in front of the transaction, as what must hold to pass it.
unfoldable pub is_bound_request : RequestHash → Identity → MessageExecutionRequest → Bool
is_bound_request message_request_hash identity request =
    principal_beq request.authority.principal request.ingress.principal
    && request.ingress.intent_id == request.intent.intent_id
    && identity.instance_id == request.intent.participant_id
    && request.intent.capability == post_message
    && request.intent.resource == request.channel
    && request.intent.request_hash
      == message_request_hash request.channel request.kind request.body
          request.intent.conversation_ref request.reply_to

-- The stored message says something else than the request.
unfoldable pub differs_from_request : MessageExecutionRequest → Message → Bool
differs_from_request request message =
    not (message.channel == request.channel)
    || not (message.kind == request.kind)
    || not (message.body == request.body)
    || not (message.reply_to == request.reply_to)
    || not (message.conversation_ref == request.intent.conversation_ref)

unfoldable pub receipt_for : MessageExecutionRequest → ℕ → ExecutionReceipt
receipt_for request message_id = record {
  participant_id = request.intent.participant_id;
  intent_id = request.intent.intent_id;
  intent_hash = request.intent.request_hash;
  capability = request.intent.capability;
  message_id = message_id;
  status = "committed";
}

unfoldable pub consume_if_given : ℕ → Option ℕ → String → Database → Result DbError Database
consume_if_given now none intent_id db = ok db
consume_if_given now (some grant_id) intent_id db =
    consume_delegated_grant_in_tx now grant_id intent_id db

-- From the receipt to the commit, for a message that was there already.
unfoldable pub finish_existing :
    ℕ → MessageExecutionRequest → Message → Database → Result DbError (TxEnd MessageExecutionResult)
finish_existing now request message db = do
  db1 ← record_execution_in_tx now request.ingress (receipt_for request message.id) db
  ok (commit db1 (existing message))

-- From the receipt to the commit, for a message that was just inserted.
unfoldable pub finish_created :
    ℕ
    → MessageExecutionRequest
    → AuthorizationDecision
    → Message
    → Database
    → Result DbError (TxEnd MessageExecutionResult)
finish_created now request decision message db = do
  let receipt = receipt_for request message.id
  db1 ← record_execution_in_tx now request.ingress receipt db
  db2 ←
      record_authorization_provenance_in_tx now receipt request.authority.principal
        request.intent.resource decision db1
  db3 ← consume_if_given now decision.consume_grant_id request.intent.intent_id db2
  ok (commit db3 (created message))

-- The branch `if reserved == 0`.
unfoldable pub repeat_intent :
    ℕ
    → Identity
    → MessageExecutionRequest
    → Database
    → Result DbError (TxEnd MessageExecutionResult)
repeat_intent now identity request db = do
  stored ← find_reservation db identity.instance_id request.intent.intent_id
  message ← message_by_id db stored.message_id
  if not (stored.request_hash == request.intent.request_hash)
        && differs_from_request request message
      then ok (rollback intent_conflict)
      else finish_existing now request message db

-- The other branch: the first execution of the intent.
unfoldable pub first_intent :
    ℕ
    → Identity
    → MessageExecutionRequest
    → AuthorizationDecision
    → Database
    → Result DbError (TxEnd MessageExecutionResult)
first_intent now identity request decision db =
    if reply_target_missing db request.reply_to
    then ok (rollback reply_target_not_found)
    else let (db1, message_id) =
        insert_message now identity request.channel request.intent.conversation_ref request.kind
          request.body request.reply_to db in
      let db2 = bind_reservation identity.instance_id request.intent.intent_id message_id db1 in
      (message_by_id db2 message_id >>= λ message. finish_created now request decision message db2)

abbrev pub is_open : Option ChannelMetadata → Bool
is_open none = false
is_open (some c) = c.status == "active"

-- From the insertion of the channel on.
unfoldable pub admitted_intent :
    ℕ
    → Identity
    → MessageExecutionRequest
    → AuthorizationDecision
    → Database
    → Result DbError (TxEnd MessageExecutionResult)
admitted_intent now identity request decision db =
    let (db1, _) =
      insert_channel now request.channel (default_visibility request.channel)
        (some identity.instance_id) db in
    if not (is_open (channel_metadata db1 request.channel))
    then ok (rollback channel_archived)
    else let (db2, reserved) =
        reserve_nonce now identity.instance_id request.intent.intent_id request.intent.request_hash
          db1 in
      (if reserved == 0
        then repeat_intent now identity request db2
        else first_intent now identity request decision db2)

-- From `if !authorization_decision.allowed` on.
unfoldable pub decided_intent :
    ℕ
    → Identity
    → MessageExecutionRequest
    → Database × AuthorizationDecision
    → Result DbError (TxEnd MessageExecutionResult)
decided_intent now identity request (db, decision) =
    if not decision.allowed
    then ok (rollback authorization_denied)
    else admitted_intent now identity request decision db

module _ (message_request_hash : RequestHash) where
  unfoldable pub execute_message_intent :
      ℕ
      → Identity
      → MessageExecutionRequest
      → Database
      → Database × Result DbError MessageExecutionResult
  execute_message_intent now identity request db =
      if not (is_bound_request message_request_hash identity request)
      then (db, err invalid_query)
      else in_tx db (
          decided_intent now identity request (
            evaluate_authorization db now request.authority.principal request.intent.participant_id
              request.intent.capability (some request.intent.resource)
              (some request.intent.intent_id)))
