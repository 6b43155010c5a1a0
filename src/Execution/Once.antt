-- ===== src/Execution/Once.antt =====
-- An intent creates at most one message, whatever is executed in between.
use conversation_blackboard.Common.{ℕ, String, ◌≡◌, sym, ap, ◌∙◌, ◌⊎◌, inl, inr, some, subst}
use conversation_blackboard.Sql.{ok, find}
use conversation_blackboard.Sql.Laws.{exists_row-find, find-append_numbered}
use conversation_blackboard.Board.{Identity, Message, NavigationWrite, Database}
use conversation_blackboard.Messages.{is_reservation, has_message_id}
use conversation_blackboard.Execution.Types.{
  MessageExecutionRequest, MessageExecutionResult, created, existing, intent_conflict,
  reply_target_not_found, channel_archived, authorization_denied,
}
use conversation_blackboard.Execution.Execute.{RequestHash, execute_message_intent}
use conversation_blackboard.Execution.Outcome.{IsRefusal}
use conversation_blackboard.Execution.Creation.{execute-created}
use conversation_blackboard.Execution.Repetition.{execute-existing}
use conversation_blackboard.Execution.Trace.{
  Reaches, Reaches-keeps, execute-message, execute-reservation,
}

-- The intent `nonce` of `instance_id` has the message `m`.
pub record Bound (instance_id nonce : String) (m : Message) (db : Database) : Type 0 where
  pub stored : NavigationWrite
  pub reservation : find (is_reservation instance_id nonce) db.navigation_writes ≡ some stored
  pub message : find (has_message_id stored.message_id) db.messages ≡ some m

created-Bound :
    (hash : RequestHash) (now : ℕ) (identity : Identity) (request : MessageExecutionRequest)
    (db : Database) {db' : Database} {m : Message}
    → execute_message_intent hash now identity request db ≡ (db', ok (created m))
    → Bound identity.instance_id request.intent.intent_id m db'
created-Bound hash now identity request db {m = m} h =
    let c = execute-created hash now identity request db h in
    record {
      stored = record {
        instance_id = identity.instance_id;
        nonce = request.intent.intent_id;
        request_hash = request.intent.request_hash;
        message_id = m.id;
        created_at = now;
      };
      reservation = c.reservation;
      message =
          ap (find (has_message_id m.id)) c.log
          ∙ find-append_numbered (λ (x : Message). x.id) db.messages m (ap (λ x. x.id) c.content);
    }

execute-Bound :
    (hash : RequestHash) (now : ℕ) (identity : Identity) (request : MessageExecutionRequest)
    (instance_id nonce : String) (m : Message) (db : Database)
    → Bound instance_id nonce m db
    → Bound instance_id nonce m (execute_message_intent hash now identity request db).0
execute-Bound hash now identity request instance_id nonce m db b = record {
  stored = b.stored;
  reservation = execute-reservation hash now identity request db instance_id nonce b.reservation;
  message =
      execute-message hash now identity request db (has_message_id b.stored.message_id) b.message;
}

-- An execution of a bound intent is refused or returns the intent's message.
Bound-execute :
    (hash : RequestHash) (now : ℕ) (identity : Identity) (request : MessageExecutionRequest)
    (db : Database) {m : Message}
    → Bound identity.instance_id request.intent.intent_id m db
    → (r : MessageExecutionResult) {db' : Database}
    → execute_message_intent hash now identity request db ≡ (db', ok r)
    → IsRefusal r ⊎ (r ≡ existing m)
Bound-execute hash now identity request db b (created n) h =
    let there =
      exists_row-find (is_reservation identity.instance_id request.intent.intent_id)
        db.navigation_writes b.reservation in
    let fresh = (execute-created hash now identity request db h).unreserved in cc
Bound-execute hash now identity request db {m = m} b (existing n) h =
    let again = execute-existing hash now identity request db h in
    let same : some b.stored ≡ some again.stored = sym b.reservation ∙ again.reservation in
    let stored : b.stored ≡ again.stored = cc in
    let found = ap (λ k. find (has_message_id k.message_id) db.messages) stored in
    let both : some n ≡ some m = sym again.message ∙ sym found ∙ b.message in inr (cc)
Bound-execute hash now identity request db b intent_conflict h = inl tt
Bound-execute hash now identity request db b reply_target_not_found h = inl tt
Bound-execute hash now identity request db b channel_archived h = inl tt
Bound-execute hash now identity request db b authorization_denied h = inl tt

-- Once an execution has created `m`, then after any further executions, a request of the same
-- participant identity with the same intent id, whatever else it says, that returns a result is
-- refused, or returns `m` as existing.
pub created-execute :
    (hash : RequestHash) (now : ℕ) (identity : Identity) (request : MessageExecutionRequest)
    (db : Database) {db1 db2 db3 : Database} {m : Message}
    → execute_message_intent hash now identity request db ≡ (db1, ok (created m))
    → Reaches hash db1 db2
    → (later : ℕ) (again : MessageExecutionRequest) {r : MessageExecutionResult}
    → again.intent.intent_id ≡ request.intent.intent_id
    → execute_message_intent hash later identity again db2 ≡ (db3, ok r)
    → IsRefusal r ⊎ (r ≡ existing m)
created-execute hash now identity request db {db2 = db2} {m = m} first between later again {r = r}
      same second =
    let bound =
      Reaches-keeps hash (Bound identity.instance_id request.intent.intent_id m)
        (λ n i q x b. execute-Bound hash n i q identity.instance_id request.intent.intent_id m x b)
        between (created-Bound hash now identity request db first) in
    Bound-execute hash later identity again db2
      (subst (λ k. Bound identity.instance_id k m db2) (sym same) bound) r second
