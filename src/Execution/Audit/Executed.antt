-- ===== src/Execution/Audit/Executed.antt =====
-- An execution that creates a message leaves evidence that the audit of its intent accepts.
use conversation_blackboard.Common.{ℕ, ◌≡◌, refl, sym, ap, subst, ◌∙◌, true, none, some, and_intro}
use conversation_blackboard.Common.Eq.{==_refl, string_eq, nat_eq, option_eq}
use conversation_blackboard.Sql.{ok, find}
use conversation_blackboard.Sql.Laws.{find-append_last, find-append_numbered}
use conversation_blackboard.Sql.Exists.{count_rows-append_last}
use conversation_blackboard.Board.{Identity, Message, Database, table_exists}
use conversation_blackboard.Messages.{is_reservation}
use conversation_blackboard.Authorization.Schema.{ensure_grant_schema}
use conversation_blackboard.Execution.Types.{MessageExecutionRequest, created}
use conversation_blackboard.Execution.Record.{
  is_receipt_of, is_provenance_of, receipt_row, provenance_row, get_execution_receipt,
  get_authorization_provenance,
}
use conversation_blackboard.Execution.Execute.{RequestHash, receipt_for, execute_message_intent}
use conversation_blackboard.Execution.Outcome.{decision_on}
use conversation_blackboard.Execution.Inversion.{execute-inv}
use conversation_blackboard.Execution.SchemaKept.{
  table_exists-create_table, create_table-keeps, table_exists-schema,
}
use conversation_blackboard.Execution.Creation.{execute-created}
use conversation_blackboard.Execution.Audit.{is_blank}
use conversation_blackboard.Execution.Audit.Ingress.{verify_execution_audit_integrity}
use conversation_blackboard.Execution.Audit.Conditions.{IsSoundEvidence}
use conversation_blackboard.Execution.Audit.Valid.{verify_execution_audit_integrity-valid}
use conversation_blackboard.Execution.Audit.Added.{IsUnheard, IsAdded, created-IsAdded}
use conversation_blackboard.Execution.Audit.Delivered.{
  IsDescribed, is_bound_request-IsBoundRequest, IsAdded-IsBoundIngress,
}
use conversation_blackboard.Execution.Audit.Consumed.{IsNumbered, created-IsBoundReference}

-- A board on which the audit of the intent can come out valid: nothing is recorded of the intent yet,
-- the ids of delegated grants are unique, and the table of reservations is there.
pub record IsAuditable (request : MessageExecutionRequest) (db : Database) : Type 0 where
  pub unreceipted :
      find
        (is_receipt_of request.intent.participant_id request.intent.intent_id)
        db.execution_receipts
      ≡ none
  pub unheard : IsUnheard db request.intent.intent_id
  pub numbered : IsNumbered db.delegated_grants
  pub reservable : table_exists db "navigation_writes" ≡ true
  pub described : IsDescribed request

schema-tables :
    (db db' : Database)
    → db'.schema ≡ (ensure_grant_schema db).schema
    → table_exists db "navigation_writes" ≡ true
    → (table_exists db' "navigation_writes" ≡ true) × (table_exists db' "delegated_grants" ≡ true)
unfolding ensure_grant_schema
schema-tables db db' same there = (
  table_exists-schema "navigation_writes" db' (ensure_grant_schema db) same (
      create_table-keeps "navigation_writes" "delegated_grants" _ _
        (create_table-keeps "navigation_writes" "principal_grants" _ db there)),
  table_exists-schema "delegated_grants" db' (ensure_grant_schema db) same
      (table_exists-create_table "delegated_grants" _ _),
)

module _ (hash : RequestHash) (now : ℕ) (identity : Identity) (request : MessageExecutionRequest)
    (db : Database) where
  receipt-read :
      {db' : Database} {m : Message}
      → find
          (is_receipt_of request.intent.participant_id request.intent.intent_id)
          db.execution_receipts
        ≡ none
      → IsAdded now request db db' m
      → get_execution_receipt db' request.intent.participant_id request.intent.intent_id
        ≡ some (receipt_for request m.id)
  unfolding get_execution_receipt receipt_for
  receipt-read {m = m} unreceipted added = rw added.receipts (
      rw
        (find-append_last (is_receipt_of request.intent.participant_id request.intent.intent_id)
          db.execution_receipts (receipt_row now (receipt_for request m.id)) unreceipted
          (and_intro (==_refl request.intent.participant_id) (==_refl request.intent.intent_id)))
        refl)

  created-IsSoundEvidence :
      {db' : Database} {m : Message}
      → execute_message_intent hash now identity request db ≡ (db', ok (created m))
      → IsAuditable request db
      → IsSoundEvidence hash db' (receipt_for request m.id)
  unfolding receipt_for get_authorization_provenance
  created-IsSoundEvidence {db' = db'} {m = m} h a =
      let c = execute-created hash now identity request db h in
      let b =
        is_bound_request-IsBoundRequest hash identity request
          (execute-inv hash now identity request db h).0 in
      let added =
        created-IsAdded hash now identity request db h
          (subst (IsUnheard db) (sym b.intent) a.unheard) a.unreceipted in
      let (reservable, storable) = schema-tables db db' added.schema a.reservable in
      let p = request.intent.participant_id in
      let i = request.intent.intent_id in
      let decision = decision_on db now request in
      let principal = request.authority.principal in
      record {
        committed = refl;
        message = m;
        effect =
            rw c.log (
              find-append_numbered (λ (x : Message). x.id) db.messages m
                (ap (λ x. x.id) c.content));
        bound_effect = record {
          author = ap (λ x. x.instance_id) c.content ∙ b.participant;
          hashed =
              b.hashed
              ∙ ap (λ (x : Message). hash x.channel x.kind x.body x.conversation_ref x.reply_to)
                  (sym c.content);
        };
        reservable = reservable;
        reservation = _;
        reserved =
            ap (λ q. find (is_reservation q i) db'.navigation_writes) (sym b.participant)
            ∙ c.reservation;
        bound_reservation = record { names = refl; hashed = refl };
        single = rw added.provenance (
            count_rows-append_last (is_provenance_of p i) db.execution_authorization_provenance
              (provenance_row now (receipt_for request m.id) principal request.intent.resource
                decision)
              added.unproven (and_intro (==_refl p) (==_refl i)));
        provenance = record {
          participant_id = p;
          intent_id = i;
          principal = some principal;
          capability = some request.intent.capability;
          resource = some request.intent.resource;
          source = decision.source;
          reason = decision.reason;
          grant_id = decision.grant_id;
        };
        proven = rw c.provenance refl;
        bound_provenance = record {
          principal = principal;
          bound = refl;
          provider = ap is_blank b.provider ∙ a.described.provider;
          subject = ap is_blank b.subject ∙ a.described.subject;
          capability = refl;
          resource = ap some (b.resource ∙ sym (ap (λ x. x.channel) c.content));
          named = ap is_blank (ap (λ x. x.channel) c.content) ∙ a.described.channel;
        };
        bound_delegation =
            created-IsBoundReference hash now identity request db h c.authorized a.unreceipted
              a.numbered storable;
        bound_ingress =
            IsAdded-IsBoundIngress now request m db db' a.described a.unheard b.intent added;
      }

  -- After an execution that created a message, the audit of its intent reports it as valid, provided
  -- that no receipt and no delivery of the intent was recorded before, ids of delegated grants are
  -- unique, the table of reservations is there, and neither the channel, the participant's id, the
  -- principal nor the delivery is blank.
  pub created-verify_execution_audit_integrity :
      {db' : Database} {m : Message}
      → execute_message_intent hash now identity request db ≡ (db', ok (created m))
      → IsAuditable request db
      → (verify_execution_audit_integrity hash db' request.intent.participant_id
          request.intent.intent_id).valid
        ≡ true
  unfolding receipt_for
  created-verify_execution_audit_integrity {db' = db'} {m = m} h a =
      let c = execute-created hash now identity request db h in
      let b =
        is_bound_request-IsBoundRequest hash identity request
          (execute-inv hash now identity request db h).0 in
      let added =
        created-IsAdded hash now identity request db h
          (subst (IsUnheard db) (sym b.intent) a.unheard) a.unreceipted in
      (verify_execution_audit_integrity-valid hash db' request.intent.participant_id
          request.intent.intent_id).1
        (receipt_for request m.id, receipt-read a.unreceipted added, created-IsSoundEvidence h a)
