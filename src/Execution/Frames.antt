-- ===== src/Execution/Frames.antt =====
-- Which tables each stage of an execution writes, and how a transaction's outcome is read back.
use conversation_blackboard.Common.{
  ℕ, String, ◌≡◌, refl, ap, ◌∙◌, ◌⊎◌, inl, inr, Option, none, some, arith,
}
use conversation_blackboard.Sql.{Result, ok, err, ◌>>=◌}
use conversation_blackboard.Board.{Message, Principal, Database}
use conversation_blackboard.Transaction.{TxEnd, commit, rollback, in_tx}
use conversation_blackboard.Authorization.Capability.{AuthorizationDecision}
use conversation_blackboard.Authorization.Delegated.{consume_delegated_grant_in_tx}
use conversation_blackboard.Execution.Types.{
  IngressProvenance, ExecutionReceipt, MessageExecutionRequest, MessageExecutionResult, created,
}
use conversation_blackboard.Execution.Record.{
  record_delivery, record_receipt, record_execution_in_tx, record_authorization_provenance_in_tx,
}
use conversation_blackboard.Execution.Execute.{receipt_for, consume_if_given, finish_created}

pub bind-ok :
    {E A B : Type 0} (m : Result E A) (f : A → Result E B) {b : B}
    → (m >>= f) ≡ ok b
    → (a : A) × (m ≡ ok a) × (f a ≡ ok b)
bind-ok (ok a) f h = (a, refl, h)
bind-ok (err e) f h = cc

pub ok-or-err : {E A : Type 0} (m : Result E A) → ((a : A) × (m ≡ ok a)) ⊎ ((e : E) × (m ≡ err e))
ok-or-err (ok a) = inl (a, refl)
ok-or-err (err e) = inr (e, refl)

-- A transaction that ended with a result either committed it or rolled back.
pub in_tx-ok :
    {E R : Type 0} (db : Database) (body : Result E (TxEnd R)) {db' : Database} {r : R}
    → in_tx db body ≡ (db', ok r)
    → (body ≡ ok (commit db' r)) ⊎ ((body ≡ ok (rollback r)) × (db' ≡ db))
unfolding in_tx
in_tx-ok db (ok (commit d s)) h = inl (cc)
in_tx-ok db (ok (rollback s)) h = inr (cc, cc)
in_tx-ok db (err e) h = cc

pub record_delivery-frame :
    (now : ℕ) (ingress : IngressProvenance) (receipt : ExecutionReceipt) (db : Database)
    {db' : Database}
    → record_delivery now ingress receipt db ≡ ok db'
    → db' ≡ record db { ingress_provenance = db'.ingress_provenance }
unfolding record_delivery
record_delivery-frame now ingress receipt db h = ground arith

pub record_receipt-frame :
    (now : ℕ) (receipt : ExecutionReceipt) (db : Database) {db' : Database}
    → record_receipt now receipt db ≡ ok db'
    → db' ≡ record db { execution_receipts = db'.execution_receipts }
unfolding record_receipt
record_receipt-frame now receipt db h = ground arith

pub record_execution-frame :
    (now : ℕ) (ingress : IngressProvenance) (receipt : ExecutionReceipt) (db : Database)
    {db' : Database}
    → record_execution_in_tx now ingress receipt db ≡ ok db'
    → db' ≡ record db {
      ingress_provenance = db'.ingress_provenance;
      execution_receipts = db'.execution_receipts;
    }
unfolding record_execution_in_tx
record_execution-frame now ingress receipt db h =
    let (db1, first, second) = bind-ok _ _ h in
    let e1 = record_delivery-frame now ingress receipt db first in
    let e2 = record_receipt-frame now receipt db1 second in ground arith

pub provenance-frame :
    (now : ℕ) (receipt : ExecutionReceipt) (principal : Principal) (resource : String)
    (decision : AuthorizationDecision) (db : Database) {db' : Database}
    → record_authorization_provenance_in_tx now receipt principal resource decision db ≡ ok db'
    → db'
      ≡ record db { execution_authorization_provenance = db'.execution_authorization_provenance }
unfolding record_authorization_provenance_in_tx
provenance-frame now receipt principal resource decision db h = ground arith

pub consume-frame :
    (now : ℕ) (grant_id : Option ℕ) (intent_id : String) (db : Database) {db' : Database}
    → consume_if_given now grant_id intent_id db ≡ ok db'
    → db' ≡ record db { delegated_grants = db'.delegated_grants }
unfolding consume_if_given consume_delegated_grant_in_tx
consume-frame now none intent_id db h = ground arith
consume-frame now (some g) intent_id db h = ground arith

-- The steps of `finish_created`, each with the database that it ended in.
pub record FinishSteps (now : ℕ) (request : MessageExecutionRequest)
    (decision : AuthorizationDecision) (message : Message) (before after : Database) : Type 0 where
  pub evidenced : Database
  pub proven : Database
  pub evidence :
      record_execution_in_tx now request.ingress (receipt_for request message.id) before
      ≡ ok evidenced
  pub provenance :
      record_authorization_provenance_in_tx now
        (receipt_for request message.id)
        request.authority.principal
        request.intent.resource
        decision
        evidenced
      ≡ ok proven
  pub consumption :
      consume_if_given now decision.consume_grant_id request.intent.intent_id proven ≡ ok after

pub finish_created-steps :
    (now : ℕ) (request : MessageExecutionRequest) (decision : AuthorizationDecision)
    (message : Message) (db : Database) {db' : Database} {r : MessageExecutionResult}
    → finish_created now request decision message db ≡ ok (commit db' r)
    → (r ≡ created message) × FinishSteps now request decision message db db'
unfolding finish_created
finish_created-steps now request decision message db {db' = db'} h =
    elim (ok-or-err
      (record_execution_in_tx now request.ingress (receipt_for request message.id) db)) [
        | inr (e, failed) ↦ absurd (ground arith)
        | inl (db1, e1) ↦
            elim (ok-or-err (
              record_authorization_provenance_in_tx now (receipt_for request message.id)
                request.authority.principal request.intent.resource decision db1)) [
                  | inr (e, failed) ↦ absurd (ground arith)
                  | inl (db2, e2) ↦
                      elim (ok-or-err (
                        consume_if_given now decision.consume_grant_id request.intent.intent_id
                          db2)) [
                            | inr (e, failed) ↦ absurd (ground arith)
                            | inl (db3, e3) ↦ (
                              ground arith,
                              record {
                                evidenced = db1;
                                proven = db2;
                                evidence = e1;
                                provenance = e2;
                                consumption = e3 ∙ ap ok (ground arith);
                              },
                            )
                          ]
                ]
      ]

-- The tables that the last stage of a first execution writes.
pub FinishSteps-frame :
    (now : ℕ) (request : MessageExecutionRequest) (decision : AuthorizationDecision)
    (message : Message) (db : Database) {db' : Database}
    → FinishSteps now request decision message db db'
    → db' ≡ record db {
      ingress_provenance = db'.ingress_provenance;
      execution_receipts = db'.execution_receipts;
      execution_authorization_provenance = db'.execution_authorization_provenance;
      delegated_grants = db'.delegated_grants;
    }
FinishSteps-frame now request decision message db s =
    let e1 = record_execution-frame _ _ _ db s.evidence in
    let e2 = provenance-frame _ _ _ _ _ s.evidenced s.provenance in
    let e3 = consume-frame _ _ _ s.proven s.consumption in ground arith
