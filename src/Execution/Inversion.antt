-- ===== src/Execution/Inversion.antt =====
-- How an execution ended: committed after the stages of `Outcome`, or refused with no trace.
use conversation_blackboard.Common.{ℕ, ◌≡◌, subst, ◌⊎◌, inl, inr, true, arith, Bool-cases}
use conversation_blackboard.Common.Eq.{string_eq, nat_eq}
use conversation_blackboard.Sql.{Result, ok, DbError}
use conversation_blackboard.Board.{Identity, Message, Database}
use conversation_blackboard.Transaction.{TxEnd, commit, rollback}
use conversation_blackboard.Channels.{channel_metadata}
use conversation_blackboard.Authorization.Capability.{AuthorizationDecision}
use conversation_blackboard.Authorization.Schema.{ensure_grant_schema}
use conversation_blackboard.Authorization.Evaluate.{evaluate_authorization}
use conversation_blackboard.Execution.Types.{
  MessageExecutionRequest, MessageExecutionResult, intent_conflict, reply_target_not_found,
  channel_archived, authorization_denied,
}
use conversation_blackboard.Execution.Execute.{
  RequestHash, is_bound_request, finish_existing, finish_created, repeat_intent, first_intent,
  is_open, admitted_intent, decided_intent, execute_message_intent,
}
use conversation_blackboard.Execution.Frames.{in_tx-ok}
use conversation_blackboard.Execution.Outcome.{
  IsRefusal, decision_on, with_channel, with_nonce, is_reserved, reserve_nonce-old,
  reserve_nonce-new, decided_intent-commit,
}

eq_of_rollback :
    {q r : MessageExecutionResult}
    → ◌≡◌ {A = Result DbError (TxEnd MessageExecutionResult)} (ok (rollback q)) (ok (rollback r))
    → q ≡ r
eq_of_rollback e = cc

module _ (now : ℕ) (identity : Identity) (request : MessageExecutionRequest) where
  finish_existing-no_rollback :
      (message : Message) (db : Database) {r : MessageExecutionResult}
      → ¬ (finish_existing now request message db ≡ ok (rollback r))
  unfolding finish_existing
  finish_existing-no_rollback message db h = ground arith

  finish_created-no_rollback :
      (decision : AuthorizationDecision) (message : Message) (db : Database)
      {r : MessageExecutionResult}
      → ¬ (finish_created now request decision message db ≡ ok (rollback r))
  unfolding finish_created
  finish_created-no_rollback decision message db h = ground arith

  repeat_intent-rollback :
      (db : Database) {r : MessageExecutionResult}
      → repeat_intent now identity request db ≡ ok (rollback r)
      → intent_conflict ≡ r
  unfolding repeat_intent finish_existing
  repeat_intent-rollback db h = ground arith

  first_intent-rollback :
      (decision : AuthorizationDecision) (db : Database) {r : MessageExecutionResult}
      → first_intent now identity request decision db ≡ ok (rollback r)
      → reply_target_not_found ≡ r
  unfolding first_intent finish_created
  first_intent-rollback decision db h = ground arith

  decided_intent-rollback :
      (decision : AuthorizationDecision) (db : Database) {r : MessageExecutionResult}
      → decided_intent now identity request (db, decision) ≡ ok (rollback r)
      → IsRefusal r
  unfolding decided_intent admitted_intent
  decided_intent-rollback decision db {r = r} h = elim (Bool-cases decision.allowed) [
    | inr denied ↦
        let same : authorization_denied ≡ r = eq_of_rollback (ground arith) in
        subst IsRefusal same tt
    | inl allowed ↦
        elim (Bool-cases
          (is_open (channel_metadata (with_channel now identity request db) request.channel))) [
            | inr archived ↦
                let same : channel_archived ≡ r = eq_of_rollback (ground arith) in
                subst IsRefusal same tt
            | inl active ↦
                elim (Bool-cases
                  (is_reserved now identity request (with_channel now identity request db))) [
                    | inl old ↦
                        let same = repeat_intent-rollback (with_channel now identity request db) (
                          let e =
                            reserve_nonce-old now identity request
                              (with_channel now identity request db) old in
                          ground arith) in
                        subst IsRefusal same tt
                    | inr new ↦
                        let same =
                          first_intent-rollback decision (with_nonce now identity request db) (
                            let e =
                              reserve_nonce-new now identity request
                                (with_channel now identity request db) new in
                            ground arith) in
                        subst IsRefusal same tt
                  ]
          ]
  ]

module _ (hash : RequestHash) (now : ℕ) (identity : Identity) (request : MessageExecutionRequest)
    (db : Database) where
  -- A result was committed by the admitted intent, or the database is as it was.
  pub execute-inv :
      {db' : Database} {r : MessageExecutionResult}
      → execute_message_intent hash now identity request db ≡ (db', ok r)
      → (is_bound_request hash identity request ≡ true)
        × ((((decision_on db now request).allowed ≡ true)
              × (admitted_intent now identity request
                    (decision_on db now request)
                    (ensure_grant_schema db)
                  ≡ ok (commit db' r)))
            ⊎ ((db' ≡ db) × IsRefusal r))
  unfolding execute_message_intent evaluate_authorization
  execute-inv h = elim (Bool-cases (is_bound_request hash identity request)) [
    | inr unbound ↦ let gone = rw (unbound, execute_message_intent) at h in cc
    | inl bound ↦ (
      bound,
      elim (in_tx-ok db _ (rw (bound, execute_message_intent) at h)) [
        | inl done ↦ inl (
            decided_intent-commit now identity request (decision_on db now request)
              (ensure_grant_schema db) done)
        | inr undone ↦ inr (
          undone.1,
          decided_intent-rollback now identity request (decision_on db now request)
              (ensure_grant_schema db) undone.0,
        )
      ],
    )
  ]
