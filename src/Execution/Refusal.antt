-- ===== src/Execution/Refusal.antt =====
-- Executions that end in an error or a refusal leave no trace.
use conversation_blackboard.Common.{ℕ, ◌≡◌, refl, subst, inl, inr, some, arith, Bool-cases}
use conversation_blackboard.Sql.{Result, ok, err, DbError}
use conversation_blackboard.Board.{Identity, Database}
use conversation_blackboard.Transaction.{TxEnd, commit, rollback, in_tx}
use conversation_blackboard.Authorization.Capability.{AuthorizationDecision}
use conversation_blackboard.Authorization.Evaluate.{evaluate_authorization}
use conversation_blackboard.Execution.Types.{MessageExecutionRequest, MessageExecutionResult}
use conversation_blackboard.Execution.Execute.{
  RequestHash, is_bound_request, finish_existing, repeat_intent, decided_intent,
  execute_message_intent,
}
use conversation_blackboard.Execution.Frames.{finish_created-steps}
use conversation_blackboard.Execution.Outcome.{
  IsRefusal, first_intent-inv, admitted_intent-inv, decided_intent-commit,
}

-- An error, or a result other than a created or an existing message.
abbrev pub IsRefused : Result DbError MessageExecutionResult → Type 0
IsRefused (ok r) = IsRefusal r
IsRefused (err e) = Unit

module _ (now : ℕ) (identity : Identity) (request : MessageExecutionRequest) where
  repeat_intent-commit :
      (db : Database) {db' : Database} {r : MessageExecutionResult}
      → repeat_intent now identity request db ≡ ok (commit db' r)
      → ¬ IsRefusal r
  unfolding repeat_intent finish_existing
  repeat_intent-commit db h = ground arith

  decided_intent-no-IsRefusal :
      (decision : AuthorizationDecision) (db : Database) {db' : Database}
      {r : MessageExecutionResult}
      → decided_intent now identity request (db, decision) ≡ ok (commit db' r)
      → ¬ IsRefusal r
  decided_intent-no-IsRefusal decision db {r = r} h refusal =
      let (allowed, body) = decided_intent-commit now identity request decision db h in
      elim (admitted_intent-inv now identity request decision db body).1 [
        | inl (old, again) ↦ repeat_intent-commit _ again refusal
        | inr (new, once) ↦
            let (there, finish) = first_intent-inv now identity request decision _ once in
            let (made, steps) = finish_created-steps now request decision _ _ finish in
            subst IsRefusal made refusal
      ]

in_tx-refused :
    (db : Database) (body : Result DbError (TxEnd MessageExecutionResult))
    → ((d : Database) (r : MessageExecutionResult) → body ≡ ok (commit d r) → ¬ IsRefusal r)
    → IsRefused (in_tx db body).1
    → (in_tx db body).0 ≡ db
unfolding in_tx
in_tx-refused db (ok (commit d r)) never refused = absurd (never d r refl refused)
in_tx-refused db (ok (rollback r)) never refused = refl
in_tx-refused db (err e) never refused = refl

-- An execution that fails, or that answers with a conflict, a missing reply target, an archived
-- channel or a denial, leaves the whole database as it was.
pub execute-refused_unchanged :
    (hash : RequestHash) (now : ℕ) (identity : Identity) (request : MessageExecutionRequest)
    (db : Database)
    → IsRefused (execute_message_intent hash now identity request db).1
    → (execute_message_intent hash now identity request db).0 ≡ db
unfolding execute_message_intent
execute-refused_unchanged hash now identity request db =
    elim (Bool-cases (is_bound_request hash identity request)) [
      | inr unbound ↦ rw unbound (λ _. refl)
      | inl bound ↦ rw bound (
          in_tx-refused db _ (λ d r.
            decided_intent-no-IsRefusal now identity request
              (evaluate_authorization db now request.authority.principal
                request.intent.participant_id request.intent.capability
                (some request.intent.resource) (some request.intent.intent_id)).1
              _))
    ]
