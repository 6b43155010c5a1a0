-- ===== src/Execution/Idempotence.antt =====
-- An intent that was accepted can be executed again without any change.
use conversation_blackboard.Common.{ℕ, ◌≡◌, ◌⊎◌, inl, inr, true, ap, ◌∙◌}
use conversation_blackboard.Sql.{ok}
use conversation_blackboard.Board.{Identity, Message, Database}
use conversation_blackboard.Authorization.Schema.{ensure_grant_schema}
use conversation_blackboard.Execution.Types.{
  MessageExecutionRequest, MessageExecutionResult, created, existing,
}
use conversation_blackboard.Execution.Execute.{RequestHash, execute_message_intent}
use conversation_blackboard.Execution.Outcome.{decision_on, admitted_intent-inv}
use conversation_blackboard.Execution.Inversion.{execute-inv}
use conversation_blackboard.Execution.Creation.{execute-created}
use conversation_blackboard.Execution.Repetition.{repeat_intent-inv, first_intent-not_existing}
use conversation_blackboard.Execution.Settled.{Settled, execute-Settled}
use conversation_blackboard.Execution.Accepted.{created-steps}
use conversation_blackboard.Execution.Retry.{Repeats-Settled, FinishSteps-Settled}

module _ (hash : RequestHash) (now : ℕ) (identity : Identity) (request : MessageExecutionRequest)
    (db : Database) where
  created-Settled :
      {db' : Database} {m : Message}
      → execute_message_intent hash now identity request db ≡ (db', ok (created m))
      → Settled identity request db' m
  created-Settled h =
      let made = created-steps hash now identity request db h in
      FinishSteps-Settled now identity request db made.active
        (execute-created hash now identity request db h) (decision_on db now request) made.steps

  existing-Settled :
      {db' : Database} {m : Message}
      → execute_message_intent hash now identity request db ≡ (db', ok (existing m))
      → Settled identity request db' m
  existing-Settled {db' = db'} {m = m} h = elim (execute-inv hash now identity request db h).1 [
    | inr refused ↦ absurd refused.1
    | inl (allowed, body) ↦
        let (active, ways) =
          admitted_intent-inv now identity request _ (ensure_grant_schema db) body in
        elim ways [
          | inl (old, again) ↦
              Repeats-Settled now identity request db active
                (repeat_intent-inv now identity request _ again)
          | inr (new, once) ↦ absurd (first_intent-not_existing hash now identity request db _ once)
        ]
  ]

  -- If an execution creates `m` or returns it as existing, then the same request, executed at any
  -- time on the database it left, returns `m` as existing and changes nothing, provided that it is
  -- authorized then.
  pub execute-execute :
      (later : ℕ) {db' : Database} {r : MessageExecutionResult} {m : Message}
      → execute_message_intent hash now identity request db ≡ (db', ok r)
      → (r ≡ created m) ⊎ (r ≡ existing m)
      → (decision_on db' later request).allowed ≡ true
      → execute_message_intent hash later identity request db' ≡ (db', ok (existing m))
  execute-execute later {db' = db'} {r = r} {m = m} h accepted allowed =
      let (bound, rest) = execute-inv hash now identity request db h in
      execute-Settled hash later identity request db' bound allowed (elim accepted [
        | inl new ↦ created-Settled (h ∙ ap (λ k. (db', ok k)) new)
        | inr old ↦ existing-Settled (h ∙ ap (λ k. (db', ok k)) old)
      ])
