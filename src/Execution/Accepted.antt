-- ===== src/Execution/Accepted.antt =====
-- The outcomes of an execution: nothing happened, a message was found, or a message was created.
use conversation_blackboard.Common.{
  ℕ, ◌≡◌, refl, sym, ap, subst, ◌∙◌, ◌⊎◌, inl, inr, true, [], ◌∷◌, ◌++◌,
}
use conversation_blackboard.Sql.{Result, ok, err, DbError, update_where}
use conversation_blackboard.Board.{Identity, Message, Database}
use conversation_blackboard.Channels.{channel_metadata}
use conversation_blackboard.Messages.{is_reservation, set_message_id, bind_reservation}
use conversation_blackboard.Authorization.Schema.{ensure_grant_schema}
use conversation_blackboard.Execution.Types.{
  MessageExecutionRequest, MessageExecutionResult, created, existing, intent_conflict,
  reply_target_not_found, channel_archived, authorization_denied,
}
use conversation_blackboard.Execution.Execute.{RequestHash, is_open, execute_message_intent}
use conversation_blackboard.Execution.Outcome.{
  decision_on, with_channel, with_nonce, with_message, first_intent-inv, admitted_intent-inv,
}
use conversation_blackboard.Execution.Frames.{FinishSteps, FinishSteps-frame, finish_created-steps}
use conversation_blackboard.Execution.Inversion.{execute-inv}
use conversation_blackboard.Execution.Creation.{
  execute-created, repeat_intent-not_created, created-injective,
}
use conversation_blackboard.Execution.Reserving.{with_nonce-navigation, reservation_row}
use conversation_blackboard.Execution.Refusal.{IsRefused, execute-refused_unchanged}

-- How a first execution went through its stages.
pub record CreatedSteps (now : ℕ) (identity : Identity) (request : MessageExecutionRequest)
    (db db' : Database) (m : Message) : Type 0 where
  pub active :
      is_open (
        channel_metadata
          (with_channel now identity request (ensure_grant_schema db))
          request.channel)
      ≡ true
  pub steps :
      FinishSteps now request
        (decision_on db now request)
        m
        (with_message now identity request
          (with_nonce now identity request (ensure_grant_schema db)))
        db'

-- A result is refused, or it is a message that was found, or one that was created.
IsRefused-cases :
    (x : Result DbError MessageExecutionResult)
    → IsRefused x
      ⊎ (((m : Message) × (x ≡ ok (existing m))) ⊎ ((m : Message) × (x ≡ ok (created m))))
IsRefused-cases (ok (created m)) = inr (inr (m, refl))
IsRefused-cases (ok (existing m)) = inr (inl (m, refl))
IsRefused-cases (ok intent_conflict) = inl tt
IsRefused-cases (ok reply_target_not_found) = inl tt
IsRefused-cases (ok channel_archived) = inl tt
IsRefused-cases (ok authorization_denied) = inl tt
IsRefused-cases (err e) = inl tt

module _ (hash : RequestHash) (now : ℕ) (identity : Identity) (request : MessageExecutionRequest)
    (db : Database) where
  pub created-steps :
      {db' : Database} {m : Message}
      → execute_message_intent hash now identity request db ≡ (db', ok (created m))
      → CreatedSteps now identity request db db' m
  created-steps {db' = db'} {m = m} h = elim (execute-inv hash now identity request db h).1 [
    | inr refused ↦ absurd refused.1
    | inl (allowed, body) ↦
        let (active, ways) =
          admitted_intent-inv now identity request _ (ensure_grant_schema db) body in
        elim ways [
          | inl (old, again) ↦ absurd (repeat_intent-not_created now identity request _ again)
          | inr (new, once) ↦
              let reserved = with_nonce now identity request (ensure_grant_schema db) in
              let (there, finish) =
                first_intent-inv now identity request (decision_on db now request) reserved once in
              let (same, steps) = finish_created-steps now request _ _ _ finish in
              record {
                active = active;
                steps =
                    subst
                      (λ k.
                        FinishSteps now request (decision_on db now request) k
                          (with_message now identity request reserved) db')
                      (sym (created-injective same)) steps;
              }
        ]
  ]

  -- The reservations after a first execution: the old ones and the one it bound.
  pub created-reservations :
      {db' : Database} {m : Message}
      → execute_message_intent hash now identity request db ≡ (db', ok (created m))
      → (id : ℕ) × (db'.navigation_writes
          ≡ update_where
              (is_reservation identity.instance_id request.intent.intent_id)
              (set_message_id id)
              (db.navigation_writes ++ reservation_row now identity request 0 ∷ []))
  unfolding bind_reservation
  created-reservations h =
      let made = created-steps h in
      let c = execute-created hash now identity request db h in
      let frame = FinishSteps-frame _ _ _ _ _ made.steps in
      (
        _,
        ap (λ x. x.navigation_writes) frame
            ∙ ap
                (update_where (is_reservation identity.instance_id request.intent.intent_id)
                  (set_message_id _))
                (with_nonce-navigation now identity request db c.unreserved),
      )

  abbrev pub outcome : Database × Result DbError MessageExecutionResult
  outcome = execute_message_intent hash now identity request db

  -- What an execution does is nothing, or a repetition, or a creation.
  pub execute-cases :
      (outcome.0 ≡ db)
      ⊎ (((m : Message) × (outcome ≡ (outcome.0, ok (existing m))))
          ⊎ ((m : Message) × (outcome ≡ (outcome.0, ok (created m)))))
  execute-cases = elim (IsRefused-cases outcome.1) [
    | inl refused ↦ inl (execute-refused_unchanged hash now identity request db refused)
    | inr (inl (m, e)) ↦ inr (inl (m, ap (λ x. (outcome.0, x)) e))
    | inr (inr (m, e)) ↦ inr (inr (m, ap (λ x. (outcome.0, x)) e))
  ]
