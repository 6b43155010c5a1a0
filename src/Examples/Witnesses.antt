-- ===== src/Examples/Witnesses.antt =====
-- Each theorem at a concrete board.
use conversation_blackboard.Common.{
  ℕ, ◌≡◌, ◌⊎◌, inl, refl, sym, ap, subst, Memᴰ, true, none, some, Option, [], ◌∷◌,
}
use conversation_blackboard.Common.Int.{pos}
use conversation_blackboard.Sql
use conversation_blackboard.Sql.{Result, ok, err}
use conversation_blackboard.Board
use conversation_blackboard.Board.{Database, Message, Participant, DelegatedGrant}
use conversation_blackboard.Transaction
use conversation_blackboard.Channels
use conversation_blackboard.Messages
use conversation_blackboard.Authorization.Capability
use conversation_blackboard.Authorization.Schema
use conversation_blackboard.Authorization.Implicit
use conversation_blackboard.Authorization.Delegated
use conversation_blackboard.Authorization.Evaluate
use conversation_blackboard.Execution.Types.{
  MessageExecutionRequest, MessageExecutionResult, created, existing, reply_target_not_found,
}
use conversation_blackboard.Execution.Record
use conversation_blackboard.Execution.Execute
use conversation_blackboard.Execution.Outcome.{new_message, decision_on, IsRefusal}
use conversation_blackboard.Execution.Fresh.{IsFresh, execute-IsFresh}
use conversation_blackboard.Execution.Idempotence.{execute-execute}
use conversation_blackboard.Execution.Trace.{Reaches}
use conversation_blackboard.Execution.Once.{created-execute}
use conversation_blackboard.Execution.Spent.{Consumes, created-consumption, Reaches-spent}
use conversation_blackboard.Execution.Creation.{IsCreated, execute-created}
use conversation_blackboard.Execution.Refusal.{IsRefused, execute-refused_unchanged}
use conversation_blackboard.Execution.Repetition.{IsRepeated, execute-existing}
use conversation_blackboard.Authorization.Authority.{Authority}
use conversation_blackboard.Authorization.Allowed.{evaluate-allowed}
use conversation_blackboard.Examples.World.{
  alice, alice_principal, bot_principal, board, body_hash, post_as, one_shot_grant,
}

pair_eq : {A B : Type 0} {p : A × B} {b : B} → p.1 ≡ b → p ≡ (p.0, b)
pair_eq {p = p} e = ap (λ x. (p.0, x)) e

abbrev run :
    Database → ℕ → MessageExecutionRequest → Database × Result Sql.DbError MessageExecutionResult
run db now request = Execute.execute_message_intent body_hash now alice request db

abbrev first_post : MessageExecutionRequest
first_post = post_as bot_principal "d1" none

abbrev dangling_post : MessageExecutionRequest
dangling_post = post_as alice_principal "d2" (some (pos 7))

abbrev hello : Message
hello = new_message 100 alice first_post board

abbrev spent_grant : DelegatedGrant
spent_grant = record one_shot_grant {
  consumed_at = some 100;
  consumed_intent_id = some "intent-1";
  updated_at = 100;
}

-- The bot's grant lets it post; a retry after the grant's time finds the message; a reply to a
-- message that is not there is refused.
runs :
    ((run board 100 first_post).1 ≡ ok (created hello))
    × ((run (run board 100 first_post).0 600 first_post).1 ≡ ok (existing hello))
    × ((run board 100 dangling_post).1 ≡ ok reply_target_not_found)
    × ((Evaluate.evaluate_authorization_current_schema board 100 bot_principal "alice"
          Capability.post_message
          (some "general")
          (some "intent-1")).allowed
        ≡ true)
    × ((decision_on (run board 100 first_post).0 600 first_post).allowed ≡ true)
    × ((run (run (run board 100 first_post).0 200 dangling_post).0 600 first_post).1
        ≡ ok (existing hello))
    × ((run board 100 first_post).0.delegated_grants ≡ spent_grant ∷ [])
    × ((decision_on board 100 first_post).allowed ≡ true)
unfolding Execute.execute_message_intent Execute.is_bound_request Transaction.in_tx
    Execute.decided_intent Evaluate.evaluate_authorization Schema.ensure_grant_schema
    Board.create_table Board.table_exists Board.columns_of
    Evaluate.evaluate_authorization_current_schema Evaluate.evaluate_active Evaluate.explicit_count
    Evaluate.explicit_match Evaluate.delegated_or_denied Evaluate.durable_in_scope
    Evaluate.durable_covers Evaluate.durable_before Implicit.participant_policy_row
    Implicit.is_participation_capability Implicit.is_self_authenticated Implicit.is_github_owner
    Implicit.is_web_admin Implicit.self_authority_reason Implicit.implicit_authority_reason
    Delegated.committed_receipt_exists Delegated.is_committed_for Delegated.delegated_in_scope
    Delegated.delegated_before Delegated.delegated_candidates Delegated.is_some_and
    Delegated.delegated_denial Delegated.decide_match Delegated.scan_candidates
    Delegated.is_consumable Delegated.mark_consumed Delegated.consume_delegated_grant_in_tx
    Capability.allow Capability.deny Sql.select Sql.count_rows Sql.first Sql.find Sql.exists_row
    Sql.update_where Sql.insert_by Sql.order_by Sql.next_rowid Channels.is_visibility
    Channels.insert_channel Channels.default_visibility Channels.channel_metadata
    Messages.message_by_id Messages.message_exists Messages.insert_message Messages.reserve_nonce
    Messages.bind_reservation Messages.reply_target_missing Record.record_delivery
    Record.record_receipt Record.record_execution_in_tx Record.record_authorization_provenance_in_tx
    Execute.receipt_for Execute.consume_if_given Execute.finish_created Execute.first_intent
    Execute.admitted_intent Execute.repeat_intent Execute.finish_existing
    Execute.differs_from_request Messages.find_reservation Record.is_same_delivery
    Record.is_same_receipt Messages.append_navigation_message
runs = (refl, refl, refl, refl, refl, refl, refl, refl)

execute-created_example : IsCreated 100 alice first_post board (run board 100 first_post).0 hello
execute-created_example = execute-created body_hash 100 alice first_post board (pair_eq runs.0)

execute-existing_example :
    IsRepeated alice first_post
      (run board 100 first_post).0
      (run (run board 100 first_post).0 600 first_post).0
      hello
execute-existing_example =
    execute-existing body_hash 600 alice first_post (run board 100 first_post).0 (pair_eq runs.1)

execute-refused_unchanged_example : (run board 100 dangling_post).0 ≡ board
execute-refused_unchanged_example =
    execute-refused_unchanged body_hash 100 alice dangling_post board
      (subst IsRefused (sym runs.2) tt)

evaluate-allowed_example :
    (participant : Participant) × Memᴰ participant board.web_participants
    × (participant.participant_id ≡ "alice")
    × (participant.status ≡ "active")
    × Authority board 100 bot_principal "alice" Capability.post_message
        (some "general")
        (some "intent-1")
        participant
evaluate-allowed_example =
    evaluate-allowed board 100 bot_principal "alice" Capability.post_message (some "general")
      (some "intent-1") runs.3

execute-execute_example :
    run (run board 100 first_post).0 600 first_post
    ≡ ((run board 100 first_post).0, ok (existing hello))
execute-execute_example =
    execute-execute body_hash 100 alice first_post board 600 (pair_eq runs.0) (inl refl) runs.4

created-execute_example : IsRefusal (existing hello) ⊎ (existing hello ≡ existing hello)
created-execute_example =
    created-execute body_hash 100 alice first_post board (pair_eq runs.0)
      (Reaches.step Reaches.here 200 alice dangling_post) 600 first_post refl (pair_eq runs.5)

created-consumption_example :
    (((decision_on board 100 first_post).consume_grant_id ≡ none)
      × ((run board 100 first_post).0.delegated_grants ≡ board.delegated_grants))
    ⊎ ((id : ℕ) × ((decision_on board 100 first_post).consume_grant_id ≡ some id)
        × Consumes 100 "intent-1" id board.delegated_grants
            (run board 100 first_post).0.delegated_grants)
created-consumption_example =
    created-consumption body_hash 100 alice first_post board (pair_eq runs.0)

Reaches-spent_example :
    Memᴰ spent_grant (run (run board 100 first_post).0 600 first_post).0.delegated_grants
Reaches-spent_example =
    Reaches-spent body_hash (Reaches.step Reaches.here 600 alice first_post) refl
      (subst (Memᴰ spent_grant) (sym runs.6) (Memᴰ.head refl))

some_injective : {a b : ℕ} → ◌≡◌ {A = Option ℕ} (some a) (some b) → a ≡ b
some_injective e = cc

first_post-IsFresh : IsFresh 100 alice first_post board
unfolding Execute.execute_message_intent Execute.is_bound_request Transaction.in_tx
    Execute.decided_intent Evaluate.evaluate_authorization Schema.ensure_grant_schema
    Board.create_table Board.table_exists Board.columns_of
    Evaluate.evaluate_authorization_current_schema Evaluate.evaluate_active Evaluate.explicit_count
    Evaluate.explicit_match Evaluate.delegated_or_denied Evaluate.durable_in_scope
    Evaluate.durable_covers Evaluate.durable_before Implicit.participant_policy_row
    Implicit.is_participation_capability Implicit.is_self_authenticated Implicit.is_github_owner
    Implicit.is_web_admin Implicit.self_authority_reason Implicit.implicit_authority_reason
    Delegated.committed_receipt_exists Delegated.is_committed_for Delegated.delegated_in_scope
    Delegated.delegated_before Delegated.delegated_candidates Delegated.is_some_and
    Delegated.delegated_denial Delegated.decide_match Delegated.scan_candidates
    Delegated.is_consumable Delegated.mark_consumed Delegated.consume_delegated_grant_in_tx
    Capability.allow Capability.deny Sql.select Sql.count_rows Sql.first Sql.find Sql.exists_row
    Sql.update_where Sql.insert_by Sql.order_by Sql.next_rowid Channels.is_visibility
    Channels.insert_channel Channels.default_visibility Channels.channel_metadata
    Messages.message_by_id Messages.message_exists Messages.insert_message Messages.reserve_nonce
    Messages.bind_reservation Messages.reply_target_missing Record.record_delivery
    Record.record_receipt Record.record_execution_in_tx Record.record_authorization_provenance_in_tx
    Execute.receipt_for Execute.consume_if_given Execute.finish_created Execute.first_intent
    Execute.admitted_intent Execute.repeat_intent Execute.finish_existing
    Execute.differs_from_request Messages.find_reservation Record.is_same_delivery
    Record.is_same_receipt Messages.append_navigation_message
first_post-IsFresh = record {
  active = refl;
  unreserved = refl;
  answerable = refl;
  undelivered = refl;
  unreceipted = refl;
  unproven = refl;
  consumable = λ id e.
      subst (λ k. Sql.count_rows (Delegated.is_consumable k) board.delegated_grants ≡ 1)
        (some_injective e) refl;
}

first_post-bound : Execute.is_bound_request body_hash alice first_post ≡ true
unfolding Execute.is_bound_request
first_post-bound = refl

execute-IsFresh_example : (run board 100 first_post).1 ≡ ok (created hello)
execute-IsFresh_example =
    execute-IsFresh body_hash 100 alice first_post board first_post-bound runs.7 first_post-IsFresh
