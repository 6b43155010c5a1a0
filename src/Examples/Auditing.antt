-- ===== src/Examples/Auditing.antt =====
-- The theorems on audits, applied to an execution that a one-shot grant allowed.
use conversation_blackboard.Common.{◌≡◌, ◌↔◌, refl, ap, Memᴰ, true, some, none, [], ◌∷◌}
use conversation_blackboard.Sql
use conversation_blackboard.Sql.{Result, ok}
use conversation_blackboard.Board
use conversation_blackboard.Board.{Database, Message, DelegatedGrant}
use conversation_blackboard.Transaction
use conversation_blackboard.Channels
use conversation_blackboard.Messages
use conversation_blackboard.Authorization.Capability
use conversation_blackboard.Authorization.Schema
use conversation_blackboard.Authorization.Implicit
use conversation_blackboard.Authorization.Delegated
use conversation_blackboard.Authorization.Evaluate
use conversation_blackboard.Execution.Types.{
  MessageExecutionRequest, MessageExecutionResult, ExecutionReceipt, created,
}
use conversation_blackboard.Execution.Record
use conversation_blackboard.Execution.Execute
use conversation_blackboard.Execution.Outcome.{new_message}
use conversation_blackboard.Text
use conversation_blackboard.Execution.Audit
use conversation_blackboard.Execution.Audit.Ingress.{verify_execution_audit_integrity}
use conversation_blackboard.Execution.Audit.Conditions.{IsSoundEvidence}
use conversation_blackboard.Execution.Audit.Valid.{verify_execution_audit_integrity-valid}
use conversation_blackboard.Execution.Audit.Consumed.{IsNumbered}
use conversation_blackboard.Execution.Audit.Executed.{
  IsAuditable, created-verify_execution_audit_integrity,
}
use conversation_blackboard.Execution.Audit.Sweep.{sweep_execution_audit_integrity}
use conversation_blackboard.Execution.Audit.Swept.{IsSwept, sweep_execution_audit_integrity-valid}
use conversation_blackboard.Examples.World.{
  alice, bot_principal, board, body_hash, post_as, one_shot_grant,
}

pair_eq : {A B : Type 0} {p : A × B} {b : B} → p.1 ≡ b → p ≡ (p.0, b)
pair_eq {p = p} e = ap (λ x. (p.0, x)) e

abbrev audited_board : Database
audited_board = record board { schema = ("navigation_writes", "nonce" ∷ []) ∷ board.schema }

abbrev post : MessageExecutionRequest
post = post_as bot_principal "d1" none

abbrev posted : Database × Result Sql.DbError MessageExecutionResult
posted = Execute.execute_message_intent body_hash 100 alice post audited_board

abbrev hello : Message
hello = new_message 100 alice post audited_board

post_runs : posted.1 ≡ ok (created hello)
unfolding Execute.execute_message_intent Execute.is_bound_request Transaction.in_tx
    Execute.decided_intent Evaluate.evaluate_authorization Schema.ensure_grant_schema
    Board.create_table Board.table_exists Board.columns_of
    Evaluate.evaluate_authorization_current_schema Evaluate.evaluate_active Evaluate.explicit_count
    Evaluate.explicit_match Evaluate.delegated_or_denied Evaluate.durable_in_scope
    Evaluate.durable_covers Evaluate.durable_before Implicit.participant_policy_row
    Implicit.is_participation_capability Implicit.is_self_authenticated Implicit.is_github_owner
    Implicit.is_web_admin Implicit.self_authority_reason Implicit.implicit_authority_reason
    Delegated.committed_receipt_exists Delegated.is_committed_for Delegated.delegated_in_scope
    Delegated.delegated_before Delegated.delegated_candidates Delegated.is_some_and
    Delegated.delegated_denial Delegated.decide_match Delegated.scan_candidates
    Delegated.is_consumable Delegated.mark_consumed Delegated.consume_delegated_grant_in_tx
    Capability.allow Capability.deny Sql.select Sql.count_rows Sql.first Sql.find Sql.exists_row
    Sql.update_where Sql.insert_by Sql.order_by Sql.next_rowid Channels.is_visibility
    Channels.insert_channel Channels.default_visibility Channels.channel_metadata
    Messages.message_by_id Messages.message_exists Messages.insert_message Messages.reserve_nonce
    Messages.bind_reservation Messages.reply_target_missing Record.record_delivery
    Record.record_receipt Record.record_execution_in_tx Record.record_authorization_provenance_in_tx
    Execute.receipt_for Execute.consume_if_given Execute.finish_created Execute.first_intent
    Execute.admitted_intent Execute.repeat_intent Execute.finish_existing
    Execute.differs_from_request Messages.find_reservation Record.is_same_delivery
    Record.is_same_receipt Messages.append_navigation_message
post_runs = refl

grants-IsNumbered : IsNumbered (one_shot_grant ∷ [])
grants-IsNumbered a b (Memᴰ.head e) (Memᴰ.head k) same = cc
grants-IsNumbered a b (Memᴰ.head e) (Memᴰ.tail k) same = elim k [ ]
grants-IsNumbered a b (Memᴰ.tail e) k same = elim e [ ]

post-IsAuditable : IsAuditable post audited_board
unfolding Sql.find Sql.exists_row Board.table_exists Board.columns_of Audit.is_blank Text.trim
    Text.trim_start Text.trim_end Text.is_whitespace
post-IsAuditable = record {
  unreceipted = refl;
  unheard = refl;
  numbered = grants-IsNumbered;
  reservable = refl;
  described = record {
    delivery = refl;
    transport = refl;
    reference = refl;
    provider = refl;
    subject = refl;
    channel = refl;
    participant = refl;
  };
}

created-verify_execution_audit_integrity_example :
    (verify_execution_audit_integrity body_hash posted.0 "alice" "intent-1").valid ≡ true
created-verify_execution_audit_integrity_example =
    created-verify_execution_audit_integrity body_hash 100 alice post audited_board
      (pair_eq post_runs) post-IsAuditable

verify_execution_audit_integrity-valid_example :
    ((verify_execution_audit_integrity body_hash posted.0 "alice" "intent-1").valid ≡ true) ↔ (
      (receipt : ExecutionReceipt) × (Record.get_execution_receipt posted.0 "alice" "intent-1"
        ≡ some receipt)
      × IsSoundEvidence body_hash posted.0 receipt)
verify_execution_audit_integrity-valid_example =
    verify_execution_audit_integrity-valid body_hash posted.0 "alice" "intent-1"

sweep_execution_audit_integrity-valid_example :
    ((sweep_execution_audit_integrity body_hash posted.0).valid ≡ true) ↔ IsSwept body_hash posted.0
sweep_execution_audit_integrity-valid_example =
    sweep_execution_audit_integrity-valid body_hash posted.0
