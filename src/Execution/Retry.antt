-- ===== src/Execution/Retry.antt =====
-- An accepted execution leaves its intent settled.
use conversation_blackboard.Common.{ℕ, ◌≡◌, refl, sym, ap, ◌∙◌, ◌⊎◌, inl, subst, true, false, some}
use conversation_blackboard.Common.Eq.{string_eq, nat_eq, option_eq}
use conversation_blackboard.Sql.{find}
use conversation_blackboard.Sql.Laws.{find-append_numbered}
use conversation_blackboard.Board.{Identity, Message, Database}
use conversation_blackboard.Channels.{channel_metadata}
use conversation_blackboard.Messages.{has_message_id, is_reservation, bind_reservation}
use conversation_blackboard.Authorization.Capability.{AuthorizationDecision}
use conversation_blackboard.Authorization.Schema.{ensure_grant_schema}
use conversation_blackboard.Execution.Types.{MessageExecutionRequest, existing}
use conversation_blackboard.Execution.Execute.{receipt_for, differs_from_request, is_open}
use conversation_blackboard.Execution.Frames.{
  FinishSteps, FinishSteps-frame, record_execution-frame, provenance-frame, consume-frame,
}
use conversation_blackboard.Execution.Outcome.{with_channel, with_nonce, with_message}
use conversation_blackboard.Execution.Creation.{IsCreated}
use conversation_blackboard.Execution.Repetition.{Repeats, existing-injective}
use conversation_blackboard.Execution.Settled.{Evidenced, Settled}
use conversation_blackboard.Execution.Evidence.{record_execution-Evidenced, Evidenced-frame}
use conversation_blackboard.Execution.SchemaKept.{
  ensure_grant_schema_again, with_channel-schema, with_nonce-frame, channel_metadata-channels,
}

-- A repetition leaves its intent settled.
pub Repeats-Settled :
    (now : ℕ) (identity : Identity) (request : MessageExecutionRequest) (db : Database)
    {db' : Database} {m : Message}
    → is_open (
        channel_metadata
          (with_channel now identity request (ensure_grant_schema db))
          request.channel)
      ≡ true
    → Repeats now identity request
        (with_channel now identity request (ensure_grant_schema db))
        db'
        (existing m)
    → Settled identity request db' m
Repeats-Settled now identity request db {db' = db'} {m = m} active s =
    let ready = with_channel now identity request (ensure_grant_schema db) in
    let is : s.message ≡ m = existing-injective (sym s.result) in
    let frame = record_execution-frame now request.ingress _ ready s.evidence in
    record {
      schema =
          ensure_grant_schema_again db db'
            (ap (λ x. x.schema) frame ∙ with_channel-schema now identity request _);
      channel_open =
          ap is_open
            (channel_metadata-channels db' ready request.channel (ap (λ x. x.channels) frame))
          ∙ active;
      stored = s.stored;
      reservation =
          ap
            (λ x.
              find (is_reservation identity.instance_id request.intent.intent_id)
                x.navigation_writes)
            frame
          ∙ s.reservation;
      message =
          ap (λ x. find (has_message_id s.stored.message_id) x.messages) frame
          ∙ s.found
          ∙ ap some is;
      agrees =
          subst
            (λ k.
              (s.stored.request_hash ≡ request.intent.request_hash)
              ⊎ (differs_from_request request k ≡ false))
            is s.agrees;
      evidence =
          subst (λ k. Evidenced request.ingress (receipt_for request k.id) db') is
            (record_execution-Evidenced now request.ingress _ ready s.evidence);
    }

-- A first execution leaves its intent settled.
pub FinishSteps-Settled :
    (now : ℕ) (identity : Identity) (request : MessageExecutionRequest) (db : Database)
    {db' : Database} {m : Message}
    → is_open (
        channel_metadata
          (with_channel now identity request (ensure_grant_schema db))
          request.channel)
      ≡ true
    → IsCreated now identity request db db' m
    → (decision : AuthorizationDecision)
    → FinishSteps now request decision m
        (with_message now identity request
          (with_nonce now identity request (ensure_grant_schema db)))
        db'
    → Settled identity request db' m
unfolding bind_reservation
FinishSteps-Settled now identity request db {db' = db'} {m = m} active c decision steps =
    let ready = with_channel now identity request (ensure_grant_schema db) in
    let begun =
      with_message now identity request
        (with_nonce now identity request (ensure_grant_schema db)) in
    let frame = FinishSteps-frame _ _ _ _ begun steps in
    let f2 = provenance-frame _ _ _ _ _ steps.evidenced steps.provenance in
    let f3 = consume-frame _ _ _ steps.proven steps.consumption in
    let reserved = with_nonce-frame now identity request (ensure_grant_schema db) in
    record {
      schema =
          ensure_grant_schema_again db db'
            (ap (λ x. x.schema) frame ∙ reserved.0 ∙ with_channel-schema now identity request _);
      channel_open =
          ap is_open (
            channel_metadata-channels db' ready request.channel
              (ap (λ x. x.channels) frame ∙ reserved.1))
          ∙ active;
      stored = record {
        instance_id = identity.instance_id;
        nonce = request.intent.intent_id;
        request_hash = request.intent.request_hash;
        message_id = m.id;
        created_at = now;
      };
      reservation = c.reservation;
      message =
          rw c.log
            (find-append_numbered (λ (x : Message). x.id) db.messages m (ap (λ x. x.id) c.content));
      agrees = inl refl;
      evidence =
          Evidenced-frame request.ingress _ steps.evidenced db'
            (ap (λ x. x.ingress_provenance) f3 ∙ ap (λ x. x.ingress_provenance) f2)
            (ap (λ x. x.execution_receipts) f3 ∙ ap (λ x. x.execution_receipts) f2)
            (record_execution-Evidenced now request.ingress _ begun steps.evidence);
    }
