-- ===== src/Execution/Outcome.antt =====
-- What a committed execution went through, stage by stage.
use conversation_blackboard.Common.{
  ℕ, ◌≡◌, refl, ◌⊎◌, inl, inr, Bool, true, false, some, [], ◌∷◌, ◌++◌, arith, Bool-cases,
}
use conversation_blackboard.Common.Eq.{string_eq, nat_eq}
use conversation_blackboard.Sql.{ok, exists_row, next_rowid}
use conversation_blackboard.Sql.Laws.{find-append_numbered}
use conversation_blackboard.Board.{Identity, Message, Database}
use conversation_blackboard.Transaction.{commit}
use conversation_blackboard.Channels.{insert_channel, default_visibility, channel_metadata}
use conversation_blackboard.Messages.{
  message_by_id, insert_message, reserve_nonce, bind_reservation, is_reservation,
  reply_target_missing,
}
use conversation_blackboard.Authorization.Capability.{AuthorizationDecision}
use conversation_blackboard.Authorization.Schema.{ensure_grant_schema}
use conversation_blackboard.Authorization.Evaluate.{evaluate_authorization_current_schema}
use conversation_blackboard.Execution.Types.{
  MessageExecutionRequest, MessageExecutionResult, created, existing, intent_conflict,
  reply_target_not_found, channel_archived, authorization_denied,
}
use conversation_blackboard.Execution.Execute.{
  finish_created, repeat_intent, first_intent, is_open, admitted_intent, decided_intent,
}

-- The decision that an execution asks for.
abbrev pub decision_on : Database → ℕ → MessageExecutionRequest → AuthorizationDecision
decision_on db now request =
    evaluate_authorization_current_schema (ensure_grant_schema db) now request.authority.principal
      request.intent.participant_id request.intent.capability (some request.intent.resource)
      (some request.intent.intent_id)

-- A result that leaves no trace.
abbrev pub IsRefusal : MessageExecutionResult → Type 0
IsRefusal (created m) = ⊥
IsRefusal (existing m) = ⊥
IsRefusal intent_conflict = Unit
IsRefusal reply_target_not_found = Unit
IsRefusal channel_archived = Unit
IsRefusal authorization_denied = Unit

-- The message that a first execution appends.
abbrev pub new_message : ℕ → Identity → MessageExecutionRequest → Database → Message
new_message now identity request db = record {
  id = next_rowid (λ (m : Message). m.id) db.messages;
  created_at = now;
  channel = request.channel;
  source = identity.source;
  instance_id = identity.instance_id;
  conversation_ref = request.intent.conversation_ref;
  kind = request.kind;
  body = request.body;
  reply_to = request.reply_to;
}

module _ (now : ℕ) (identity : Identity) (request : MessageExecutionRequest) where
  -- The database with the channel in place, and with the nonce reserved or found.
  abbrev pub with_channel : Database → Database
  with_channel db =
      (insert_channel now request.channel (default_visibility request.channel)
        (some identity.instance_id) db).0

  abbrev pub with_nonce : Database → Database
  with_nonce db =
      (reserve_nonce now identity.instance_id request.intent.intent_id request.intent.request_hash
        (with_channel db)).0

  abbrev pub with_message : Database → Database
  with_message db =
      bind_reservation identity.instance_id request.intent.intent_id
        (new_message now identity request db).id
        (record db { messages = db.messages ++ new_message now identity request db ∷ [] })

  -- A new message is found under its id.
  pub message_by_id-new :
      (db : Database)
      → message_by_id (with_message db) (new_message now identity request db).id
        ≡ ok (new_message now identity request db)
  unfolding message_by_id bind_reservation
  message_by_id-new db =
      let found =
        find-append_numbered (λ (m : Message). m.id) db.messages
          (new_message now identity request db) refl in
      rw found

  pub first_intent-inv :
      (decision : AuthorizationDecision) (db : Database) {db' : Database}
      {r : MessageExecutionResult}
      → first_intent now identity request decision db ≡ ok (commit db' r)
      → (reply_target_missing db request.reply_to ≡ false)
        × (finish_created now request decision
              (new_message now identity request db)
              (with_message db)
            ≡ ok (commit db' r))
  unfolding first_intent insert_message
  first_intent-inv decision db h = elim (Bool-cases (reply_target_missing db request.reply_to)) [
    | inl missing ↦ let gone = rw (missing, first_intent) at h in cc
    | inr there ↦
        let rest = rw (there, first_intent) at h in (there, rw (message_by_id-new db) at rest)
  ]

  -- Whether the intent's nonce was reserved before.
  abbrev pub is_reserved : Database → Bool
  is_reserved db =
      exists_row (is_reservation identity.instance_id request.intent.intent_id) db.navigation_writes

  pub reserve_nonce-old :
      (db : Database)
      → is_reserved db ≡ true
      → reserve_nonce now identity.instance_id request.intent.intent_id request.intent.request_hash
          db
        ≡ (db, 0)
  unfolding reserve_nonce
  reserve_nonce-old db h = rw h

  pub reserve_nonce-new :
      (db : Database)
      → is_reserved db ≡ false
      → (reserve_nonce now identity.instance_id request.intent.intent_id request.intent.request_hash
          db).1
        ≡ 1
  unfolding reserve_nonce
  reserve_nonce-new db h = rw h

  pub admitted_intent-inv :
      (decision : AuthorizationDecision) (db : Database) {db' : Database}
      {r : MessageExecutionResult}
      → admitted_intent now identity request decision db ≡ ok (commit db' r)
      → (is_open (channel_metadata (with_channel db) request.channel) ≡ true)
        × (((is_reserved (with_channel db) ≡ true)
              × (repeat_intent now identity request (with_channel db) ≡ ok (commit db' r)))
            ⊎ ((is_reserved (with_channel db) ≡ false)
                × (first_intent now identity request decision (with_nonce db) ≡ ok (commit db' r))))
  unfolding admitted_intent
  admitted_intent-inv decision db h =
      elim (Bool-cases (is_open (channel_metadata (with_channel db) request.channel))) [
        | inr archived ↦ let gone = rw (archived, admitted_intent) at h in cc
        | inl active ↦ elim (Bool-cases (is_reserved (with_channel db))) [
          | inl old ↦ (
            active,
            inl (old, rw (active, reserve_nonce-old (with_channel db) old, admitted_intent) at h),
          )
          | inr new ↦ (
            active,
            inr (new, rw (active, reserve_nonce-new (with_channel db) new, admitted_intent) at h),
          )
        ]
      ]

  pub decided_intent-commit :
      (decision : AuthorizationDecision) (db : Database) {db' : Database}
      {r : MessageExecutionResult}
      → decided_intent now identity request (db, decision) ≡ ok (commit db' r)
      → (decision.allowed ≡ true)
        × (admitted_intent now identity request decision db ≡ ok (commit db' r))
  unfolding decided_intent
  decided_intent-commit decision db h = ground arith
