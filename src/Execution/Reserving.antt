-- ===== src/Execution/Reserving.antt =====
-- What reserving a nonce, inserting the message and binding the two do to the tables.
use conversation_blackboard.Common.{
  ℕ, ◌≡◌, refl, ◌∙◌, inl, inr, Bool, false, some, [], ◌∷◌, ◌++◌, arith, and_intro, Bool-cases,
  if◌then◌else◌,
}
use conversation_blackboard.Common.Eq.{==_refl, string_eq, nat_eq}
use conversation_blackboard.Sql.{find, exists_row, update_where}
use conversation_blackboard.Sql.Laws.{find-append_last, find-of_exists, find-map}
use conversation_blackboard.Board.{
  Identity, Message, ReceiptRow, NavigationWrite, Principal, Database,
}
use conversation_blackboard.Board
use conversation_blackboard.Channels.{insert_channel}
use conversation_blackboard.Messages.{
  reserve_nonce, bind_reservation, is_reservation, set_message_id,
}
use conversation_blackboard.Authorization.Schema.{ensure_grant_schema}
use conversation_blackboard.Execution.Types.{MessageExecutionRequest}
use conversation_blackboard.Execution.Outcome.{new_message, with_channel, with_nonce, with_message}

-- The tables that only a first execution's last stage, or no stage, writes.
pub record SameRest (a b : Database) : Type 0 where
  pub messages : a.messages ≡ b.messages
  pub participants : a.web_participants ≡ b.web_participants
  pub durable : a.principal_grants ≡ b.principal_grants
  pub delegated : a.delegated_grants ≡ b.delegated_grants
  pub ingress : a.ingress_provenance ≡ b.ingress_provenance
  pub receipts : a.execution_receipts ≡ b.execution_receipts
  pub provenance : a.execution_authorization_provenance ≡ b.execution_authorization_provenance

module _ (now : ℕ) (identity : Identity) (request : MessageExecutionRequest) where
  -- Reserving touches the schema, the channels and the reservations alone.
  pub with_channel-SameRest :
      (db : Database) → SameRest (with_channel now identity request (ensure_grant_schema db)) db
  unfolding insert_channel ensure_grant_schema Board.create_table
  with_channel-SameRest db = ground arith

  pub with_nonce-SameRest :
      (db : Database) → SameRest (with_nonce now identity request (ensure_grant_schema db)) db
  unfolding reserve_nonce
  with_nonce-SameRest db = ground (arith, with_channel-SameRest db)

  pub with_channel-navigation :
      (db : Database)
      → (with_channel now identity request (ensure_grant_schema db)).navigation_writes
        ≡ db.navigation_writes
  unfolding insert_channel ensure_grant_schema Board.create_table
  with_channel-navigation db = ground arith

  abbrev pub reservation_row : ℕ → NavigationWrite
  reservation_row id = record {
    instance_id = identity.instance_id;
    nonce = request.intent.intent_id;
    request_hash = request.intent.request_hash;
    message_id = id;
    created_at = now;
  }

  abbrev pub key : NavigationWrite → Bool
  key = is_reservation identity.instance_id request.intent.intent_id

  pub with_nonce-navigation :
      (db : Database)
      → exists_row key db.navigation_writes ≡ false
      → (with_nonce now identity request (ensure_grant_schema db)).navigation_writes
        ≡ db.navigation_writes ++ reservation_row 0 ∷ []
  unfolding reserve_nonce
  with_nonce-navigation db fresh = ground (arith, with_channel-navigation db)

  bind-keeps :
      (id : ℕ) (n : NavigationWrite) → key (if key n then set_message_id id n else n) ≡ key n
  bind-keeps id n = elim (Bool-cases (key n)) [ inl t ↦ rw t t | inr f ↦ rw f f ]

  -- The reservation names the message once it is bound.
  bound_reservation :
      (id : ℕ) (db : Database)
      → exists_row key db.navigation_writes ≡ false
      → find key
          (bind_reservation identity.instance_id request.intent.intent_id id
            (with_nonce now identity request (ensure_grant_schema db))).navigation_writes
        ≡ some (reservation_row id)
  unfolding bind_reservation update_where
  bound_reservation id db fresh =
      let self = and_intro (==_refl identity.instance_id) (==_refl request.intent.intent_id) in
      rw (with_nonce-navigation db fresh) (
        find-map key (λ n. if key n then set_message_id id n else n)
          (db.navigation_writes ++ reservation_row 0 ∷ []) (bind-keeps id)
          (find-append_last key db.navigation_writes (reservation_row 0)
            (find-of_exists key db.navigation_writes fresh) self)
        ∙ rw self)

  pub messages-with_message :
      (db : Database)
      → (with_message now identity request db).messages
        ≡ db.messages ++ new_message now identity request db ∷ []
  unfolding bind_reservation
  messages-with_message db = refl

  pub reservation-with_message :
      (db : Database)
      → exists_row key db.navigation_writes ≡ false
      → find key
          (with_message now identity request
            (with_nonce now identity request (ensure_grant_schema db))).navigation_writes
        ≡ some (
            reservation_row
              (new_message now identity request
                (with_nonce now identity request (ensure_grant_schema db))).id)
  unfolding bind_reservation
  reservation-with_message db fresh = bound_reservation _ db fresh
