-- ===== src/Messages/Append.antt =====
-- `append_navigation_message_with_conversation`: an append creates its message once, and its
-- repetition returns that message and changes nothing.
use conversation_blackboard.Common.{
  ℕ, String, ◌≡◌, refl, sym, ap, ◌∙◌, inl, inr, Bool, true, false, Option, some, List, [], ◌∷◌,
  ◌++◌, arith, and_intro, Bool-cases, if◌then◌else◌,
}
use conversation_blackboard.Common.Eq.{==_refl, string_eq, nat_eq}
use conversation_blackboard.Sql.{Result, ok, DbError, find, exists_row, next_rowid, update_where}
use conversation_blackboard.Sql.Laws.{
  find-append_last, find-of_exists, find-map, find-append_numbered,
}
use conversation_blackboard.Board.{Identity, Message, NavigationWrite, Database}
use conversation_blackboard.Transaction.{commit, rollback, in_tx}
use conversation_blackboard.Channels.{insert_channel, default_visibility}
use conversation_blackboard.Messages.{
  message_by_id, insert_message, is_reservation, reserve_nonce, set_message_id, bind_reservation,
  reply_target_missing, NavigationMessageInput, NavigationAppendResult, created,
  reply_target_not_found, existing_navigation, new_navigation,
  append_navigation_message_with_conversation,
}

module _ (now : ℕ) (identity : Identity) (input : NavigationMessageInput)
    (conversation_ref : Option String) where
  -- The message that an append adds to a log.
  abbrev pub appended : List Message → Message
  appended messages = record {
    id = next_rowid (λ (m : Message). m.id) messages;
    created_at = now;
    channel = input.channel;
    source = identity.source;
    instance_id = identity.instance_id;
    conversation_ref = conversation_ref;
    kind = input.kind;
    body = input.body;
    reply_to = input.reply_to;
  }

  abbrev key : NavigationWrite → Bool
  key = is_reservation identity.instance_id input.nonce

  abbrev pub reservation_of : ℕ → NavigationWrite
  reservation_of id = record {
    instance_id = identity.instance_id;
    nonce = input.nonce;
    request_hash = input.request_hash;
    message_id = id;
    created_at = now;
  }

  abbrev with_row : Database → Database
  with_row db = record db { navigation_writes = db.navigation_writes ++ reservation_of 0 ∷ [] }

  abbrev finished : Database → Database
  finished db =
      bind_reservation identity.instance_id input.nonce (appended db.messages).id
        (record db { messages = db.messages ++ appended db.messages ∷ [] })

  reserve-new :
      (db : Database)
      → exists_row key db.navigation_writes ≡ false
      → reserve_nonce now identity.instance_id input.nonce input.request_hash db ≡ (with_row db, 1)
  unfolding reserve_nonce
  reserve-new db h = rw h refl

  reserve-old :
      (db : Database)
      → exists_row key db.navigation_writes ≡ true
      → reserve_nonce now identity.instance_id input.nonce input.request_hash db ≡ (db, 0)
  unfolding reserve_nonce
  reserve-old db h = rw h refl

  message_by_id-finished :
      (db : Database)
      → message_by_id (finished db) (appended db.messages).id ≡ ok (appended db.messages)
  unfolding message_by_id bind_reservation
  message_by_id-finished db =
      let found =
        find-append_numbered (λ (m : Message). m.id) db.messages (appended db.messages) refl in
      rw found refl

  new_navigation-result :
      (db : Database)
      → new_navigation now identity input conversation_ref db ≡ (
          if reply_target_missing db input.reply_to
          then ok (rollback reply_target_not_found)
          else ok (commit (finished db) (created (appended db.messages))))
  unfolding new_navigation insert_message
  new_navigation-result db = elim (Bool-cases (reply_target_missing db input.reply_to)) [
    | inl t ↦ rw (t, new_navigation) refl
    | inr f ↦ rw (f, new_navigation) (rw (message_by_id-finished db) refl)
  ]

  existing_navigation-not_created :
      (db d : Database) {m : Message} {db' : Database}
      → ¬ (in_tx d (existing_navigation identity input db) ≡ (db', ok (created m)))
  unfolding existing_navigation in_tx
  existing_navigation-not_created db d h = ground arith

  abbrev pub ready : Database → Database
  ready db =
      (insert_channel now input.channel (default_visibility input.channel)
        (some identity.instance_id) db).0

  pub ready-frame :
      (db : Database)
      → ((ready db).navigation_writes ≡ db.navigation_writes) × ((ready db).messages ≡ db.messages)
  unfolding insert_channel
  ready-frame db = ground arith

  -- What an append that creates a message has done.
  pub record IsAppended (db db' : Database) (m : Message) : Type 0 where
    pub fresh : exists_row key db.navigation_writes ≡ false
    pub content : m ≡ appended db.messages
    pub log : db'.messages ≡ db.messages ++ m ∷ []
    pub reservation : find key db'.navigation_writes ≡ some (reservation_of m.id)

  abbrev append : Database → Database × Result DbError NavigationAppendResult
  append db = append_navigation_message_with_conversation now identity input conversation_ref db

  pub append-old :
      (db : Database)
      → exists_row key (ready db).navigation_writes ≡ true
      → append db ≡ in_tx db (existing_navigation identity input (ready db))
  unfolding append_navigation_message_with_conversation
  append-old db old =
      let reserved = reserve-old (ready db) old in
      rw (reserved, append_navigation_message_with_conversation) refl

  append-new :
      (db : Database)
      → exists_row key (ready db).navigation_writes ≡ false
      → append db
        ≡ in_tx db (new_navigation now identity input conversation_ref (with_row (ready db)))
  unfolding append_navigation_message_with_conversation
  append-new db new =
      let reserved = reserve-new (ready db) new in
      rw (reserved, append_navigation_message_with_conversation) refl

  bound_row :
      (id : ℕ) (db : Database)
      → exists_row key db.navigation_writes ≡ false
      → find key
          (bind_reservation identity.instance_id input.nonce id (with_row db)).navigation_writes
        ≡ some (reservation_of id)
  unfolding bind_reservation update_where
  bound_row id db new =
      let self = and_intro (==_refl identity.instance_id) (==_refl input.nonce) in
      find-map key (λ n. if key n then set_message_id id n else n)
        (db.navigation_writes ++ reservation_of 0 ∷ [])
        (λ n. elim (Bool-cases (key n)) [ inl t ↦ rw t t | inr f ↦ rw f f ])
        (find-append_last key db.navigation_writes (reservation_of 0)
          (find-of_exists key db.navigation_writes new) self)
      ∙ rw self refl

  created_injective : {a b : Message} → created a ≡ created b → a ≡ b
  created_injective e = cc

  -- An append that creates a message found its nonce free, added just the message of its input under
  -- the next id, and bound the nonce and the hash of its request to it.
  pub append-IsAppended :
      (db : Database) {db' : Database} {m : Message}
      → append_navigation_message_with_conversation now identity input conversation_ref db
        ≡ (db', ok (created m))
      → IsAppended db db' m
  unfolding in_tx bind_reservation
  append-IsAppended db {db' = db'} {m = m} h =
      let d = with_row (ready db) in
      let (same_nav, same_log) = ready-frame db in
      elim (Bool-cases (exists_row key (ready db).navigation_writes)) [
        | inl old ↦
            absurd (existing_navigation-not_created (ready db) db (sym (append-old db old) ∙ h))
        | inr new ↦
            let body = sym (append-new db new) ∙ h in
            let result = new_navigation-result d in
            elim (Bool-cases (reply_target_missing d input.reply_to)) [
              | inl missing ↦ let gone = rw (result, missing, in_tx) at body in cc
              | inr there ↦
                  let done = rw (result, there, in_tx) at body in
                  let state : finished d ≡ db' = ap (λ x. x.0) done in
                  let is : appended d.messages ≡ m = created_injective (cc) in
                  let at : m ≡ appended db.messages = sym is ∙ ap appended same_log in
                  record {
                    fresh = ap (exists_row key) (sym same_nav) ∙ new;
                    content = at;
                    log =
                        ap (λ x. x.messages) (sym state)
                        ∙ ap (λ l. l ++ appended l ∷ []) same_log
                        ∙ ap (λ k. db.messages ++ k ∷ []) (sym at);
                    reservation =
                        ap (λ x. find key x.navigation_writes) (sym state)
                        ∙ bound_row (appended d.messages).id (ready db) new
                        ∙ ap (λ k. some (reservation_of k.id)) is;
                  }
            ]
      ]
