-- ===== src/Messages.antt =====
-- The message log of src/db.rs: `message_by_id`, `list_messages_after`, `append_message`, and the
-- reservation of a nonce with the append that it guards.
pub mod Window
pub mod Append
pub mod Repetition
use conversation_blackboard.Common.{
  ℕ, String, Bool, true, false, not, ◌&&◌, Option, none, some, List, [], ◌∷◌, ◌++◌, leb, take,
  if◌then◌else◌,
}
use conversation_blackboard.Common.Int.{ℤ, pos, ltb_ℤ}
use conversation_blackboard.Common.Eq.{◌==◌, string_eq, nat_eq, int_eq, option_eq}
use conversation_blackboard.Sql.{
  Result, ok, err, DbError, no_rows, ◌>>=◌, find, exists_row, update_where, next_rowid, select,
  order_by,
}
use conversation_blackboard.Board.{Identity, Message, NavigationWrite, Database}
use conversation_blackboard.Transaction.{TxEnd, commit, rollback, in_tx}
use conversation_blackboard.Channels.{insert_channel, default_visibility, ensure_channel}

abbrev pub has_message_id : ℕ → Message → Bool
has_message_id id m = m.id == id

-- `query_row` fails where no row is there.
abbrev pub or_no_rows : {A : Type 0} → Option A → Result DbError A
or_no_rows none = err no_rows
or_no_rows (some a) = ok a

unfoldable pub message_by_id : Database → ℕ → Result DbError Message
message_by_id db id = or_no_rows (find (has_message_id id) db.messages)

-- The id is one that a caller sent.
unfoldable pub message_exists : Database → ℤ → Bool
message_exists db target = exists_row (λ m. pos m.id == target) db.messages

abbrev pub in_channel : Option String → Message → Bool
in_channel none m = true
in_channel (some c) m = m.channel == c

-- WHERE [channel = ?1 AND] id > ?2 ORDER BY id ASC LIMIT ?3
unfoldable pub list_messages_after : Database → ℤ → Option String → ℕ → List Message
list_messages_after db after_id channel limit = take limit (
    order_by (λ a b. leb a.id b.id)
      (select (λ m. in_channel channel m && ltb_ℤ after_id (pos m.id)) db.messages))

-- INSERT INTO messages (...); the row's id is `last_insert_rowid()`.
unfoldable pub insert_message :
    ℕ → Identity → String → Option String → String → String → Option ℤ → Database → Database × ℕ
insert_message now identity channel conversation_ref kind body reply_to db =
    let id = next_rowid (λ (m : Message). m.id) db.messages in
    (
      record db {
        messages =
            db.messages
            ++ record {
              id = id;
              created_at = now;
              channel = channel;
              source = identity.source;
              instance_id = identity.instance_id;
              conversation_ref = conversation_ref;
              kind = kind;
              body = body;
              reply_to = reply_to;
            }
              ∷ [];
      },
      id,
    )

unfoldable pub append_message :
    ℕ
    → Identity
    → String
    → String
    → String
    → Option ℤ
    → Database
    → Database × Result DbError Message
append_message now identity channel kind body reply_to db =
    let db1 = ensure_channel now channel (some identity.instance_id) db in
    let (db2, id) = insert_message now identity channel none kind body reply_to db1 in
    (db2, message_by_id db2 id)

abbrev pub is_reservation : String → String → NavigationWrite → Bool
is_reservation instance_id nonce n = n.instance_id == instance_id && n.nonce == nonce

-- INSERT OR IGNORE INTO navigation_writes (instance, nonce, request_hash, message_id)
-- VALUES (?1, ?2, ?3, 0); the primary key is (instance, nonce).
unfoldable pub reserve_nonce : ℕ → String → String → String → Database → Database × ℕ
reserve_nonce now instance_id nonce request_hash db =
    if exists_row (is_reservation instance_id nonce) db.navigation_writes then (db, 0) else (
      record db {
        navigation_writes =
            db.navigation_writes
            ++ record {
              instance_id = instance_id;
              nonce = nonce;
              request_hash = request_hash;
              message_id = 0;
              created_at = now;
            }
              ∷ [];
      },
      1,
    )

unfoldable pub find_reservation : Database → String → String → Result DbError NavigationWrite
find_reservation db instance_id nonce =
    or_no_rows (find (is_reservation instance_id nonce) db.navigation_writes)

abbrev pub set_message_id : ℕ → NavigationWrite → NavigationWrite
set_message_id id n = record n { message_id = id }

-- UPDATE navigation_writes SET message_id = ?1 WHERE instance = ?2 AND nonce = ?3
unfoldable pub bind_reservation : String → String → ℕ → Database → Database
bind_reservation instance_id nonce id db = record db {
  navigation_writes =
      update_where (is_reservation instance_id nonce) (set_message_id id) db.navigation_writes;
}

-- `if let Some(target) = reply_to { … if !exists { return … } }`
unfoldable pub reply_target_missing : Database → Option ℤ → Bool
unfolding message_exists
reply_target_missing db none = false
reply_target_missing db (some target) = not (message_exists db target)

pub record NavigationMessageInput : Type 0 where
  pub channel : String
  pub kind : String
  pub body : String
  pub reply_to : Option ℤ
  pub nonce : String
  pub request_hash : String

pub data NavigationAppendResult : Type 0 where
  created : Message → NavigationAppendResult
  existing : Message → NavigationAppendResult
  nonce_conflict : NavigationAppendResult
  reply_target_not_found : NavigationAppendResult

-- The branch `if reserved == 0`.
unfoldable pub existing_navigation :
    Identity → NavigationMessageInput → Database → Result DbError (TxEnd NavigationAppendResult)
existing_navigation identity input db = do
  stored ← find_reservation db identity.instance_id input.nonce
  if not (stored.request_hash == input.request_hash)
      then ok (rollback nonce_conflict)
      else do message ← message_by_id db stored.message_id; ok (rollback (existing message))

-- From the reply check to the commit.
unfoldable pub new_navigation :
    ℕ
    → Identity
    → NavigationMessageInput
    → Option String
    → Database
    → Result DbError (TxEnd NavigationAppendResult)
new_navigation now identity input conversation_ref db =
    if reply_target_missing db input.reply_to
    then ok (rollback reply_target_not_found)
    else let (db1, id) =
        insert_message now identity input.channel conversation_ref input.kind input.body
          input.reply_to db in
      let db2 = bind_reservation identity.instance_id input.nonce id db1 in
      (message_by_id db2 id >>= λ message. ok (commit db2 (created message)))

unfoldable pub append_navigation_message_with_conversation :
    ℕ
    → Identity
    → NavigationMessageInput
    → Option String
    → Database
    → Database × Result DbError NavigationAppendResult
append_navigation_message_with_conversation now identity input conversation_ref db =
    let (db1, _) =
      insert_channel now input.channel (default_visibility input.channel)
        (some identity.instance_id) db in
    let (db2, reserved) =
      reserve_nonce now identity.instance_id input.nonce input.request_hash db1 in
    in_tx db (
      if reserved == 0
      then existing_navigation identity input db2
      else new_navigation now identity input conversation_ref db2)

unfoldable pub append_navigation_message :
    ℕ
    → Identity
    → NavigationMessageInput
    → Database
    → Database × Result DbError NavigationAppendResult
unfolding append_navigation_message_with_conversation
append_navigation_message now identity input db =
    append_navigation_message_with_conversation now identity input none db
