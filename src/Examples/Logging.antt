-- ===== src/Examples/Logging.antt =====
-- The theorems on channels and on the log, applied to a small board.
use conversation_blackboard.Common.{
  ℕ, String, ◌≡◌, ◌⊎◌, refl, ap, Bool, true, false, none, some, [], ◌∷◌,
}
use conversation_blackboard.Common.Int.{pos}
use conversation_blackboard.Sql
use conversation_blackboard.Sql.{Result, ok, err, DbError}
use conversation_blackboard.Board.{Database, ChannelMetadata}
use conversation_blackboard.Transaction
use conversation_blackboard.Channels
use conversation_blackboard.Channels.Laws.{
  create_channel-channel_metadata, update_channel-channel_metadata,
}
use conversation_blackboard.Messages
use conversation_blackboard.Messages.{
  NavigationMessageInput, NavigationAppendResult, created, existing, nonce_conflict,
}
use conversation_blackboard.Messages.Append.{appended, IsAppended, append-IsAppended}
use conversation_blackboard.Messages.Repetition.{append-append}
use conversation_blackboard.Messages.Window.{IsPage, list_messages_after-IsPage}
use conversation_blackboard.Examples.World.{alice, board}

pair_eq : {A B : Type 0} {p : A × B} {b : B} → p.1 ≡ b → p ≡ (p.0, b)
pair_eq {p = p} e = ap (λ x. (p.0, x)) e

abbrev note : String → NavigationMessageInput
note hash = record {
  channel = "general";
  kind = "note";
  body = "hello";
  reply_to = none;
  nonce = "n1";
  request_hash = hash;
}

abbrev append : ℕ → String → Database → Database × Result DbError NavigationAppendResult
append now hash = Messages.append_navigation_message_with_conversation now alice (note hash) none

abbrev opened : Database × Bool
opened = Channels.create_channel 10 "general" "private" (some "alice") board

abbrev general : ChannelMetadata
general = record {
  channel = "general";
  visibility = "private";
  status = "active";
  created_at = 10;
  updated_at = 10;
  created_by = some "alice";
}

abbrev archived : Database
archived = record opened.0 {
  channels = record general { status = "archived"; updated_at = 20 } ∷ [];
}

runs :
    ((append 30 "h" board).1 ≡ ok (created (appended 30 alice (note "h") none [])))
    × (opened.1 ≡ true)
    × (Channels.update_channel 20 "general" none (some "archived") opened.0 ≡ ok (archived, true))
    × (Channels.channel_metadata opened.0 "general" ≡ some general)
unfolding Transaction.in_tx Sql.select Sql.count_rows Sql.first Sql.find Sql.exists_row
    Sql.update_where Sql.next_rowid Channels.default_visibility Channels.is_visibility
    Channels.is_channel_status Channels.insert_channel Channels.channel_metadata
    Channels.create_channel Channels.update_channel Messages.message_by_id Messages.message_exists
    Messages.insert_message Messages.reserve_nonce Messages.find_reservation
    Messages.bind_reservation Messages.reply_target_missing Messages.existing_navigation
    Messages.new_navigation Messages.append_navigation_message_with_conversation
runs = (refl, refl, refl, refl)

append-IsAppended_example :
    IsAppended 30 alice
      (note "h")
      none
      board
      (append 30 "h" board).0
      (appended 30 alice (note "h") none [])
append-IsAppended_example = append-IsAppended 30 alice (note "h") none board (pair_eq runs.0)

append-append_example :
    append 40 "g" (append 30 "h" board).0 ≡ ((append 30 "h" board).0, ok nonce_conflict)
append-append_example =
    append-append 30 alice (note "h") none board (pair_eq runs.0) 40 (note "g") none refl

list_messages_after-IsPage_example :
    IsPage
      (append 30 "h" board).0
      (pos 0)
      (some "general")
      20
      (Messages.list_messages_after (append 30 "h" board).0 (pos 0) (some "general") 20)
list_messages_after-IsPage_example =
    list_messages_after-IsPage (append 30 "h" board).0 (pos 0) (some "general") 20

create_channel-channel_metadata_example :
    ((true ≡ false) × (opened.0 ≡ board))
    ⊎ ((true ≡ true)
        × (Channels.channel_metadata board "general" ≡ none)
        × (Channels.channel_metadata opened.0 "general" ≡ some general))
create_channel-channel_metadata_example =
    create_channel-channel_metadata 10 "general" "private" (some "alice") board (pair_eq runs.1)

update_channel-channel_metadata_example :
    Channels.channel_metadata archived "general"
    ≡ some (record general { status = "archived"; updated_at = 20 })
update_channel-channel_metadata_example =
    update_channel-channel_metadata 20 "general" none (some "archived") opened.0 runs.2 "general"
      runs.3
