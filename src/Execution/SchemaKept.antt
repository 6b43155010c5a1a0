-- ===== src/Execution/SchemaKept.antt =====
-- The schema that an execution leaves is the one that the next evaluation asks for.
use conversation_blackboard.Common.{ℕ, String, ◌≡◌, true, arith, List}
use conversation_blackboard.Common.Eq.{==_refl, string_eq, nat_eq, option_eq}
use conversation_blackboard.Board.{Identity, Database, columns_of, table_exists, create_table}
use conversation_blackboard.Channels.{insert_channel, channel_metadata}
use conversation_blackboard.Messages.{reserve_nonce}
use conversation_blackboard.Authorization.Schema.{ensure_grant_schema}
use conversation_blackboard.Execution.Types.{MessageExecutionRequest}
use conversation_blackboard.Execution.Outcome.{with_channel, with_nonce}

pub table_exists-create_table :
    (t : String) (columns : List String) (db : Database)
    → table_exists (create_table t columns db) t ≡ true
unfolding create_table table_exists columns_of
table_exists-create_table t columns db = ground (arith, ==_refl t)

pub create_table-keeps :
    (t u : String) (columns : List String) (db : Database)
    → table_exists db t ≡ true
    → table_exists (create_table u columns db) t ≡ true
unfolding create_table table_exists columns_of
create_table-keeps t u columns db h = ground arith

create_table_again :
    (t : String) (columns : List String) (db : Database)
    → table_exists db t ≡ true
    → create_table t columns db ≡ db
unfolding create_table
create_table_again t columns db h = rw h

pub table_exists-schema :
    (t : String) (a b : Database)
    → a.schema ≡ b.schema
    → table_exists b t ≡ true
    → table_exists a t ≡ true
unfolding table_exists
table_exists-schema t a b h e = rw h e

-- A board that has the schema that `ensure_grant_schema` left needs nothing of it.
pub ensure_grant_schema_again :
    (db d : Database) → d.schema ≡ (ensure_grant_schema db).schema → ensure_grant_schema d ≡ d
unfolding ensure_grant_schema
ensure_grant_schema_again db d h =
    let principal = table_exists-schema "principal_grants" d (ensure_grant_schema db) h (
      create_table-keeps "principal_grants" "delegated_grants" _ _
        (table_exists-create_table "principal_grants" _ db)) in
    let delegated =
      table_exists-schema "delegated_grants" d (ensure_grant_schema db) h
        (table_exists-create_table "delegated_grants" _ _) in
    rw (create_table_again "principal_grants" _ d principal)
      (create_table_again "delegated_grants" _ d delegated)

pub with_channel-schema :
    (now : ℕ) (identity : Identity) (request : MessageExecutionRequest) (db : Database)
    → (with_channel now identity request db).schema ≡ db.schema
unfolding insert_channel
with_channel-schema now identity request db = ground arith

pub with_nonce-frame :
    (now : ℕ) (identity : Identity) (request : MessageExecutionRequest) (db : Database)
    → ((with_nonce now identity request db).schema ≡ (with_channel now identity request db).schema)
      × ((with_nonce now identity request db).channels
          ≡ (with_channel now identity request db).channels)
unfolding reserve_nonce
with_nonce-frame now identity request db = ground arith

pub channel_metadata-channels :
    (a b : Database) (channel : String)
    → a.channels ≡ b.channels
    → channel_metadata a channel ≡ channel_metadata b channel
unfolding channel_metadata
channel_metadata-channels a b channel h = rw h
