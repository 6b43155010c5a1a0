-- ===== src/Channels.antt =====
-- The channel operations of src/db.rs: creation on first use, explicit creation, visibility and
-- lifecycle, and the two tests that gate reads and writes.
pub mod Laws
use conversation_blackboard.Common.{
  ℕ, String, Bool, true, false, not, ◌&&◌, ◌||◌, Option, none, some, [], ◌∷◌, ◌++◌, is_some,
  if◌then◌else◌,
}
use conversation_blackboard.Common.Eq.{◌==◌, string_eq, nat_eq}
use conversation_blackboard.Sql.{
  Result, ok, err, DbError, constraint, find, exists_row, count_rows, update_where,
}
use conversation_blackboard.Board.{ChannelMetadata, Database}

abbrev pub is_named : String → ChannelMetadata → Bool
is_named channel c = c.channel == channel

unfoldable pub default_visibility : String → String
default_visibility channel = if channel == "blackboard-lounge" then "public" else "private"

-- CHECK (visibility IN ('public', 'private')) and CHECK (status IN ('active', 'archived'))
unfoldable pub is_visibility : String → Bool
is_visibility v = v == "public" || v == "private"

unfoldable pub is_channel_status : String → Bool
is_channel_status s = s == "active" || s == "archived"

-- INSERT OR IGNORE INTO channels (name, visibility, status, created_by) VALUES (?1, ?2, 'active', ?3),
-- with the number of rows inserted. A row that breaks a CHECK is ignored too.
unfoldable pub insert_channel : ℕ → String → String → Option String → Database → Database × ℕ
insert_channel now channel visibility created_by db =
    if exists_row (is_named channel) db.channels || not (is_visibility visibility)
    then (db, 0)
    else (
      record db {
        channels =
            db.channels
            ++ record {
              channel = channel;
              visibility = visibility;
              status = "active";
              created_at = now;
              updated_at = now;
              created_by = created_by;
            }
              ∷ [];
      },
      1,
    )

unfoldable pub channel_metadata : Database → String → Option ChannelMetadata
channel_metadata db channel = find (is_named channel) db.channels

unfoldable pub channel_is_public_active : Database → String → Bool
channel_is_public_active db channel =
    is_some (
      find (λ c. is_named channel c && c.visibility == "public" && c.status == "active")
        db.channels)

unfoldable pub ensure_channel : ℕ → String → Option String → Database → Database
unfolding insert_channel default_visibility
ensure_channel now channel created_by db =
    (insert_channel now channel (default_visibility channel) created_by db).0

abbrev pub is_active_channel : Option ChannelMetadata → Bool
is_active_channel none = false
is_active_channel (some c) = c.status == "active"

unfoldable pub ensure_channel_for_write : ℕ → String → Option String → Database → Database × Bool
ensure_channel_for_write now channel created_by db =
    let db' = ensure_channel now channel created_by db in
    (db', is_active_channel (channel_metadata db' channel))

unfoldable pub create_channel : ℕ → String → String → Option String → Database → Database × Bool
create_channel now channel visibility created_by db =
    let (db', changed) = insert_channel now channel visibility created_by db in (db', changed == 1)

abbrev pub set_channel : ℕ → Option String → Option String → ChannelMetadata → ChannelMetadata
set_channel now none none c = c
set_channel now none (some s) c = record c { status = s; updated_at = now }
set_channel now (some v) none c = record c { visibility = v; updated_at = now }
set_channel now (some v) (some s) c = record c { visibility = v; status = s; updated_at = now }

abbrev holds_or_absent : (String → Bool) → Option String → Bool
holds_or_absent test none = true
holds_or_absent test (some v) = test v

abbrev pub nothing_given : Option String → Option String → Bool
nothing_given none none = true
nothing_given none (some s) = false
nothing_given (some v) status = false

-- The four UPDATE statements of the match, which differ in the columns that they set. An UPDATE of
-- at least one row that breaks a CHECK fails.
unfoldable pub update_channel :
    ℕ → String → Option String → Option String → Database → Result DbError (Database × Bool)
update_channel now channel visibility status db =
    let changed = count_rows (is_named channel) db.channels in
    let allowed =
      holds_or_absent is_visibility visibility && holds_or_absent is_channel_status status in
    if nothing_given visibility status
    then ok (db, false)
    else if changed == 0
    then ok (db, false)
    else if not allowed
    then err constraint
    else ok (
      record db {
        channels = update_where (is_named channel) (set_channel now visibility status) db.channels;
      },
      changed == 1,
    )
