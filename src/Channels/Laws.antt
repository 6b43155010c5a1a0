-- ===== src/Channels/Laws.antt =====
-- What is read of a channel after it was created or updated.
use conversation_blackboard.Common.{
  ℕ, String, ◌≡◌, refl, sym, ap, ◌∙◌, ◌⊎◌, inl, inr, Bool, true, false, not, ◌||◌, Option, none,
  some, arith, Bool-cases, map, is_some, if◌then◌else◌,
}
use conversation_blackboard.Common.Eq.{◌==◌, ==_iff, ==_refl, string_eq, nat_eq}
use conversation_blackboard.Sql.{ok, find, exists_row, count_rows, update_where}
use conversation_blackboard.Sql.Laws.{
  find_sound, count_rows-zero, find-append_last, find-of_exists, find-map,
}
use conversation_blackboard.Board.{ChannelMetadata, Database}
use conversation_blackboard.Channels.{
  is_named, is_visibility, insert_channel, channel_metadata, create_channel, set_channel,
  nothing_given, update_channel,
}

-- A creation that succeeds found no such channel, and the channel reads back with the visibility
-- asked for, active, and with its creator; one that does not succeed changes nothing.
pub create_channel-channel_metadata :
    (now : ℕ) (channel visibility : String) (created_by : Option String) (db : Database)
    {db' : Database} {succeeded : Bool}
    → create_channel now channel visibility created_by db ≡ (db', succeeded)
    → ((succeeded ≡ false) × (db' ≡ db))
      ⊎ ((succeeded ≡ true)
          × (channel_metadata db channel ≡ none)
          × (channel_metadata db' channel
              ≡ some (record {
                channel = channel;
                visibility = visibility;
                status = "active";
                created_at = now;
                updated_at = now;
                created_by = created_by;
              })))
unfolding create_channel insert_channel channel_metadata
create_channel-channel_metadata now channel visibility created_by db {db' = db'} h =
    elim (Bool-cases
      (exists_row (is_named channel) db.channels || not (is_visibility visibility))) [
        | inl t ↦
            let done = rw (t, create_channel, insert_channel) at h in
            inl (sym (ap (λ x. x.1) done), sym (ap (λ x. x.0) done))
        | inr f ↦
            let done = rw (f, create_channel, insert_channel) at h in
            let state = ap (λ x. x.0.channels) done in
            let new : exists_row (is_named channel) db.channels ≡ false = ground arith in
            let fresh = find-of_exists (is_named channel) db.channels new in
            inr (
              sym (ap (λ x. x.1) done),
              fresh,
              ap (find (is_named channel)) (sym state)
                  ∙ find-append_last (is_named channel) db.channels _ fresh (==_refl channel),
            )
      ]

set_channel-named :
    (now : ℕ) (visibility status : Option String) (name : String) (c : ChannelMetadata)
    → is_named name (set_channel now visibility status c) ≡ is_named name c
set_channel-named now none none name c = refl
set_channel-named now none (some s) name c = refl
set_channel-named now (some v) none name c = refl
set_channel-named now (some v) (some s) name c = refl

updated_named :
    (now : ℕ) (channel : String) (visibility status : Option String) (name : String)
    (c : ChannelMetadata)
    → is_named name (if is_named channel c then set_channel now visibility status c else c)
      ≡ is_named name c
updated_named now channel visibility status name c = elim (Bool-cases (is_named channel c)) [
  | inl t ↦ rw t (set_channel-named now visibility status name c)
  | inr f ↦ rw f refl
]

nothing-set :
    (now : ℕ) (visibility status : Option String) (channel : String) (c : ChannelMetadata)
    → nothing_given visibility status ≡ true
    → (if is_named channel c then set_channel now visibility status c else c) ≡ c
nothing-set now none none channel c h = elim (Bool-cases (is_named channel c)) [
  | inl t ↦ rw t refl
  | inr f ↦ rw f refl
]
nothing-set now none (some s) channel c h = cc
nothing-set now (some v) none channel c h = cc
nothing-set now (some v) (some s) channel c h = cc

-- What was given, or what was there.
abbrev given_or : Option String → String → String
given_or none old = old
given_or (some new) old = new

-- A channel after an update that gave a visibility, a status, both or neither.
abbrev pub updated : ℕ → Option String → Option String → ChannelMetadata → ChannelMetadata
updated now visibility status c = record {
  channel = c.channel;
  visibility = given_or visibility c.visibility;
  status = given_or status c.status;
  created_at = c.created_at;
  updated_at = if is_some visibility || is_some status then now else c.updated_at;
  created_by = c.created_by;
}

set_channel-updated :
    (now : ℕ) (visibility status : Option String) (c : ChannelMetadata)
    → set_channel now visibility status c ≡ updated now visibility status c
set_channel-updated now none none c = refl
set_channel-updated now none (some s) c = refl
set_channel-updated now (some v) none c = refl
set_channel-updated now (some v) (some s) c = refl

update_channel-set_channel :
    (now : ℕ) (channel : String) (visibility status : Option String) (db : Database)
    {db' : Database} {changed : Bool}
    → update_channel now channel visibility status db ≡ ok (db', changed)
    → (name : String) {c : ChannelMetadata} → channel_metadata db name ≡ some c
    → channel_metadata db' name
      ≡ some (if is_named channel c then set_channel now visibility status c else c)
unfolding update_channel channel_metadata update_where
update_channel-set_channel now channel visibility status db {db' = db'} h name {c = c} found =
    elim (Bool-cases (nothing_given visibility status)) [
      | inl t ↦
          let state : db ≡ db' = ground arith in
          rw (← state) (found ∙ ap some (sym (nothing-set now visibility status channel c t)))
      | inr f ↦ elim (Bool-cases (count_rows (is_named channel) db.channels == 0)) [
        | inl zero ↦
            let state : db ≡ db' = ground arith in
            let (member, named) = find_sound (is_named name) db.channels found in
            let other =
              count_rows-zero (is_named channel) db.channels
                ((==_iff (count_rows (is_named channel) db.channels) 0).0 zero) member in
            rw (← state, other) found
        | inr some_row ↦
            let state : map
                  (λ x. if is_named channel x then set_channel now visibility status x else x)
                  db.channels
                ≡ db'.channels =
              ground arith in
            rw (← state) (
              find-map (is_named name)
                (λ x. if is_named channel x then set_channel now visibility status x else x)
                db.channels (updated_named now channel visibility status name) found)
      ]
    ]

-- After an update that does not fail, each channel that could be read before reads as before, but
-- that the channel of the given name has the visibility and the status that were given and, if one
-- was given, the time of the update.
pub update_channel-channel_metadata :
    (now : ℕ) (channel : String) (visibility status : Option String) (db : Database)
    {db' : Database} {changed : Bool}
    → update_channel now channel visibility status db ≡ ok (db', changed)
    → (name : String) {c : ChannelMetadata} → channel_metadata db name ≡ some c
    → channel_metadata db' name
      ≡ some (if c.channel == channel then updated now visibility status c else c)
update_channel-channel_metadata now channel visibility status db h name {c = c} found =
    update_channel-set_channel now channel visibility status db h name found
    ∙ ap (λ k. some (if c.channel == channel then k else c))
        (set_channel-updated now visibility status c)
