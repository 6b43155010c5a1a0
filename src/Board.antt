-- ===== src/Board.antt =====
-- The durable state: the rows of the tables in schema.sql (with the structs of model.rs and
-- execution.rs that queries return) and the database that holds them. Ids and clock readings are
-- natural numbers; an `i64` that a caller sends is an integer.
use conversation_blackboard.Common.{
  ℕ, String, Bool, true, false, ◌&&◌, Option, none, some, List, [], ◌∷◌, if◌then◌else◌,
}
use conversation_blackboard.Common.Int.{ℤ}
use conversation_blackboard.Common.Eq.{◌==◌, string_eq}
use conversation_blackboard.Sql.{exists_row}

-- execution.rs: `Principal`
pub record Principal : Type 0 where
  pub provider : String
  pub subject : String

abbrev pub principal_beq : Principal → Principal → Bool
principal_beq a b = a.provider == b.provider && a.subject == b.subject

-- model.rs: `Identity`
pub record Identity : Type 0 where
  pub source : String
  pub instance_id : String
  pub label : Option String

-- model.rs: `Message`; also a row of `messages`
pub record Message : Type 0 where
  pub id : ℕ
  pub created_at : ℕ
  pub channel : String
  pub source : String
  pub instance_id : String
  pub conversation_ref : Option String
  pub kind : String
  pub body : String
  pub reply_to : Option ℤ

-- model.rs: `ChannelMetadata`; also a row of `channels`
pub record ChannelMetadata : Type 0 where
  pub channel : String
  pub visibility : String
  pub status : String
  pub created_at : ℕ
  pub updated_at : ℕ
  pub created_by : Option String

-- A row of `web_participants`.
pub record Participant : Type 0 where
  pub participant_id : String
  pub source : String
  pub label : Option String
  pub role : String
  pub status : String
  pub auth_scheme : Option String
  pub auth_secret : Option String
  pub totp_secret : Option String
  pub totp_last_step : Option ℕ
  pub totp_fail_count : ℕ
  pub totp_locked_until : Option ℕ
  pub owner_provider : Option String
  pub owner_subject : Option String
  pub owner_login : Option String
  pub updated_at : ℕ

-- A row of `principal_grants`.
pub record DurableGrant : Type 0 where
  pub id : ℕ
  pub principal_provider : String
  pub principal_subject : String
  pub participant_id : String
  pub capability : String
  pub resource : Option String
  pub status : String
  pub created_at : ℕ
  pub updated_at : ℕ

-- A row of `delegated_grants`; its CHECK makes `one_shot` 0 or 1.
pub record DelegatedGrant : Type 0 where
  pub id : ℕ
  pub principal_provider : String
  pub principal_subject : String
  pub participant_id : String
  pub capability : String
  pub resource : Option String
  pub intent_id : Option String
  pub expires_at : Option ℤ
  pub one_shot : Bool
  pub consumed_at : Option ℕ
  pub consumed_intent_id : Option String
  pub status : String
  pub created_at : ℕ
  pub updated_at : ℕ

-- A row of `authorization_admin_events`.
pub record AdministrationEventRow : Type 0 where
  pub id : ℕ
  pub grant_store : String
  pub grant_id : ℕ
  pub operation : String
  pub actor_surface : String
  pub actor_provider : Option String
  pub actor_subject : Option String
  pub actor_participant_id : Option String
  pub target_principal_provider : String
  pub target_principal_subject : String
  pub participant_id : String
  pub capability : String
  pub resource : Option String
  pub intent_id : Option String
  pub expires_at : Option ℤ
  pub one_shot : Bool
  pub before_status : Option String
  pub after_status : String
  pub created_at : ℕ

-- A row of `navigation_writes`, the reservation of a nonce.
pub record NavigationWrite : Type 0 where
  pub instance_id : String
  pub nonce : String
  pub request_hash : String
  pub message_id : ℕ
  pub created_at : ℕ

-- A row of `ingress_provenance`.
pub record IngressRow : Type 0 where
  pub delivery_id : String
  pub participant_id : Option String
  pub intent_id : String
  pub transport : String
  pub external_ref : String
  pub principal_provider : String
  pub principal_subject : String
  pub created_at : ℕ

-- A row of `execution_receipts`.
pub record ReceiptRow : Type 0 where
  pub participant_id : String
  pub intent_id : String
  pub intent_hash : String
  pub capability : String
  pub message_id : ℕ
  pub status : String
  pub created_at : ℕ

-- A row of `execution_authorization_provenance`.
pub record ProvenanceRow : Type 0 where
  pub participant_id : String
  pub intent_id : String
  pub principal_provider : Option String
  pub principal_subject : Option String
  pub capability : Option String
  pub resource : Option String
  pub source : String
  pub reason : String
  pub grant_id : Option ℕ
  pub created_at : ℕ

-- The database. `schema` lists each table that exists with its columns.
pub record Database : Type 0 where
  pub schema : List (String × List String)
  pub messages : List Message
  pub channels : List ChannelMetadata
  pub web_participants : List Participant
  pub principal_grants : List DurableGrant
  pub delegated_grants : List DelegatedGrant
  pub authorization_admin_events : List AdministrationEventRow
  pub navigation_writes : List NavigationWrite
  pub ingress_provenance : List IngressRow
  pub execution_receipts : List ReceiptRow
  pub execution_authorization_provenance : List ProvenanceRow

-- authorization.rs: `table_has_columns`
unfoldable pub columns_of : String → List (String × List String) → Option (List String)
columns_of table [] = none
columns_of table ((name, columns) ∷ rest) =
    let found = columns_of table rest in if name == table then some columns else found

unfoldable pub all_in : List String → List String → Bool
all_in [] columns = true
all_in (c ∷ required) columns = exists_row (λ d. d == c) columns && all_in required columns

unfoldable pub table_exists : Database → String → Bool
unfolding columns_of
table_exists db table = elim (columns_of table db.schema) [ none ↦ false | some columns ↦ true ]

unfoldable pub table_has_columns : Database → String → List String → Bool
unfolding columns_of all_in
table_has_columns db table required = elim (columns_of table db.schema) [
  | none ↦ false
  | some columns ↦ all_in required columns
]

-- CREATE TABLE IF NOT EXISTS
unfoldable pub create_table : String → List String → Database → Database
unfolding table_exists
create_table table columns db =
    if table_exists db table then db else record db { schema = (table, columns) ∷ db.schema }
