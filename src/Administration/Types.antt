-- ===== src/Administration/Types.antt =====
-- The values that authorization_admin.rs passes around. Its errors are boxed texts, here one
-- constructor for each place that makes one.
use conversation_blackboard.Common.{ℕ, String, Bool, Option}
use conversation_blackboard.Common.Int.{ℤ}
use conversation_blackboard.Sql.{Result, ok, err, DbError}
use conversation_blackboard.Board.{Principal}

pub data AdministrationError : Type 0 where
  schema_requires_migration : AdministrationError
  invalid_field : String → AdministrationError
  invalid_participant_id : AdministrationError
  invalid_actor_participant_id : AdministrationError
  invalid_intent_id : AdministrationError
  unsupported_capability : String → AdministrationError
  participant_not_active : String → AdministrationError
  unknown_participant : String → AdministrationError
  grant_id_not_positive : AdministrationError
  expires_at_not_future : AdministrationError
  authorization_denied : AdministrationError
  database : DbError → AdministrationError

-- The conversion that `?` applies to an error of the database.
abbrev pub from_db : {A : Type 0} → Result DbError A → Result AdministrationError A
from_db (ok a) = ok a
from_db (err e) = err (database e)

pub record AuthorizationAdministrationActor : Type 0 where
  pub surface : String
  pub principal : Option Principal
  pub participant_id : Option String

pub record DurableGrantCreateRequest : Type 0 where
  pub principal_provider : String
  pub principal_subject : String
  pub participant_id : String
  pub capability : String
  pub resource : Option String

pub record DelegatedGrantCreateRequest : Type 0 where
  pub principal_provider : String
  pub principal_subject : String
  pub participant_id : String
  pub capability : String
  pub resource : Option String
  pub intent_id : Option String
  pub expires_at : Option ℤ
  pub one_shot : Bool

pub data DurableGrantCreateState : Type 0 where
  created existing reactivated : DurableGrantCreateState

pub record DurableGrantCreateOutcome : Type 0 where
  pub id : ℕ
  pub state : DurableGrantCreateState

pub record NormalizedActor : Type 0 where
  pub surface : String
  pub provider : Option String
  pub subject : Option String
  pub participant_id : Option String

pub record GrantScope : Type 0 where
  pub principal_provider : String
  pub principal_subject : String
  pub participant_id : String
  pub capability : String
  pub resource : Option String
  pub intent_id : Option String
  pub expires_at : Option ℤ
  pub one_shot : Bool

pub record AdministrationEvent : Type 0 where
  pub grant_store : String
  pub grant_id : ℕ
  pub operation : String
  pub scope : GrantScope
  pub before_status : Option String
  pub after_status : String
