-- ===== src/Examples/World.antt =====
-- The data of the examples: a participant who signs its own requests, a maintainer's principal with
-- grants, and a channel with no messages yet.
use conversation_blackboard.Common.{String, true, Option, none, some, List, [], ◌∷◌}
use conversation_blackboard.Common.Int.{ℤ, pos}
use conversation_blackboard.Board.{Principal, Identity, Participant, DelegatedGrant, Database}
use conversation_blackboard.Authorization.Capability.{post_message}
use conversation_blackboard.Administration.Types.{DurableGrantCreateRequest, NormalizedActor}
use conversation_blackboard.Execution.Types.{MessageExecutionRequest}
use conversation_blackboard.Execution.Execute.{RequestHash}

abbrev pub alice : Identity
alice = record { source = "agent"; instance_id = "alice"; label = none }

abbrev pub alice_principal : Principal
alice_principal = record { provider = "participant-hmac"; subject = "alice" }

abbrev pub bot_principal : Principal
bot_principal = record { provider = "github"; subject = "bot" }

abbrev pub alice_row : Participant
alice_row = record {
  participant_id = "alice";
  source = "agent";
  label = none;
  role = "user";
  status = "active";
  auth_scheme = none;
  auth_secret = none;
  totp_secret = none;
  totp_last_step = none;
  totp_fail_count = 0;
  totp_locked_until = none;
  owner_provider = none;
  owner_subject = none;
  owner_login = none;
  updated_at = 1;
}

-- The bot may post once for `alice`, until the clock reads 500.
abbrev pub one_shot_grant : DelegatedGrant
one_shot_grant = record {
  id = 1;
  principal_provider = "github";
  principal_subject = "bot";
  participant_id = "alice";
  capability = post_message;
  resource = some "general";
  intent_id = none;
  expires_at = some (pos 500);
  one_shot = true;
  consumed_at = none;
  consumed_intent_id = none;
  status = "active";
  created_at = 1;
  updated_at = 1;
}

abbrev pub board : Database
board = record {
  schema = ("execution_receipts", "participant_id" ∷ "intent_id" ∷ "status" ∷ []) ∷ [];
  messages = [];
  channels = [];
  web_participants = alice_row ∷ [];
  principal_grants = [];
  delegated_grants = one_shot_grant ∷ [];
  authorization_admin_events = [];
  navigation_writes = [];
  ingress_provenance = [];
  execution_receipts = [];
  execution_authorization_provenance = [];
}

-- Another text of the request would do as well.
abbrev pub body_hash : RequestHash
body_hash = λ channel kind body conversation_ref reply_to. body

abbrev pub post_as : Principal → String → Option ℤ → MessageExecutionRequest
post_as principal delivery_id reply_to = record {
  authority = record { principal = principal; mechanism = "test" };
  ingress = record {
    delivery_id = delivery_id;
    intent_id = "intent-1";
    transport = "http";
    external_ref = "ref";
    principal = principal;
  };
  intent = record {
    intent_id = "intent-1";
    participant_id = "alice";
    conversation_ref = none;
    capability = post_message;
    resource = "general";
    request_hash = "hello";
  };
  channel = "general";
  kind = "note";
  body = "hello";
  reply_to = reply_to;
}

-- A board with the whole schema of authorization and an administrator.
abbrev scope_names : List String
scope_names =
    "id" ∷ "principal_provider" ∷ "principal_subject" ∷ "participant_id" ∷ "capability" ∷ "resource"
    ∷ "status" ∷ "created_at" ∷ "updated_at" ∷ []

abbrev root_row : Participant
root_row = record alice_row { participant_id = "root"; role = "admin" }

abbrev pub root_principal : Principal
root_principal = record { provider = "human-web"; subject = "root" }

abbrev pub managed_board : Database
managed_board = record board {
  schema =
      ("principal_grants", scope_names)
      ∷ (
        "delegated_grants",
        "intent_id" ∷ "expires_at" ∷ "one_shot" ∷ "consumed_at" ∷ "consumed_intent_id"
            ∷ scope_names,
      )
      ∷ (
        "web_participants",
        "participant_id" ∷ "status" ∷ "role" ∷ "owner_provider" ∷ "owner_subject" ∷ [],
      )
      ∷ ("execution_receipts", "participant_id" ∷ "intent_id" ∷ "status" ∷ [])
      ∷ (
        "authorization_admin_events",
        "id" ∷ "grant_store" ∷ "grant_id" ∷ "operation" ∷ "actor_surface" ∷ "actor_provider"
            ∷ "actor_subject" ∷ "actor_participant_id" ∷ "target_principal_provider"
            ∷ "target_principal_subject" ∷ "participant_id" ∷ "capability" ∷ "resource"
            ∷ "intent_id" ∷ "expires_at" ∷ "one_shot" ∷ "before_status" ∷ "after_status"
            ∷ "created_at" ∷ [],
      )
      ∷ [];
  web_participants = root_row ∷ alice_row ∷ [];
}

abbrev pub read_grant : DurableGrantCreateRequest
read_grant = record {
  principal_provider = "github";
  principal_subject = "bot";
  participant_id = "alice";
  capability = "read_messages";
  resource = none;
}

abbrev pub root_actor : NormalizedActor
root_actor = record {
  surface = "http";
  provider = some "human-web";
  subject = some "root";
  participant_id = some "root";
}
