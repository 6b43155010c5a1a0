-- ===== src/Administration/Requests.antt =====
-- What an operation of authorization_admin.rs does to its actor and its request before it opens a
-- transaction.
use conversation_blackboard.Common.{ℕ, String, not, Option, none, some, if◌then◌else◌}
use conversation_blackboard.Sql.{Result, ok, err, ◌>>=◌}
use conversation_blackboard.Board.{Principal}
use conversation_blackboard.Text.{normalize, normalize_intent_id, validate_participant_id}
use conversation_blackboard.Authorization.Capability.{is_known_capability}
use conversation_blackboard.Administration.Types.{
  AdministrationError, invalid_field, invalid_participant_id, invalid_actor_participant_id,
  invalid_intent_id, unsupported_capability, AuthorizationAdministrationActor,
  DurableGrantCreateRequest, DelegatedGrantCreateRequest, NormalizedActor,
}

-- `ok_or`
abbrev pub ok_or : {A : Type 0} → Option A → AdministrationError → Result AdministrationError A
ok_or none e = err e
ok_or (some a) e = ok a

-- `value.map(f).transpose()`
abbrev pub traverse :
    {A B : Type 0}
    → (A → Result AdministrationError B)
    → Option A
    → Result AdministrationError (Option B)
traverse f none = ok none
traverse f (some a) = f a >>= λ b. ok (some b)

abbrev pub max_provider_bytes : ℕ
max_provider_bytes = 256

abbrev pub max_subject_bytes : ℕ
max_subject_bytes = 256

abbrev pub max_capability_bytes : ℕ
max_capability_bytes = 128

abbrev pub max_resource_bytes : ℕ
max_resource_bytes = 256

abbrev pub max_surface_bytes : ℕ
max_surface_bytes = 64

abbrev pub normalize_field : String → ℕ → String → Result AdministrationError String
normalize_field value max_bytes field = ok_or (normalize max_bytes value) (invalid_field field)

abbrev pub normalize_optional :
    Option String → ℕ → String → Result AdministrationError (Option String)
normalize_optional value max_bytes field = traverse (λ v. normalize_field v max_bytes field) value

abbrev normalize_principal :
    Option Principal → Result AdministrationError (Option String × Option String)
normalize_principal none = ok (none, none)
normalize_principal (some principal) = do
  provider ← normalize_field principal.provider max_provider_bytes "actor_provider"
  subject ← normalize_field principal.subject max_subject_bytes "actor_subject"
  ok (some provider, some subject)

unfoldable pub normalize_actor :
    AuthorizationAdministrationActor → Result AdministrationError NormalizedActor
normalize_actor actor = do
  surface ← normalize_field actor.surface max_surface_bytes "actor_surface"
  named ← normalize_principal actor.principal
  participant ←
      traverse (λ v. ok_or (validate_participant_id v) invalid_actor_participant_id)
        actor.participant_id
  ok (record {
    surface = surface;
    provider = named.0;
    subject = named.1;
    participant_id = participant;
  })

unfoldable pub normalize_durable_grant_create_request :
    DurableGrantCreateRequest → Result AdministrationError DurableGrantCreateRequest
normalize_durable_grant_create_request request = do
  provider ← normalize_field request.principal_provider max_provider_bytes "principal_provider"
  subject ← normalize_field request.principal_subject max_subject_bytes "principal_subject"
  participant ← ok_or (validate_participant_id request.participant_id) invalid_participant_id
  right ← normalize_field request.capability max_capability_bytes "capability"
  if not (is_known_capability right) then err (unsupported_capability right) else do
    target ← normalize_optional request.resource max_resource_bytes "resource"
    ok (record {
      principal_provider = provider;
      principal_subject = subject;
      participant_id = participant;
      capability = right;
      resource = target;
    })

unfoldable pub normalize_delegated_grant_create_request :
    DelegatedGrantCreateRequest → Result AdministrationError DelegatedGrantCreateRequest
normalize_delegated_grant_create_request request = do
  provider ← normalize_field request.principal_provider max_provider_bytes "principal_provider"
  subject ← normalize_field request.principal_subject max_subject_bytes "principal_subject"
  participant ← ok_or (validate_participant_id request.participant_id) invalid_participant_id
  right ← normalize_field request.capability max_capability_bytes "capability"
  target ← normalize_optional request.resource max_resource_bytes "resource"
  intent ← traverse (λ v. ok_or (normalize_intent_id v) invalid_intent_id) request.intent_id
  ok (record {
    principal_provider = provider;
    principal_subject = subject;
    participant_id = participant;
    capability = right;
    resource = target;
    intent_id = intent;
    expires_at = request.expires_at;
    one_shot = request.one_shot;
  })
