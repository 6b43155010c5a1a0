-- ===== src/Administration/Operations.antt =====
-- The public operations of authorization_admin.rs: the checks in front of the transaction, the
-- caller's authorization inside it, and the commit.
use conversation_blackboard.Common.{
  ℕ, String, Bool, not, ◌&&◌, Option, none, some, List, [], ◌∷◌, if◌then◌else◌,
}
use conversation_blackboard.Common.Int.{ℤ}
use conversation_blackboard.Sql.{Result, ok, err, ◌>>=◌}
use conversation_blackboard.Board.{Principal, Database, table_has_columns}
use conversation_blackboard.Transaction.{commit, in_tx}
use conversation_blackboard.Authorization.Capability.{
  manage_authorization_policy, authorization_policy_admin_resource,
}
use conversation_blackboard.Authorization.Schema.{authorization_policy_snapshot_schema_current}
use conversation_blackboard.Authorization.Evaluate.{explain_authorization}
use conversation_blackboard.Administration.Types.{
  AdministrationError, schema_requires_migration, authorization_denied, from_db,
  AuthorizationAdministrationActor, DurableGrantCreateRequest, DelegatedGrantCreateRequest,
  DurableGrantCreateOutcome,
}
use conversation_blackboard.Administration.Requests.{
  normalize_actor, normalize_durable_grant_create_request, normalize_delegated_grant_create_request,
}
use conversation_blackboard.Administration.Grants.{
  create_durable_grant_in_tx, deactivate_durable_grant_in_tx,
}
use conversation_blackboard.Administration.Delegations.{
  create_delegated_grant_in_tx, deactivate_delegated_grant_in_tx,
}

abbrev event_columns : List String
event_columns =
    "id" ∷ "grant_store" ∷ "grant_id" ∷ "operation" ∷ "actor_surface" ∷ "actor_provider"
    ∷ "actor_subject" ∷ "actor_participant_id" ∷ "target_principal_provider"
    ∷ "target_principal_subject" ∷ "participant_id" ∷ "capability" ∷ "resource" ∷ "intent_id"
    ∷ "expires_at" ∷ "one_shot" ∷ "before_status" ∷ "after_status" ∷ "created_at" ∷ []

unfoldable pub schema_current : Database → Bool
schema_current db =
    authorization_policy_snapshot_schema_current db
    && table_has_columns db "delegated_grants" ("updated_at" ∷ [])
    && table_has_columns db "authorization_admin_events" event_columns

-- A change of the database inside a transaction, with its outcome.
abbrev pub Change : Type 0 → Type 0
Change R = Database → Result AdministrationError (Database × R)

-- The transaction: the body, then `tx.commit()`; an error leaves it, and so rolls back.
unfoldable pub committed :
    {R : Type 0} → Change R → Database → Database × Result AdministrationError R
committed body db = in_tx db (body db >>= λ done. ok (commit done.0 done.1))

-- The same with the caller's right to manage the policy checked first.
unfoldable pub authorized : {R : Type 0} → ℕ → Principal → String → Change R → Change R
authorized now caller participant_id body db =
    from_db (
      explain_authorization db now caller participant_id manage_authorization_policy
        (some authorization_policy_admin_resource) none)
    >>= λ decision. if not decision.allowed then err authorization_denied else body db

-- `require_schema_current`, then the normalization, then the transaction on what it gave.
unfoldable pub prepared :
    {N R : Type 0}
    → Result AdministrationError N
    → (N → Change R)
    → Database
    → Database × Result AdministrationError R
prepared input body db =
    if not (schema_current db)
    then (db, err schema_requires_migration)
    else elim input [ err e ↦ (db, err e) | ok n ↦ committed (body n) db ]

abbrev pub caller_actor : String → Principal → String → AuthorizationAdministrationActor
caller_actor surface caller participant_id = record {
  surface = surface;
  principal = some caller;
  participant_id = some participant_id;
}

abbrev both_ok :
    {A B : Type 0}
    → Result AdministrationError A
    → Result AdministrationError B
    → Result AdministrationError (A × B)
both_ok a b = a >>= λ x. b >>= λ y. ok (x, y)

module _ (now : ℕ) where
  unfoldable pub create_durable_grant :
      AuthorizationAdministrationActor
      → DurableGrantCreateRequest
      → Database
      → Database × Result AdministrationError DurableGrantCreateOutcome
  create_durable_grant actor request =
      prepared (both_ok (normalize_actor actor) (normalize_durable_grant_create_request request))
        (λ n. create_durable_grant_in_tx now n.0 n.1)

  unfoldable pub create_durable_grant_authorized :
      String
      → Principal
      → String
      → DurableGrantCreateRequest
      → Database
      → Database × Result AdministrationError DurableGrantCreateOutcome
  create_durable_grant_authorized surface caller participant_id request =
      prepared
        (both_ok (normalize_actor (caller_actor surface caller participant_id))
          (normalize_durable_grant_create_request request))
        (λ n. authorized now caller participant_id (create_durable_grant_in_tx now n.0 n.1))

  unfoldable pub deactivate_durable_grant :
      AuthorizationAdministrationActor
      → ℤ
      → Database
      → Database × Result AdministrationError (Option ℕ)
  deactivate_durable_grant actor grant_id =
      prepared (normalize_actor actor) (λ a. deactivate_durable_grant_in_tx now a grant_id)

  unfoldable pub deactivate_durable_grant_authorized :
      String → Principal → String → ℤ → Database → Database × Result AdministrationError (Option ℕ)
  deactivate_durable_grant_authorized surface caller participant_id grant_id =
      prepared (normalize_actor (caller_actor surface caller participant_id))
        (λ a. authorized now caller participant_id (deactivate_durable_grant_in_tx now a grant_id))

  unfoldable pub create_delegated_grant :
      AuthorizationAdministrationActor
      → DelegatedGrantCreateRequest
      → Database
      → Database × Result AdministrationError ℕ
  create_delegated_grant actor request =
      prepared (both_ok (normalize_actor actor) (normalize_delegated_grant_create_request request))
        (λ n. create_delegated_grant_in_tx now n.0 n.1)

  unfoldable pub create_delegated_grant_authorized :
      String
      → Principal
      → String
      → DelegatedGrantCreateRequest
      → Database
      → Database × Result AdministrationError ℕ
  create_delegated_grant_authorized surface caller participant_id request =
      prepared
        (both_ok (normalize_actor (caller_actor surface caller participant_id))
          (normalize_delegated_grant_create_request request))
        (λ n. authorized now caller participant_id (create_delegated_grant_in_tx now n.0 n.1))

  unfoldable pub deactivate_delegated_grant :
      AuthorizationAdministrationActor
      → ℤ
      → Database
      → Database × Result AdministrationError (Option ℕ)
  deactivate_delegated_grant actor grant_id =
      prepared (normalize_actor actor) (λ a. deactivate_delegated_grant_in_tx now a grant_id)

  unfoldable pub deactivate_delegated_grant_authorized :
      String → Principal → String → ℤ → Database → Database × Result AdministrationError (Option ℕ)
  deactivate_delegated_grant_authorized surface caller participant_id grant_id =
      prepared (normalize_actor (caller_actor surface caller participant_id)) (λ a.
        authorized now caller participant_id (deactivate_delegated_grant_in_tx now a grant_id))
