-- ===== src/Administration/Delegations.antt =====
-- The bodies of the transactions that create and deactivate a delegated grant.
use conversation_blackboard.Common.{
  ℕ, String, Bool, not, ◌&&◌, Option, none, some, [], ◌∷◌, ◌++◌, if◌then◌else◌,
}
use conversation_blackboard.Common.Int.{ℤ, pos, leb_ℤ}
use conversation_blackboard.Common.Eq.{◌==◌, string_eq, nat_eq, int_eq, option_eq}
use conversation_blackboard.Sql.{Result, ok, err, ◌>>=◌, count_rows, find, update_where, next_rowid}
use conversation_blackboard.Board.{DelegatedGrant, Database}
use conversation_blackboard.Authorization.Delegated.{is_some_and}
use conversation_blackboard.Administration.Types.{
  AdministrationError, grant_id_not_positive, expires_at_not_future, DelegatedGrantCreateRequest,
  NormalizedActor, GrantScope, AdministrationEvent,
}
use conversation_blackboard.Administration.Grants.{require_active_participant, record_event}

abbrev pub delegated_row : ℕ → ℕ → DelegatedGrantCreateRequest → DelegatedGrant
delegated_row id now request = record {
  id = id;
  principal_provider = request.principal_provider;
  principal_subject = request.principal_subject;
  participant_id = request.participant_id;
  capability = request.capability;
  resource = request.resource;
  intent_id = request.intent_id;
  expires_at = request.expires_at;
  one_shot = request.one_shot;
  consumed_at = none;
  consumed_intent_id = none;
  status = "active";
  created_at = now;
  updated_at = now;
}

abbrev pub delegated_event : ℕ → String → GrantScope → Option String → String → AdministrationEvent
delegated_event id operation scope before_status after_status = record {
  grant_store = "delegated";
  grant_id = id;
  operation = operation;
  scope = scope;
  before_status = before_status;
  after_status = after_status;
}

unfoldable pub create_delegated_grant_in_tx :
    ℕ
    → NormalizedActor
    → DelegatedGrantCreateRequest
    → Database
    → Result AdministrationError (Database × ℕ)
create_delegated_grant_in_tx now actor request db =
    require_active_participant db request.participant_id >>= λ _.
    if is_some_and request.expires_at (λ t. leb_ℤ t (pos now))
    then err expires_at_not_future
    else let id = next_rowid (λ (g : DelegatedGrant). g.id) db.delegated_grants in
      ok (
        record_event now actor
            (delegated_event id "create"
              (record {
                principal_provider = request.principal_provider;
                principal_subject = request.principal_subject;
                participant_id = request.participant_id;
                capability = request.capability;
                resource = request.resource;
                intent_id = request.intent_id;
                expires_at = request.expires_at;
                one_shot = request.one_shot;
              })
              none "active")
            (record db {
              delegated_grants = db.delegated_grants ++ delegated_row id now request ∷ [];
            }),
        id,
      )

abbrev pub delegated_scope : DelegatedGrant → GrantScope
delegated_scope g = record {
  principal_provider = g.principal_provider;
  principal_subject = g.principal_subject;
  participant_id = g.participant_id;
  capability = g.capability;
  resource = g.resource;
  intent_id = g.intent_id;
  expires_at = g.expires_at;
  one_shot = g.one_shot;
}

abbrev pub is_live_delegated : ℤ → DelegatedGrant → Bool
is_live_delegated grant_id g = pos g.id == grant_id && not (g.status == "inactive")

abbrev pub set_inactive : ℕ → DelegatedGrant → DelegatedGrant
set_inactive now g = record g { status = "inactive"; updated_at = now }

unfoldable pub deactivate_delegated_grant_in_tx :
    ℕ → NormalizedActor → ℤ → Database → Result AdministrationError (Database × Option ℕ)
deactivate_delegated_grant_in_tx now actor grant_id db =
    if leb_ℤ grant_id (pos 0)
    then err grant_id_not_positive
    else elim (find (λ (g : DelegatedGrant). pos g.id == grant_id) db.delegated_grants) [
      | none ↦ ok (db, none)
      | some g ↦
          let updated = count_rows (is_live_delegated grant_id) db.delegated_grants in
          let db1 : Database = record db {
            delegated_grants =
                update_where (is_live_delegated grant_id) (set_inactive now) db.delegated_grants;
          } in
          ok (
            if updated == 1
                then record_event now actor
                    (delegated_event g.id "deactivate" (delegated_scope g) (some g.status)
                      "inactive")
                    db1
                else db1,
            some updated,
          )
    ]
