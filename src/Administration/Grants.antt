-- ===== src/Administration/Grants.antt =====
-- The bodies of the transactions of authorization_admin.rs: creation and deactivation of durable
-- grants, each change with its event.
use conversation_blackboard.Common.{
  ℕ, String, Bool, false, not, ◌&&◌, Option, none, some, List, [], ◌∷◌, ◌++◌, leb, if◌then◌else◌,
}
use conversation_blackboard.Common.Int.{ℤ, pos, leb_ℤ}
use conversation_blackboard.Common.Eq.{◌==◌, string_eq, nat_eq, int_eq, option_eq}
use conversation_blackboard.Sql.{
  Result, ok, err, ◌>>=◌, select, count_rows, first, find, update_where, order_by, next_rowid,
}
use conversation_blackboard.Board.{Participant, DurableGrant, AdministrationEventRow, Database}
use conversation_blackboard.Administration.Types.{
  AdministrationError, participant_not_active, unknown_participant, grant_id_not_positive,
  DurableGrantCreateRequest, DurableGrantCreateOutcome, created, existing, reactivated,
  NormalizedActor, GrantScope, AdministrationEvent,
}

unfoldable pub require_active_participant :
    Database → String → Result AdministrationError (Unit {0})
require_active_participant db participant_id =
    elim (find (λ (p : Participant). p.participant_id == participant_id) db.web_participants) [
      | none ↦ err (unknown_participant participant_id)
      | some p ↦ if p.status == "active" then ok tt else err (participant_not_active participant_id)
    ]

abbrev pub event_row : ℕ → ℕ → NormalizedActor → AdministrationEvent → AdministrationEventRow
event_row id now actor event = record {
  id = id;
  grant_store = event.grant_store;
  grant_id = event.grant_id;
  operation = event.operation;
  actor_surface = actor.surface;
  actor_provider = actor.provider;
  actor_subject = actor.subject;
  actor_participant_id = actor.participant_id;
  target_principal_provider = event.scope.principal_provider;
  target_principal_subject = event.scope.principal_subject;
  participant_id = event.scope.participant_id;
  capability = event.scope.capability;
  resource = event.scope.resource;
  intent_id = event.scope.intent_id;
  expires_at = event.scope.expires_at;
  one_shot = event.scope.one_shot;
  before_status = event.before_status;
  after_status = event.after_status;
  created_at = now;
}

unfoldable pub record_event : ℕ → NormalizedActor → AdministrationEvent → Database → Database
record_event now actor event db = record db {
  authorization_admin_events =
      db.authorization_admin_events
      ++ event_row (next_rowid (λ (e : AdministrationEventRow). e.id) db.authorization_admin_events)
          now actor event
        ∷ [];
}

-- principal_provider = ?1 AND principal_subject = ?2 AND participant_id = ?3 AND capability = ?4
-- AND resource IS ?5
unfoldable pub is_same_grant : DurableGrantCreateRequest → DurableGrant → Bool
is_same_grant request g =
    g.principal_provider == request.principal_provider
    && g.principal_subject == request.principal_subject
    && g.participant_id == request.participant_id
    && g.capability == request.capability
    && g.resource == request.resource

abbrev pub durable_scope : DurableGrantCreateRequest → GrantScope
durable_scope request = record {
  principal_provider = request.principal_provider;
  principal_subject = request.principal_subject;
  participant_id = request.participant_id;
  capability = request.capability;
  resource = request.resource;
  intent_id = none;
  expires_at = none;
  one_shot = false;
}

abbrev pub durable_event : ℕ → String → GrantScope → Option String → String → AdministrationEvent
durable_event id operation scope before_status after_status = record {
  grant_store = "durable";
  grant_id = id;
  operation = operation;
  scope = scope;
  before_status = before_status;
  after_status = after_status;
}

abbrev pub set_durable_status : ℕ → String → DurableGrant → DurableGrant
set_durable_status now status g = record g { status = status; updated_at = now }

abbrev pub is_active_grant : DurableGrant → Bool
is_active_grant g = g.status == "active"

abbrev pub durable_row : ℕ → ℕ → DurableGrantCreateRequest → DurableGrant
durable_row id now request = record {
  id = id;
  principal_provider = request.principal_provider;
  principal_subject = request.principal_subject;
  participant_id = request.participant_id;
  capability = request.capability;
  resource = request.resource;
  status = "active";
  created_at = now;
  updated_at = now;
}

-- The branch `if let Some((id, _)) = rows.first()`.
unfoldable pub reactivate_durable_grant :
    ℕ
    → NormalizedActor
    → DurableGrantCreateRequest
    → DurableGrant
    → Database
    → Database × DurableGrantCreateOutcome
reactivate_durable_grant now actor request g db = (
  record_event now actor
      (durable_event g.id "reactivate" (durable_scope request) (some "inactive") "active")
      (record db {
        principal_grants =
            update_where (λ r. r.id == g.id) (set_durable_status now "active") db.principal_grants;
      }),
  record { id = g.id; state = reactivated },
)

-- From the INSERT on.
unfoldable pub insert_durable_grant :
    ℕ
    → NormalizedActor
    → DurableGrantCreateRequest
    → Database
    → Database × DurableGrantCreateOutcome
insert_durable_grant now actor request db =
    let id = next_rowid (λ (g : DurableGrant). g.id) db.principal_grants in
    (
      record_event now actor (durable_event id "create" (durable_scope request) none "active")
          (record db { principal_grants = db.principal_grants ++ durable_row id now request ∷ [] }),
      record { id = id; state = created },
    )

abbrev pub by_id : DurableGrant → DurableGrant → Bool
by_id a b = leb a.id b.id

-- The rows of the grant, and what to do with them.
unfoldable pub place_durable_grant :
    ℕ
    → NormalizedActor
    → DurableGrantCreateRequest
    → List DurableGrant
    → Database
    → Database × DurableGrantCreateOutcome
place_durable_grant now actor request rows db = elim (find is_active_grant rows) [
  | some g ↦ (db, record { id = g.id; state = existing })
  | none ↦ elim (first rows) [
    | some g ↦ reactivate_durable_grant now actor request g db
    | none ↦ insert_durable_grant now actor request db
  ]
]

unfoldable pub create_durable_grant_in_tx :
    ℕ
    → NormalizedActor
    → DurableGrantCreateRequest
    → Database
    → Result AdministrationError (Database × DurableGrantCreateOutcome)
create_durable_grant_in_tx now actor request db =
    require_active_participant db request.participant_id >>= λ _. ok (
      place_durable_grant now actor request
        (order_by by_id (select (is_same_grant request) db.principal_grants)) db)

-- `for id in &active_ids { record_event(…) }`
unfoldable pub record_deactivations :
    ℕ → NormalizedActor → GrantScope → List DurableGrant → Database → Database
record_deactivations now actor scope [] db = db
record_deactivations now actor scope (g ∷ rest) db =
    record_deactivations now actor scope rest
      (record_event now actor (durable_event g.id "deactivate" scope (some "active") "inactive") db)

abbrev pub request_of : DurableGrant → DurableGrantCreateRequest
request_of g = record {
  principal_provider = g.principal_provider;
  principal_subject = g.principal_subject;
  participant_id = g.participant_id;
  capability = g.capability;
  resource = g.resource;
}

abbrev pub is_live_twin : DurableGrant → DurableGrant → Bool
is_live_twin g r = is_same_grant (request_of g) r && not (r.status == "inactive")

-- The scope of the row, the UPDATE and the events; the result counts the rows changed.
unfoldable pub deactivate_scope : ℕ → NormalizedActor → DurableGrant → Database → Database × ℕ
deactivate_scope now actor g db =
    let active = order_by by_id (select (is_live_twin g) db.principal_grants) in
    (
      record_deactivations now actor (durable_scope (request_of g)) active (record db {
        principal_grants =
            update_where (is_live_twin g) (set_durable_status now "inactive") db.principal_grants;
      }),
      count_rows (is_live_twin g) db.principal_grants,
    )

unfoldable pub deactivate_durable_grant_in_tx :
    ℕ → NormalizedActor → ℤ → Database → Result AdministrationError (Database × Option ℕ)
deactivate_durable_grant_in_tx now actor grant_id db =
    if leb_ℤ grant_id (pos 0)
    then err grant_id_not_positive
    else elim (find (λ (g : DurableGrant). pos g.id == grant_id) db.principal_grants) [
      | none ↦ ok (db, none)
      | some g ↦ let (changed, rows) = deactivate_scope now actor g db in ok (changed, some rows)
    ]
