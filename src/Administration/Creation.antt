-- ===== src/Administration/Creation.antt =====
-- The creation of a durable grant: it is active afterwards, and each change has one event.
use conversation_blackboard.Common.{
  ℕ, ◌<◌, String, Option, none, some, ◌≡◌, refl, subst, ◌⊎◌, inl, inr, true, List, [], ◌∷◌, ◌++◌,
  Memᴰ, Option-cases, map, if◌then◌else◌,
}
use conversation_blackboard.Common.Eq.{◌==◌, ==_iff, ==_refl, string_eq, nat_eq, option_eq}
use conversation_blackboard.Sql.{select, first, find, update_where, order_by}
use conversation_blackboard.Sql.Laws.{find_sound, select_sound, lt-next_rowid}
use conversation_blackboard.Sql.Members.{Memᴰ-map, Memᴰ-append_last}
use conversation_blackboard.Sql.Order.{Memᴰ-first, Memᴰ-order_by}
use conversation_blackboard.Board.{DurableGrant, AdministrationEventRow, Database}
use conversation_blackboard.Administration.Types.{
  DurableGrantCreateRequest, DurableGrantCreateOutcome, created, existing, reactivated,
  NormalizedActor,
}
use conversation_blackboard.Administration.Entries.{
  durable_entry, IsGrantOf, is_same_grant-IsGrantOf,
}
use conversation_blackboard.Administration.Grants.{
  record_event, is_same_grant, set_durable_status, durable_row, is_active_grant, by_id,
  reactivate_durable_grant, insert_durable_grant, place_durable_grant,
}

-- The grant of the request is stored and active, under the id that the outcome names.
pub record IsGranted (request : DurableGrantCreateRequest) (outcome : DurableGrantCreateOutcome)
    (db : Database) : Type 0 where
  pub grant : DurableGrant
  pub stored : Memᴰ grant db.principal_grants
  pub same : IsGrantOf request grant
  pub active : grant.status ≡ "active"
  pub id_eq : grant.id ≡ outcome.id

-- One event was added, which says what the actor did to the grant that is active now.
pub record IsLogged (now : ℕ) (actor : NormalizedActor) (request : DurableGrantCreateRequest)
    (grant_id : ℕ) (operation : String) (before_status : Option String) (before after : Database)
    : Type 0 where
  pub id : ℕ
  pub new : (e : AdministrationEventRow) → Memᴰ e before.authorization_admin_events → e.id < id
  pub log :
      after.authorization_admin_events
      ≡ before.authorization_admin_events
        ++ durable_entry id now actor request grant_id operation before_status "active" ∷ []

-- The grant was active and nothing changed; or it was inactive, or not there, and the change is logged.
abbrev pub Places :
    ℕ
    → NormalizedActor
    → DurableGrantCreateRequest
    → Database
    → Database × DurableGrantCreateOutcome
    → Type 0
Places now actor request db done =
    IsGranted request done.1 done.0
    × (((done.1.state ≡ existing) × (done.0 ≡ db))
        ⊎ ((done.1.state ≡ reactivated)
            × IsLogged now actor request done.1.id "reactivate" (some "inactive") db done.0)
        ⊎ ((done.1.state ≡ created) × IsLogged now actor request done.1.id "create" none db done.0))

module _ (now : ℕ) (actor : NormalizedActor) (request : DurableGrantCreateRequest)
    (db : Database) where
  reactivate-Places :
      (g : DurableGrant)
      → Memᴰ g db.principal_grants
      → is_same_grant request g ≡ true
      → Places now actor request db (reactivate_durable_grant now actor request g db)
  unfolding reactivate_durable_grant record_event update_where is_same_grant
  reactivate-Places g m same = (
    record {
      grant = set_durable_status now "active" g;
      stored =
          subst
            (λ r. Memᴰ r (
              map (λ s. if s.id == g.id then set_durable_status now "active" s else s)
                db.principal_grants))
            (rw (==_refl g.id) refl)
            (Memᴰ-map (λ s. if s.id == g.id then set_durable_status now "active" s else s)
              db.principal_grants m);
      same = (is_same_grant-IsGrantOf request (set_durable_status now "active" g)).0 same;
      active = refl;
      id_eq = refl;
    },
    inr (
        inl (
          refl,
          record {
            id = _;
            new = λ e m.
                lt-next_rowid (λ (r : AdministrationEventRow). r.id) db.authorization_admin_events
                  m;
            log = refl;
          },
        )),
  )

  insert-Places : Places now actor request db (insert_durable_grant now actor request db)
  unfolding insert_durable_grant record_event is_same_grant
  insert-Places = (
    record {
      grant = durable_row _ now request;
      stored = Memᴰ-append_last db.principal_grants _;
      same = record {
        provider = refl;
        subject = refl;
        participant = refl;
        capability = refl;
        resource = refl;
      };
      active = refl;
      id_eq = refl;
    },
    inr (
        inr (
          refl,
          record {
            id = _;
            new = λ e m.
                lt-next_rowid (λ (r : AdministrationEventRow). r.id) db.authorization_admin_events
                  m;
            log = refl;
          },
        )),
  )

  abbrev rows : List DurableGrant
  rows = order_by by_id (select (is_same_grant request) db.principal_grants)

  row_sound :
      {g : DurableGrant}
      → Memᴰ g rows
      → Memᴰ g db.principal_grants × (is_same_grant request g ≡ true)
  row_sound m = select_sound (is_same_grant request) db.principal_grants (Memᴰ-order_by by_id _ m)

  pub place-Places : Places now actor request db (place_durable_grant now actor request rows db)
  unfolding place_durable_grant
  place-Places = elim (Option-cases (find is_active_grant rows)) [
    | inr (g, found) ↦
        let (member, active) = find_sound is_active_grant rows found in
        let (m, same) = row_sound member in
        rw (found, place_durable_grant)
          (
            record {
              grant = g;
              stored = m;
              same = (is_same_grant-IsGrantOf request g).0 same;
              active = (==_iff g.status "active").0 active;
              id_eq = refl;
            },
            inl (refl, refl),
          )
    | inl no_active ↦ elim (Option-cases (first rows)) [
      | inr (g, top) ↦
          let (m, same) = row_sound (Memᴰ-first rows top) in
          rw (no_active, top, place_durable_grant) (reactivate-Places g m same)
      | inl empty ↦ rw (no_active, empty, place_durable_grant) insert-Places
    ]
  ]
