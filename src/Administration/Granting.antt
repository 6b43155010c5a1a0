-- ===== src/Administration/Granting.antt =====
-- The public operations that create a durable grant.
use conversation_blackboard.Common.{ℕ, String, ◌≡◌, refl, ap, subst, ◌∙◌, inl, inr, arith}
use conversation_blackboard.Common.Eq.{==_iff, string_eq}
use conversation_blackboard.Sql.{ok, select, order_by}
use conversation_blackboard.Sql.Laws.{find-Memᴰ}
use conversation_blackboard.Sql.Order.{order_by-Memᴰ, select-Memᴰ}
use conversation_blackboard.Board.{Principal, Database}
use conversation_blackboard.Execution.Frames.{ok-or-err}
use conversation_blackboard.Administration.Types.{
  DurableGrantCreateRequest, DurableGrantCreateOutcome, existing, NormalizedActor,
}
use conversation_blackboard.Administration.Entries.{is_same_grant-IsGrantOf}
use conversation_blackboard.Administration.Grants.{
  require_active_participant, is_same_grant, is_active_grant, by_id, record_event,
  reactivate_durable_grant, insert_durable_grant, place_durable_grant, create_durable_grant_in_tx,
}
use conversation_blackboard.Administration.Normalized.{IsNormalizedCaller, IsNormalizedRequest}
use conversation_blackboard.Administration.Creation.{IsGranted, Places, place-Places}

pub create_in_tx-Places :
    (now : ℕ) (actor : NormalizedActor) (request : DurableGrantCreateRequest) (db : Database)
    {done : Database × DurableGrantCreateOutcome}
    → create_durable_grant_in_tx now actor request db ≡ ok done
    → Places now actor request db done
unfolding create_durable_grant_in_tx
create_in_tx-Places now actor request db {done = done} h =
    elim (ok-or-err (require_active_participant db request.participant_id)) [
      | inr (e, failed) ↦ let gone = rw (failed, create_durable_grant_in_tx) at h in cc
      | inl (there, e) ↦
          let result = rw (e, create_durable_grant_in_tx) at h in
          let same : place_durable_grant now actor request
                (order_by by_id (select (is_same_grant request) db.principal_grants)) db
              ≡ done =
            cc in
          subst (Places now actor request db) same (place-Places now actor request db)
    ]

create_in_tx-participants :
    (now : ℕ) (actor : NormalizedActor) (request : DurableGrantCreateRequest) (db : Database)
    {done : Database × DurableGrantCreateOutcome}
    → create_durable_grant_in_tx now actor request db ≡ ok done
    → (require_active_participant db request.participant_id ≡ ok tt)
      × (done.0.web_participants ≡ db.web_participants)
unfolding create_durable_grant_in_tx place_durable_grant reactivate_durable_grant
    insert_durable_grant record_event
create_in_tx-participants now actor request db h = ground arith

-- Where the grant is there and active, nothing is left to do.
place-existing :
    (now : ℕ) (actor : NormalizedActor) (request : DurableGrantCreateRequest) (db : Database)
    {o : DurableGrantCreateOutcome}
    → IsGranted request o db
    → (id : ℕ) × (place_durable_grant now actor request
          (order_by by_id (select (is_same_grant request) db.principal_grants))
          db
        ≡ (db, record { id = id; state = existing }))
unfolding place_durable_grant
place-existing now actor request db g =
    let there = order_by-Memᴰ by_id (select (is_same_grant request) db.principal_grants) (
      select-Memᴰ (is_same_grant request) db.principal_grants g.stored
        ((is_same_grant-IsGrantOf request g.grant).1 g.same)) in
    let (r, found) =
      find-Memᴰ is_active_grant _ there ((==_iff g.grant.status "active").1 g.active) in
    (r.id, rw (found, place_durable_grant) refl)

require-participants :
    (a b : Database) (participant_id : String)
    → a.web_participants ≡ b.web_participants
    → require_active_participant a participant_id ≡ require_active_participant b participant_id
unfolding require_active_participant
require-participants a b participant_id h = rw h refl

-- Creating a durable grant once more, by any actor at any time, on the database that its creation
-- left, finds it and changes nothing.
pub create_durable_grant_in_tx-create_durable_grant_in_tx :
    (now : ℕ) (actor : NormalizedActor) (request : DurableGrantCreateRequest) (db : Database)
    {done : Database × DurableGrantCreateOutcome}
    → create_durable_grant_in_tx now actor request db ≡ ok done
    → (later : ℕ) (other : NormalizedActor)
    → (id : ℕ) × (create_durable_grant_in_tx later other request done.0
        ≡ ok (done.0, record { id = id; state = existing }))
unfolding create_durable_grant_in_tx
create_durable_grant_in_tx-create_durable_grant_in_tx now actor request db {done = done} h later
      other =
    let (granted, ways) = create_in_tx-Places now actor request db h in
    let (active, kept) = create_in_tx-participants now actor request db h in
    let (id, placed) = place-existing later other request done.0 granted in
    let still = require-participants done.0 db request.participant_id kept ∙ active in
    (id, rw (still, create_durable_grant_in_tx) (ap ok placed))

-- What a creation of a durable grant for a caller says when it succeeds, of the caller and the request
-- as they were normalized.
abbrev pub Creates :
    ℕ
    → String
    → Principal
    → String
    → DurableGrantCreateRequest
    → Database
    → Database × DurableGrantCreateOutcome
    → Type 0
Creates now surface caller participant_id request db done =
    (a : NormalizedActor) × (n : DurableGrantCreateRequest) × IsNormalizedCaller surface caller
      participant_id a
    × IsNormalizedRequest request n
    × Places now a n db done
