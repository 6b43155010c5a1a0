-- ===== src/Administration/Entries.antt =====
-- What the log says of a change of a durable grant, and which grant a request means, column by column.
use conversation_blackboard.Common.{
  ℕ, String, Bool, not, ◌&&◌, ◌≡◌, ◌↔◌, true, false, Option, none, and-true, and_intro,
}
use conversation_blackboard.Common.Eq.{◌==◌, ==_iff, string_eq, option_eq}
use conversation_blackboard.Board.{DurableGrant, AdministrationEventRow}
use conversation_blackboard.Administration.Types.{DurableGrantCreateRequest, NormalizedActor}
use conversation_blackboard.Administration.Grants.{is_same_grant}

-- The entry of the log for a change of the durable grant `grant_id` of a scope.
abbrev pub durable_entry :
    ℕ
    → ℕ
    → NormalizedActor
    → DurableGrantCreateRequest
    → ℕ
    → String
    → Option String
    → String
    → AdministrationEventRow
durable_entry id now actor scope grant_id operation before_status after_status = record {
  id = id;
  grant_store = "durable";
  grant_id = grant_id;
  operation = operation;
  actor_surface = actor.surface;
  actor_provider = actor.provider;
  actor_subject = actor.subject;
  actor_participant_id = actor.participant_id;
  target_principal_provider = scope.principal_provider;
  target_principal_subject = scope.principal_subject;
  participant_id = scope.participant_id;
  capability = scope.capability;
  resource = scope.resource;
  intent_id = none;
  expires_at = none;
  one_shot = false;
  before_status = before_status;
  after_status = after_status;
  created_at = now;
}

-- What a grant is for, without its status.
abbrev pub scope_of : DurableGrant → DurableGrantCreateRequest
scope_of g = record {
  principal_provider = g.principal_provider;
  principal_subject = g.principal_subject;
  participant_id = g.participant_id;
  capability = g.capability;
  resource = g.resource;
}

-- A row for what `g` is for, and not inactive.
abbrev pub is_revocable : DurableGrant → DurableGrant → Bool
is_revocable g r =
    r.principal_provider == g.principal_provider
    && r.principal_subject == g.principal_subject
    && r.participant_id == g.participant_id
    && r.capability == g.capability
    && r.resource == g.resource
    && not (r.status == "inactive")

-- The grant has the scope of the request.
pub record IsGrantOf (request : DurableGrantCreateRequest) (g : DurableGrant) : Type 0 where
  pub provider : g.principal_provider ≡ request.principal_provider
  pub subject : g.principal_subject ≡ request.principal_subject
  pub participant : g.participant_id ≡ request.participant_id
  pub capability : g.capability ≡ request.capability
  pub resource : g.resource ≡ request.resource

pub is_same_grant-IsGrantOf :
    (request : DurableGrantCreateRequest) (g : DurableGrant)
    → (is_same_grant request g ≡ true) ↔ IsGrantOf request g
unfolding is_same_grant
is_same_grant-IsGrantOf request g = (
  λ h.
      let (h4, e5) = and-true _ _ h in
      let (h3, e4) = and-true _ _ h4 in
      let (h2, e3) = and-true _ _ h3 in
      let (e1, e2) = and-true _ _ h2 in
      record {
        provider = (==_iff g.principal_provider request.principal_provider).0 e1;
        subject = (==_iff g.principal_subject request.principal_subject).0 e2;
        participant = (==_iff g.participant_id request.participant_id).0 e3;
        capability = (==_iff g.capability request.capability).0 e4;
        resource = (==_iff g.resource request.resource).0 e5;
      },
  λ s.
      and_intro
        (and_intro
          (and_intro
            (and_intro ((==_iff g.principal_provider request.principal_provider).1 s.provider)
              ((==_iff g.principal_subject request.principal_subject).1 s.subject))
            ((==_iff g.participant_id request.participant_id).1 s.participant))
          ((==_iff g.capability request.capability).1 s.capability))
        ((==_iff g.resource request.resource).1 s.resource),
)
