-- ===== src/Administration/Normalized.antt =====
-- What the normalization of an actor and of a request keeps: each field, normalized, in its place.
use conversation_blackboard.Common.{
  String, ◌≡◌, ap, ◌∙◌, ◌⊎◌, inl, inr, true, none, some, Bool-cases, Option-cases,
}
use conversation_blackboard.Sql.{ok}
use conversation_blackboard.Board.{Principal}
use conversation_blackboard.Text.{normalize, validate_participant_id}
use conversation_blackboard.Authorization.Capability.{is_known_capability}
use conversation_blackboard.Administration.Types.{DurableGrantCreateRequest, NormalizedActor}
use conversation_blackboard.Administration.Requests.{
  normalize_actor, normalize_durable_grant_create_request,
}
use conversation_blackboard.Administration.Operations.{caller_actor}

-- The caller, normalized.
pub record IsNormalizedCaller (surface : String) (caller : Principal) (participant_id : String)
    (actor : NormalizedActor) : Type 0 where
  pub surface_eq : normalize 64 surface ≡ some actor.surface
  pub provider_eq : normalize 256 caller.provider ≡ actor.provider
  pub subject_eq : normalize 256 caller.subject ≡ actor.subject
  pub participant_eq : validate_participant_id participant_id ≡ actor.participant_id

-- The request, normalized, for a capability that is known.
pub record IsNormalizedRequest (request normalized : DurableGrantCreateRequest) : Type 0 where
  pub provider_eq : normalize 256 request.principal_provider ≡ some normalized.principal_provider
  pub subject_eq : normalize 256 request.principal_subject ≡ some normalized.principal_subject
  pub participant_eq :
      validate_participant_id request.participant_id ≡ some normalized.participant_id
  pub capability_eq : normalize 128 request.capability ≡ some normalized.capability
  pub known : is_known_capability normalized.capability ≡ true
  pub resource_eq :
      ((request.resource ≡ none) × (normalized.resource ≡ none))
      ⊎ ((r : String) × (request.resource ≡ some r) × (normalize 256 r ≡ normalized.resource))

pub caller_actor-IsNormalizedCaller :
    (surface : String) (caller : Principal) (participant_id : String) {actor : NormalizedActor}
    → normalize_actor (caller_actor surface caller participant_id) ≡ ok actor
    → IsNormalizedCaller surface caller participant_id actor
unfolding normalize_actor
caller_actor-IsNormalizedCaller surface caller participant_id h =
    elim (Option-cases (normalize 64 surface)) [
      | inl s ↦ let gone = rw (normalize_actor, s) at h in cc
      | inr (s, es) ↦ elim (Option-cases (normalize 256 caller.provider)) [
        | inl p ↦ let gone = rw (normalize_actor, es, p) at h in cc
        | inr (p, ep) ↦ elim (Option-cases (normalize 256 caller.subject)) [
          | inl q ↦ let gone = rw (normalize_actor, es, ep, q) at h in cc
          | inr (q, eq) ↦ elim (Option-cases (validate_participant_id participant_id)) [
            | inl i ↦ let gone = rw (normalize_actor, es, ep, eq, i) at h in cc
            | inr (i, ei) ↦
                let done = rw (normalize_actor, es, ep, eq, ei) at h in
                record {
                  surface_eq = es ∙ cc;
                  provider_eq = ep ∙ cc;
                  subject_eq = eq ∙ cc;
                  participant_eq = ei ∙ cc;
                }
          ]
        ]
      ]
    ]

module _ (request : DurableGrantCreateRequest) {normalized : DurableGrantCreateRequest} where
  IsNormalizedRequest-with_capability :
      normalize_durable_grant_create_request request ≡ ok normalized
      → {p s i c : String} → normalize 256 request.principal_provider ≡ some p
      → normalize 256 request.principal_subject ≡ some s
      → validate_participant_id request.participant_id ≡ some i
      → normalize 128 request.capability ≡ some c
      → is_known_capability c ≡ true
      → IsNormalizedRequest request normalized
  unfolding normalize_durable_grant_create_request
  IsNormalizedRequest-with_capability h ep es ei ec known = elim (Option-cases request.resource) [
    | inl unscoped ↦
        let done =
          rw (normalize_durable_grant_create_request, ep, es, ei, ec, known, unscoped) at h in
        record {
          provider_eq = ep ∙ cc;
          subject_eq = es ∙ cc;
          participant_eq = ei ∙ cc;
          capability_eq = ec ∙ cc;
          known = ap is_known_capability (cc) ∙ known;
          resource_eq = inl (unscoped, cc);
        }
    | inr (r, given) ↦ elim (Option-cases (normalize 256 r)) [
      | inl bad ↦
          let gone =
            rw (normalize_durable_grant_create_request, ep, es, ei, ec, known, given, bad) at h in
          cc
      | inr (n, er) ↦
          let done =
            rw (normalize_durable_grant_create_request, ep, es, ei, ec, known, given, er) at h in
          record {
            provider_eq = ep ∙ cc;
            subject_eq = es ∙ cc;
            participant_eq = ei ∙ cc;
            capability_eq = ec ∙ cc;
            known = ap is_known_capability (cc) ∙ known;
            resource_eq = inr (r, given, er ∙ cc);
          }
    ]
  ]

  pub normalize_durable_grant_create_request-IsNormalizedRequest :
      normalize_durable_grant_create_request request ≡ ok normalized
      → IsNormalizedRequest request normalized
  unfolding normalize_durable_grant_create_request
  normalize_durable_grant_create_request-IsNormalizedRequest h =
      elim (Option-cases (normalize 256 request.principal_provider)) [
        | inl p ↦ let gone = rw (normalize_durable_grant_create_request, p) at h in cc
        | inr (p, ep) ↦ elim (Option-cases (normalize 256 request.principal_subject)) [
          | inl s ↦ let gone = rw (normalize_durable_grant_create_request, ep, s) at h in cc
          | inr (s, es) ↦ elim (Option-cases (validate_participant_id request.participant_id)) [
            | inl i ↦ let gone = rw (normalize_durable_grant_create_request, ep, es, i) at h in cc
            | inr (i, ei) ↦ elim (Option-cases (normalize 128 request.capability)) [
              | inl c ↦
                  let gone = rw (normalize_durable_grant_create_request, ep, es, ei, c) at h in cc
              | inr (c, ec) ↦ elim (Bool-cases (is_known_capability c)) [
                | inl known ↦ IsNormalizedRequest-with_capability h ep es ei ec known
                | inr unknown ↦
                    let gone =
                      rw (normalize_durable_grant_create_request, ep, es, ei, ec, unknown) at h in
                    cc
              ]
            ]
          ]
        ]
      ]
