-- ===== src/Authorization/Allowed.antt =====
-- An allowed decision of `evaluate_authorization_current_schema` has an authority behind it.
use conversation_blackboard.Common.{
  ℕ, String, ◌≡◌, refl, inl, inr, true, false, Option, none, some, Memᴰ, arith, Bool-cases,
  Option-cases, ltb, ap, ◌∙◌, and-true,
}
use conversation_blackboard.Common.Eq.{◌==◌, ==_iff, string_eq, option_eq}
use conversation_blackboard.Sql.Laws.{find_sound, select_sound, count_rows-pos}
use conversation_blackboard.Sql.Order.{Memᴰ-order_by, Memᴰ-first}
use conversation_blackboard.Board.{Principal, DurableGrant, DelegatedGrant, Participant, Database}
use conversation_blackboard.Authorization.Capability.{allow, deny}
use conversation_blackboard.Authorization.Authority.{
  Admits, InDurableScope, InDelegatedScope, Authority,
}
use conversation_blackboard.Authorization.Delegated.{
  delegated_before, delegated_candidates, scan_candidates,
}
use conversation_blackboard.Authorization.Soundness.{
  durable_in_scope_sound, durable_in_scope_complete, delegated_in_scope_sound, durable_covers_sound,
  Delegates-of_match, scan_candidates-allowed,
}
use conversation_blackboard.Authorization.ImplicitRights.{implicit_authority_reason_sound}
use conversation_blackboard.Authorization.Implicit.{
  participant_policy_row, implicit_authority_reason,
}
use conversation_blackboard.Authorization.Evaluate.{
  durable_in_scope, durable_before, explicit_count, explicit_match, delegated_or_denied,
  evaluate_active, evaluate_authorization_current_schema,
}

pub participant_policy_row_sound :
    (db : Database) (p : String) {participant : Participant}
    → participant_policy_row db p ≡ some participant
    → Memᴰ participant db.web_participants × (participant.participant_id ≡ p)
unfolding participant_policy_row
participant_policy_row_sound db p {participant = participant} found =
    let (m, named) = find_sound (λ q. q.participant_id == p) db.web_participants found in
    (m, (==_iff participant.participant_id p).0 named)

module _ (db : Database) (now : ℕ) (principal : Principal) (p capability : String) where
  pub explicit_match_sound :
      (resource : Option String) {g : DurableGrant}
      → explicit_match db principal p capability resource ≡ some g
      → Memᴰ g db.principal_grants
        × InDurableScope principal p capability g
        × Admits g.resource resource
  unfolding explicit_match
  explicit_match_sound resource {g = g} h =
      let among = Memᴰ-order_by durable_before _ (Memᴰ-first _ h) in
      let (m, q) = select_sound _ db.principal_grants among in
      let (q1, q2) = and-true _ _ q in
      (m, durable_in_scope_sound principal p capability g q1, durable_covers_sound resource g q2)

  no_durable_of_count :
      ltb 0 (explicit_count db principal p capability) ≡ false
      → (g : DurableGrant) → Memᴰ g db.principal_grants
      → ¬ InDurableScope principal p capability g
  unfolding explicit_count
  no_durable_of_count h g m s =
      let some_row =
        count_rows-pos (durable_in_scope principal p capability) db.principal_grants m
          (durable_in_scope_complete principal p capability g s) in
      absurd (ground arith)

  pub delegated_candidates_sound :
      {g : DelegatedGrant}
      → Memᴰ g (delegated_candidates db principal p capability)
      → Memᴰ g db.delegated_grants × InDelegatedScope principal p capability g
  unfolding delegated_candidates
  delegated_candidates_sound {g = g} m =
      let (n, q) = select_sound _ db.delegated_grants (Memᴰ-order_by delegated_before _ m) in
      (n, delegated_in_scope_sound principal p capability g q)

  delegated_or_denied_sound :
      (resource intent_id : Option String) (participant : Participant)
      → (delegated_or_denied db now principal p capability resource intent_id).allowed ≡ true
      → Authority db now principal p capability resource intent_id participant
  unfolding delegated_or_denied deny
  delegated_or_denied_sound resource none participant h = ground arith
  delegated_or_denied_sound resource (some i) participant h =
      elim (Option-cases (
        scan_candidates db now p resource i (delegated_candidates db principal p capability)
          none)) [
            | inl e ↦ let stuck = rw (e, delegated_or_denied) at h in ground arith
            | inr (d, e) ↦
                let allowed = rw (e, delegated_or_denied) at h in
                let (g, m, passes, same) =
                  scan_candidates-allowed db now p resource i
                    (delegated_candidates db principal p capability) none (λ f q. cc) e allowed in
                let (n, scope) = delegated_candidates_sound m in
                Authority.delegated i refl g n scope (
                  Delegates-of_match db now p resource i g passes
                    (ap (λ f. f.allowed) same ∙ allowed))
          ]

  explicit_or_implicit :
      (resource intent_id : Option String) (participant : Participant)
      → (evaluate_active db now principal p capability resource intent_id participant).allowed
        ≡ true
      → Authority db now principal p capability resource intent_id participant
  unfolding evaluate_active allow
  explicit_or_implicit resource intent_id participant h =
      elim (Bool-cases (ltb 0 (explicit_count db principal p capability))) [
        | inl many ↦ elim (Option-cases (explicit_match db principal p capability resource)) [
          | inl none_fits ↦
              delegated_or_denied_sound resource intent_id participant (rw (many, none_fits) at h)
          | inr (g, fits) ↦
              let (m, scope, admitted) = explicit_match_sound resource fits in
              Authority.durable g m scope admitted
        ]
        | inr nothing ↦
            elim (Option-cases
              (implicit_authority_reason principal p capability resource participant)) [
                | inl no_reason ↦
                    delegated_or_denied_sound resource intent_id participant
                      (rw (nothing, no_reason) at h)
                | inr (reason, given) ↦ Authority.implicit (no_durable_of_count nothing) (
                    implicit_authority_reason_sound principal p capability resource participant
                      reason given)
              ]
      ]

  -- If an evaluation allows, the participant is there and active, and there is an authority: a
  -- durable grant in scope that admits the resource, or an implicit right while no durable grant is
  -- in scope, or, for a given intent, a delegated grant in scope that delegates to that intent.
  pub evaluate-allowed :
      (resource intent_id : Option String)
      → (evaluate_authorization_current_schema db now principal p capability resource
          intent_id).allowed
        ≡ true
      → (participant : Participant) × Memᴰ participant db.web_participants
        × (participant.participant_id ≡ p)
        × (participant.status ≡ "active")
        × Authority db now principal p capability resource intent_id participant
  unfolding evaluate_authorization_current_schema deny
  evaluate-allowed resource intent_id h = elim (Option-cases (participant_policy_row db p)) [
    | inl missing ↦ let denied = rw (missing, evaluate_authorization_current_schema) at h in cc
    | inr (participant, found) ↦
        let (m, named) = participant_policy_row_sound db p found in
        elim (Bool-cases (participant.status == "active")) [
          | inl active ↦ (
            participant,
            m,
            named,
            (==_iff participant.status "active").0 active,
            explicit_or_implicit resource intent_id participant
                (rw (found, evaluate_authorization_current_schema, active) at h),
          )
          | inr inactive ↦
              let denied = rw (found, evaluate_authorization_current_schema, inactive) at h in cc
        ]
  ]
