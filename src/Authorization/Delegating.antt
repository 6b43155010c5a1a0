-- ===== src/Authorization/Delegating.antt =====
-- A decision that allows by delegation is the decision on one delegated grant in scope.
use conversation_blackboard.Common.{
  ℕ, String, ◌≡◌, refl, inl, inr, true, false, Option, none, some, Memᴰ, Bool-cases, Option-cases,
  ltb, ap, ◌∙◌, sym, arith, is_some, true-false,
}
use conversation_blackboard.Common.Eq.{◌==◌, ==_iff, string_eq, option_eq}
use conversation_blackboard.Board.{Principal, DelegatedGrant, Participant, Database}
use conversation_blackboard.Authorization.Capability.{AuthorizationDecision, allow, deny}
use conversation_blackboard.Authorization.Authority.{InDelegatedScope}
use conversation_blackboard.Authorization.Delegated.{
  delegated_candidates, scan_candidates, decide_match, committed_receipt_exists,
}
use conversation_blackboard.Authorization.Implicit.{
  participant_policy_row, implicit_authority_reason,
}
use conversation_blackboard.Authorization.Soundness.{scan_candidates-allowed}
use conversation_blackboard.Authorization.Allowed.{delegated_candidates_sound}
use conversation_blackboard.Authorization.Evaluate.{
  explicit_count, explicit_match, delegated_or_denied, evaluate_active,
  evaluate_authorization_current_schema,
}

-- The intent and the grant that a decision rests on.
pub record IsDelegation (db : Database) (principal : Principal) (p capability : String)
    (intent_id : Option String) (decision : AuthorizationDecision) : Type 0 where
  pub intent : String
  pub asked : intent_id ≡ some intent
  pub grant : DelegatedGrant
  pub stored : Memᴰ grant db.delegated_grants
  pub in_scope : InDelegatedScope principal p capability grant
  pub decided : decide_match db p intent grant ≡ decision

other_source : (a b : String) → a == b ≡ false → ¬ (a ≡ b)
other_source a b h e = true-false (sym ((==_iff a b).1 e) ∙ h)

module _ (db : Database) (now : ℕ) (principal : Principal) (p capability : String)
    (resource intent_id : Option String) where
  delegated_or_denied-IsDelegation :
      {d : AuthorizationDecision}
      → delegated_or_denied db now principal p capability resource intent_id ≡ d
      → d.allowed ≡ true
      → IsDelegation db principal p capability intent_id d
  unfolding delegated_or_denied deny
  delegated_or_denied-IsDelegation {d = d} h a = elim (Option-cases intent_id) [
    | inl nobody ↦ let denied = rw (nobody, delegated_or_denied) at h in absurd (ground arith)
    | inr (i, asked) ↦
        elim (Option-cases (
          scan_candidates db now p resource i (delegated_candidates db principal p capability)
            none)) [
              | inl e ↦
                  let denied = rw (asked, e, delegated_or_denied) at h in absurd (ground arith)
              | inr (found, e) ↦
                  let same : found ≡ d = rw (asked, e, delegated_or_denied) at h in
                  let (g, m, passes, decided) =
                    scan_candidates-allowed db now p resource i
                      (delegated_candidates db principal p capability) none (λ f q. cc) e
                      (ap (λ x. x.allowed) same ∙ a) in
                  let (stored, scope) =
                    delegated_candidates_sound db now principal p capability m in
                  record {
                    intent = i;
                    asked = asked;
                    grant = g;
                    stored = stored;
                    in_scope = scope;
                    decided = decided ∙ same;
                  }
            ]
  ]

  evaluate_active-IsDelegation :
      (participant : Participant) {d : AuthorizationDecision}
      → evaluate_active db now principal p capability resource intent_id participant ≡ d
      → d.allowed ≡ true
      → d.source ≡ "delegated_grants"
      → IsDelegation db principal p capability intent_id d
  unfolding evaluate_active allow
  evaluate_active-IsDelegation participant {d = d} h a s =
      elim (Bool-cases (ltb 0 (explicit_count db principal p capability))) [
        | inl many ↦ elim (Option-cases (explicit_match db principal p capability resource)) [
          | inl none_fits ↦
              delegated_or_denied-IsDelegation (rw (many, none_fits, evaluate_active) at h) a
          | inr (g, fits) ↦
              let other = ap (λ x. x.source) (rw (many, fits, evaluate_active) at h) ∙ s in
              absurd (other_source "principal_grants" "delegated_grants" refl other)
        ]
        | inr nothing ↦
            elim (Option-cases
              (implicit_authority_reason principal p capability resource participant)) [
                | inl no_reason ↦
                    delegated_or_denied-IsDelegation (rw (nothing, no_reason, evaluate_active) at h)
                      a
                | inr (reason, given) ↦
                    let other =
                      ap (λ x. x.source) (rw (nothing, given, evaluate_active) at h) ∙ s in
                    absurd (other_source "implicit_authority" "delegated_grants" refl other)
              ]
      ]

  pub evaluate-IsDelegation :
      (decision : AuthorizationDecision)
      → evaluate_authorization_current_schema db now principal p capability resource intent_id
        ≡ decision
      → decision.allowed ≡ true
      → decision.source ≡ "delegated_grants"
      → IsDelegation db principal p capability intent_id decision
  unfolding evaluate_authorization_current_schema deny
  evaluate-IsDelegation d h a s = elim (Option-cases (participant_policy_row db p)) [
    | inl missing ↦
        let denied = rw (missing, evaluate_authorization_current_schema) at h in
        absurd (ground arith)
    | inr (participant, found) ↦ elim (Bool-cases (participant.status == "active")) [
      | inl active ↦
          evaluate_active-IsDelegation participant
            (rw (found, active, evaluate_authorization_current_schema) at h) a s
      | inr inactive ↦
          let denied = rw (found, inactive, evaluate_authorization_current_schema) at h in
          absurd (ground arith)
    ]
  ]

-- Where no receipt is committed, the grant is unspent and to be consumed if it is one-shot, and else
-- nothing is consumed.
pub decide_match-unspent :
    (db : Database) (p i : String) (g : DelegatedGrant) {d : AuthorizationDecision}
    → decide_match db p i g ≡ d
    → d.allowed ≡ true
    → committed_receipt_exists db p i ≡ false
    → (d.grant_id ≡ some g.id)
      × (g.one_shot ≡ true → (is_some g.consumed_at ≡ false) × (d.consume_grant_id ≡ some g.id))
      × (g.one_shot ≡ false → d.consume_grant_id ≡ none)
unfolding decide_match allow deny
decide_match-unspent db p i g {d = d} h a uncommitted = ground arith
