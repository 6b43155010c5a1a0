-- ===== src/Execution/Audit/Authority.antt =====
-- When the stages on the provenance and on its grant leave the violations empty.
use conversation_blackboard.Common.{
  ℕ, String, ◌≡◌, refl, ◌↔◌, true, false, Option, none, some, is_some, Bool-cases, Option-cases,
  inl, inr, and-true, and_intro, eq_of_some, not-true, true-false, sym, ap, ◌∙◌,
}
use conversation_blackboard.Common.Eq.{◌==◌, ==_iff, string_eq, nat_eq, option_eq}
use conversation_blackboard.Sql.{find}
use conversation_blackboard.Board.{Principal, Message, DelegatedGrant, Database, table_exists}
use conversation_blackboard.Execution.Types.{ExecutionReceipt}
use conversation_blackboard.Execution.Record.{AuthorizationProvenance}
use conversation_blackboard.Execution.Audit.{
  Audit, is_blank, audit_principal, audit_capability, audit_resource, audit_provenance,
  audit_consumption, audit_grant, audit_reference, audit_delegation,
}
use conversation_blackboard.Execution.Audit.Conditions.{
  IsBoundProvenance, IsBoundGrant, IsBoundReference, IsBoundDelegation,
}
use conversation_blackboard.Execution.Audit.Stages.{IsClean, violate-unclean, judge-IsClean}

pub audit_principal-IsClean :
    (principal : Option Principal) (a : Audit)
    → IsClean (audit_principal principal a) ↔ (
        ((p : Principal) × (principal ≡ some p)
          × (is_blank p.provider ≡ false)
          × (is_blank p.subject ≡ false))
        × IsClean a)
unfolding audit_principal
audit_principal-IsClean none a =
    (λ h. absurd (violate-unclean _ a h), λ ((p, e, provider, subject), h). cc)
audit_principal-IsClean (some p) a = (
  λ h.
      let (named, clean) = (judge-IsClean _ _ _ _).0 h in
      let (provider, subject) = and-true _ _ named in
      ((p, refl, not-true _ provider, not-true _ subject), clean),
  λ ((q, e, provider, subject), clean).
      let same : p ≡ q = eq_of_some e in
      (judge-IsClean _ _ _ _).1 (rw same (rw (provider, subject) refl), clean),
)

pub audit_capability-IsClean :
    (receipt : ExecutionReceipt) (capability : Option String) (a : Audit)
    → IsClean (audit_capability receipt capability a)
      ↔ ((capability ≡ some receipt.capability) × IsClean a)
unfolding audit_capability
audit_capability-IsClean receipt none a = (λ h. absurd (violate-unclean _ a h), λ (e, h). cc)
audit_capability-IsClean receipt (some c) a =
    let same = ==_iff c receipt.capability in
    (
      λ h. let (e, clean) = (judge-IsClean _ _ _ _).0 h in (ap some (same.0 e), clean),
      λ (e, clean). (judge-IsClean _ _ _ _).1 (same.1 (eq_of_some e), clean),
    )

audit_resource-IsClean :
    (channel : String) (resource : Option String) (a : Audit)
    → IsClean (audit_resource (some channel) resource a)
      ↔ (((resource ≡ some channel) × (is_blank channel ≡ false)) × IsClean a)
unfolding audit_resource
audit_resource-IsClean channel none a = (λ h. absurd (violate-unclean _ a h), λ ((e, named), h). cc)
audit_resource-IsClean channel (some r) a =
    let same = ==_iff (some channel) (some r) in
    elim (Bool-cases (is_blank r)) [
      | inl blank ↦ (
        λ h. absurd (violate-unclean _ a (rw (blank) at h)),
        λ ((e, named), h).
            let is : r ≡ channel = eq_of_some e in
            absurd (true-false (sym blank ∙ ap is_blank is ∙ named)),
      )
      | inr named ↦ (
        λ h.
            let (e, clean) = (judge-IsClean _ _ _ _).0 (rw named at h) in
            let is : some channel ≡ some r = same.0 e in
            ((sym is, ap is_blank (eq_of_some is) ∙ named), clean),
        λ ((e, known), clean). rw named ((judge-IsClean _ _ _ _).1 (same.1 (sym e), clean)),
      )
    ]

pub audit_provenance-IsClean :
    (participant_id intent_id : String) (receipt : ExecutionReceipt) (m : Message)
    (auth : AuthorizationProvenance) (a : Audit)
    → auth.participant_id ≡ participant_id
    → auth.intent_id ≡ intent_id
    → IsClean (audit_provenance participant_id intent_id receipt (some m.channel) (some auth) a)
      ↔ (IsBoundProvenance receipt m auth × IsClean a)
unfolding audit_provenance
audit_provenance-IsClean participant_id intent_id receipt m auth a p i =
    let same_p = (==_iff auth.participant_id participant_id).1 p in
    let same_i = (==_iff auth.intent_id intent_id).1 i in
    rw (same_p, same_i)
      (
        λ h.
            let ((resource, named), h1) = (audit_resource-IsClean m.channel auth.resource _).0 h in
            let (capability, h2) = (audit_capability-IsClean receipt auth.capability _).0 h1 in
            let ((principal, bound, provider, subject), clean) =
              (audit_principal-IsClean auth.principal _).0 h2 in
            (
              record {
                principal = principal;
                bound = bound;
                provider = provider;
                subject = subject;
                capability = capability;
                resource = resource;
                named = named;
              },
              clean,
            ),
        λ (b, clean). (audit_resource-IsClean m.channel auth.resource _).1 (
          (b.resource, b.named),
          (audit_capability-IsClean receipt auth.capability _).1 (
            b.capability,
            (audit_principal-IsClean auth.principal a).1
                ((b.principal, b.bound, b.provider, b.subject), clean),
          ),
        ),
      )

audit_consumption-IsClean :
    (receipt : ExecutionReceipt) (g : DelegatedGrant) (a : Audit)
    → IsClean (audit_consumption receipt g a) ↔ (
        (g.one_shot ≡ true
          → (is_some g.consumed_at ≡ true) × (g.consumed_intent_id ≡ some receipt.intent_id))
        × IsClean a)
unfolding audit_consumption
audit_consumption-IsClean receipt g a = elim (Bool-cases g.one_shot) [
  | inr many ↦ rw many (λ h. (λ e. absurd (true-false (sym e)), h), λ (c, h). h)
  | inl once ↦ elim (Bool-cases (is_some g.consumed_at)) [
    | inr unspent ↦
        rw (once, unspent)
          (λ h. absurd (violate-unclean _ a h), λ (c, h). absurd (true-false (sym (c refl).0)))
    | inl spent ↦
        let same = ==_iff g.consumed_intent_id (some receipt.intent_id) in
        rw (once, spent)
          (
            λ h. let (e, clean) = (judge-IsClean _ _ _ _).0 h in (λ o. (refl, same.0 e), clean),
            λ (c, clean). (judge-IsClean _ _ _ _).1 (same.1 (c refl).1, clean),
          )
  ]
]

audit_grant-IsClean :
    (receipt : ExecutionReceipt) (g : DelegatedGrant) (a : Audit)
    → IsClean (audit_grant receipt (some g) a) ↔ (IsBoundGrant receipt g × IsClean a)
unfolding audit_grant
audit_grant-IsClean receipt g a =
    let participant = ==_iff g.participant_id receipt.participant_id in
    let capability = ==_iff g.capability receipt.capability in
    (
      λ h.
          let (consumed, h1) = (audit_consumption-IsClean receipt g _).0 h in
          let (binding, clean) = (judge-IsClean _ _ _ _).0 h1 in
          let (p, c) = and-true _ _ binding in
          (
            record {
              participant = participant.0 p;
              capability = capability.0 c;
              consumed = consumed;
            },
            clean,
          ),
      λ (b, clean). (audit_consumption-IsClean receipt g _).1 (
        b.consumed,
        (judge-IsClean _ _ _ _).1
            (and_intro (participant.1 b.participant) (capability.1 b.capability), clean),
      ),
    )

audit_grant-missing :
    (receipt : ExecutionReceipt) (a : Audit) → ¬ IsClean (audit_grant receipt none a)
unfolding audit_grant
audit_grant-missing receipt a = violate-unclean _ a

audit_reference-found :
    (db : Database) (receipt : ExecutionReceipt) (n : ℕ) (a : Audit)
    → IsClean (audit_reference db receipt (some n) a)
    → IsBoundReference db receipt (some n) × IsClean a
unfolding audit_reference
audit_reference-found db receipt n a h = elim (Bool-cases (table_exists db "delegated_grants")) [
  | inr gone ↦ absurd (violate-unclean _ a (rw (gone, audit_reference) at h))
  | inl there ↦ elim (Option-cases (find (λ h. h.id == n) db.delegated_grants)) [
    | inl missing ↦
        absurd (audit_grant-missing receipt a (rw (there, missing, audit_reference) at h))
    | inr (g, found) ↦
        let (bound, clean) =
          (audit_grant-IsClean receipt g a).0 (rw (there, found, audit_reference) at h) in
        (
          record {
            id = n;
            grant = g;
            named = refl;
            storable = there;
            found = found;
            bound = bound;
          },
          clean,
        )
  ]
]

audit_reference-IsClean :
    (db : Database) (receipt : ExecutionReceipt) (grant_id : Option ℕ) (a : Audit)
    → IsClean (audit_reference db receipt grant_id a)
      ↔ (IsBoundReference db receipt grant_id × IsClean a)
unfolding audit_reference
audit_reference-IsClean db receipt none a =
    (λ h. absurd (violate-unclean _ a h), λ (b, h). let named = b.named in cc)
audit_reference-IsClean db receipt (some n) a = (
  audit_reference-found db receipt n a,
  λ (b, clean).
      let found =
        ap (λ k. find (λ g. g.id == k) db.delegated_grants) (eq_of_some b.named) ∙ b.found in
      rw (b.storable, found) ((audit_grant-IsClean receipt b.grant a).1 (b.bound, clean)),
)

pub audit_delegation-IsClean :
    (db : Database) (receipt : ExecutionReceipt) (auth : AuthorizationProvenance) (a : Audit)
    → IsClean (audit_delegation db receipt (some auth) a)
      ↔ (IsBoundDelegation db receipt auth × IsClean a)
unfolding audit_delegation
audit_delegation-IsClean db receipt auth a =
    let source = ==_iff auth.source "delegated_grants" in
    elim (Bool-cases (auth.source == "delegated_grants")) [
      | inl delegated ↦ rw delegated (
        λ h.
            let (bound, clean) = (audit_reference-IsClean db receipt auth.grant_id a).0 h in
            (λ e. bound, clean),
        λ (bound, clean).
            (audit_reference-IsClean db receipt auth.grant_id a).1
              (bound (source.0 delegated), clean),
      )
      | inr other ↦
          rw other (λ h. (λ e. absurd (true-false (sym (source.1 e) ∙ other)), h), λ (b, h). h)
    ]
