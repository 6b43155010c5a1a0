-- ===== src/Authorization/Authority.antt =====
-- What entitles a principal to act, said apart from the queries of authorization.rs: a durable
-- grant, an implicit right, or a delegated grant.
use conversation_blackboard.Common.{
  ℕ, String, ◌≡◌, ◌≢◌, ◌⊎◌, true, Option, none, some, List, [], ◌∷◌, Memᴰ,
}
use conversation_blackboard.Common.Int.{ℤ, pos, leb_ℤ}
use conversation_blackboard.Board.{
  Principal, DurableGrant, DelegatedGrant, Participant, ReceiptRow, Database,
}
use conversation_blackboard.Authorization.Capability.{
  read_messages, post_message, reply, read_execution_receipt, read_execution_audit,
  read_execution_audit_sweep, execution_audit_sweep_resource, read_authorization_policy_integrity,
  authorization_policy_integrity_resource, read_authorization_policy, authorization_policy_resource,
  read_authorization_decision, authorization_decision_resource, manage_authorization_policy,
  authorization_policy_admin_resource, read_authorization_administration_history,
  authorization_administration_history_resource, manage_channels,
}

-- A scope that is left open covers everything; a given one covers what it names.
abbrev pub Admits : Option String → Option String → Type 0
Admits scope asked = (scope ≡ none) ⊎ (scope ≡ asked)

module _ (principal : Principal) (participant_id capability : String) where
  -- An active durable grant for this principal, participant and capability.
  pub record InDurableScope (g : DurableGrant) : Type 0 where
    pub provider_eq : g.principal_provider ≡ principal.provider
    pub subject_eq : g.principal_subject ≡ principal.subject
    pub participant_eq : g.participant_id ≡ participant_id
    pub capability_eq : g.capability ≡ capability
    pub active_eq : g.status ≡ "active"

  pub record InDelegatedScope (g : DelegatedGrant) : Type 0 where
    pub provider_eq : g.principal_provider ≡ principal.provider
    pub subject_eq : g.principal_subject ≡ principal.subject
    pub participant_eq : g.participant_id ≡ participant_id
    pub capability_eq : g.capability ≡ capability
    pub active_eq : g.status ≡ "active"

abbrev pub Expired : ℕ → Option ℤ → Type 0
Expired now expires_at = (t : ℤ) × (expires_at ≡ some t) × (leb_ℤ t (pos now) ≡ true)

-- A one-shot grant that this very intent has consumed.
abbrev pub ConsumedBy : String → DelegatedGrant → Type 0
ConsumedBy intent_id g = (g.one_shot ≡ true) × (g.consumed_intent_id ≡ some intent_id)

-- A one-shot grant that some intent has consumed.
abbrev pub Spent : DelegatedGrant → Type 0
Spent g = (g.one_shot ≡ true) × (g.consumed_at ≢ none)

abbrev pub Committed : Database → String → String → Type 0
Committed db participant_id intent_id =
    (r : ReceiptRow) × Memᴰ r db.execution_receipts
    × (r.participant_id ≡ participant_id)
    × (r.intent_id ≡ intent_id)
    × (r.status ≡ "committed")

-- The delegated grant lets this intent act at this time.
pub record Delegates (db : Database) (now : ℕ) (participant_id : String) (resource : Option String)
    (intent_id : String) (g : DelegatedGrant) : Type 0 where
  pub resource_admitted : Admits g.resource resource
  pub intent_admitted : Admits g.intent_id (some intent_id)
  pub unspent : Spent g → ConsumedBy intent_id g × Committed db participant_id intent_id
  pub in_time : Expired now g.expires_at → ConsumedBy intent_id g

-- The capabilities of a participant who acts as itself, or of its GitHub owner.
abbrev pub participation_capabilities : List String
participation_capabilities =
    read_messages ∷ post_message ∷ reply ∷ read_execution_receipt ∷ read_execution_audit ∷ []

-- What an administrator may do in a web session: each capability on its one resource.
abbrev pub admin_rights : List (String × String)
admin_rights =
    (read_authorization_policy, authorization_policy_resource)
    ∷ (read_authorization_policy_integrity, authorization_policy_integrity_resource)
    ∷ (read_authorization_decision, authorization_decision_resource)
    ∷ (manage_authorization_policy, authorization_policy_admin_resource)
    ∷ (read_authorization_administration_history, authorization_administration_history_resource)
    ∷ (read_execution_audit_sweep, execution_audit_sweep_resource)
    ∷ []

pub data ImplicitRight (principal : Principal) (participant_id capability : String)
    (resource : Option String) (participant : Participant) : Type 0 where
  as_itself :
      (principal.provider ≡ "participant-hmac") ⊎ (principal.provider ≡ "human-web")
      → principal.subject ≡ participant_id
      → Memᴰ capability participation_capabilities
      → ImplicitRight principal participant_id capability resource participant
  as_admin :
      principal.provider ≡ "human-web"
      → principal.subject ≡ participant_id
      → participant.role ≡ "admin"
      → (right : String) → resource ≡ some right
      → Memᴰ (capability, right) admin_rights
      → ImplicitRight principal participant_id capability resource participant
  as_channel_admin :
      principal.provider ≡ "human-web"
      → principal.subject ≡ participant_id
      → participant.role ≡ "admin"
      → capability ≡ manage_channels
      → ImplicitRight principal participant_id capability resource participant
  as_owner :
      principal.provider ≡ "github"
      → participant.owner_provider ≡ some "github"
      → participant.owner_subject ≡ some principal.subject
      → Memᴰ capability participation_capabilities
      → ImplicitRight principal participant_id capability resource participant

-- The ground of an allowed decision.
pub data Authority (db : Database) (now : ℕ) (principal : Principal)
    (participant_id capability : String) (resource intent_id : Option String)
    (participant : Participant) : Type 0 where
  durable :
      (g : DurableGrant)
      → Memᴰ g db.principal_grants
      → InDurableScope principal participant_id capability g
      → Admits g.resource resource
      → Authority db now principal participant_id capability resource intent_id participant
  implicit :
      ((g : DurableGrant)
        → Memᴰ g db.principal_grants
        → ¬ InDurableScope principal participant_id capability g)
      → ImplicitRight principal participant_id capability resource participant
      → Authority db now principal participant_id capability resource intent_id participant
  delegated :
      (intent : String)
      → intent_id ≡ some intent
      → (g : DelegatedGrant) → Memᴰ g db.delegated_grants
      → InDelegatedScope principal participant_id capability g
      → Delegates db now participant_id resource intent g
      → Authority db now principal participant_id capability resource intent_id participant
