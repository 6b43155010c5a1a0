-- ===== src/Authorization/Listing.antt =====
-- The list of effective grants says just what reads are authorized.
use conversation_blackboard.Common.{
  ℕ, String, ◌≡◌, refl, sym, ap, subst, ◌∙◌, ◌↔◌, ◌⊎◌, inl, inr, true, false, Option, none, some,
  List, [], Memᴰ, Bool-cases, Option-cases, true-false, arith, ltb,
}
use conversation_blackboard.Common.Eq.{◌==◌, ==_iff, ==_refl, string_eq, option_eq}
use conversation_blackboard.Sql.{Result, DbError, ok, exists_row}
use conversation_blackboard.Sql.Laws.{exists_row_sound}
use conversation_blackboard.Sql.Order.{Memᴰ-order_by, order_by-Memᴰ}
use conversation_blackboard.Sql.Members.{Memᴰ-append_left, Memᴰ-append_right, Memᴰ-append_split}
use conversation_blackboard.Board.{Principal, DurableGrant, Participant, Database}
use conversation_blackboard.Authorization.Capability.{known_capabilities, is_known_capability, deny}
use conversation_blackboard.Authorization.Schema.{effective_grants_schema_current}
use conversation_blackboard.Authorization.Authority.{Admits}
use conversation_blackboard.Authorization.Implicit.{participant_policy_row}
use conversation_blackboard.Authorization.Soundness.{durable_in_scope_complete}
use conversation_blackboard.Authorization.Allowed.{explicit_match_sound}
use conversation_blackboard.Authorization.Evaluate.{
  durable_in_scope, durable_covers, explicit_count, evaluate_authorization_current_schema,
}
use conversation_blackboard.Authorization.Effective.{
  EffectiveGrant, is_held, explicit_grant, implicit_resource, implicit_grant, is_allowed,
  listed_grants, effective_grants,
}
use conversation_blackboard.Authorization.ListedRights.{
  reason-implicit_resource, reason-any_resource,
}
use conversation_blackboard.Authorization.EffectiveRights.{
  held_scope, explicit_count-many, allowed, granted-allowed, implicit-allowed, allowed-cases,
  explicit, explicit-held, held-explicit, implicit-listed, allowed-listed,
}

-- A scope that admits the resource covers it.
durable_covers-Admits :
    (g : DurableGrant) (r : Option String) → Admits g.resource r → durable_covers r g ≡ true
unfolding durable_covers
durable_covers-Admits g r (inl open_scope) = rw open_scope refl
durable_covers-Admits g none (inr same) = rw same refl
durable_covers-Admits g (some x) (inr same) = let self = ==_refl x in rw same (ground arith)

capability_known : (c : String) → is_known_capability c ≡ true → Memᴰ c known_capabilities
unfolding is_known_capability
capability_known c h =
    let (k, m, e) = exists_row_sound (λ known. known == c) known_capabilities h in
    subst (λ x. Memᴰ x known_capabilities) ((==_iff k c).0 e) m

ok_injective :
    {a b : List EffectiveGrant}
    → ◌≡◌ {A = Result DbError (List EffectiveGrant)} (ok a) (ok b)
    → a ≡ b
ok_injective e = cc

module _ (db : Database) (now : ℕ) (principal : Principal) (p : String) where
  -- A grant of the list that admits the request.
  abbrev pub IsCovered : List EffectiveGrant → String → Option String → Type 0
  IsCovered gs c r = (g : EffectiveGrant) × Memᴰ g gs × (g.capability ≡ c) × Admits g.resource r

  module _ (participant : Participant) (here : participant_policy_row db p ≡ some participant)
      (active : participant.status == "active" ≡ true) where
    is_allowed-allowed :
        (c : String) (r : Option String)
        → is_allowed db now principal p c r ≡ allowed db now principal p participant c r
    unfolding evaluate_authorization_current_schema
    is_allowed-allowed c r = rw (is_allowed, allowed, here, active) refl

    any_resource :
        (c : String) (r : Option String)
        → allowed db now principal p participant c none ≡ true
        → allowed db now principal p participant c r ≡ true
    any_resource c r h = elim (allowed-cases db now principal p participant c none h) [
      | inl (g, fits) ↦
          let (m, scope, admitted) = explicit_match_sound db now principal p c none fits in
          let open_scope : g.resource ≡ none = elim admitted [ inl e ↦ e | inr e ↦ e ] in
          granted-allowed db now principal p participant c r g m
            (durable_in_scope_complete principal p c g scope)
            (durable_covers-Admits g r (inl open_scope))
      | inr (nothing, reason, given) ↦
          implicit-allowed db now principal p participant c r reason nothing
            (reason-any_resource principal p c participant r reason given)
    ]

    held-allowed :
        (g : DurableGrant) (r : Option String)
        → Memᴰ g db.principal_grants
        → is_held principal p g ≡ true
        → Admits g.resource r
        → allowed db now principal p participant g.capability r ≡ true
    held-allowed g r m held admitted =
        granted-allowed db now principal p participant g.capability r g m
          (held_scope db now principal p g ∙ held) (durable_covers-Admits g r admitted)

    IsCovered-allowed :
        (c : String) (r : Option String)
        → IsCovered (listed_grants db now principal p) c r
        → allowed db now principal p participant c r ≡ true
    unfolding listed_grants
    IsCovered-allowed c r (g, m, same, admitted) =
        elim (Memᴰ-append_split (explicit db now principal p) _ (Memᴰ-order_by _ _ m)) [
          | inl n ↦
              let (d, k, held, e) = explicit-held db now principal p n in
              let is : d.capability ≡ c = ap (λ x. x.capability) (sym e) ∙ same in
              subst (λ x. allowed db now principal p participant x r ≡ true) is
                (held-allowed d r k held (subst (λ x. Admits x.resource r) e admitted))
          | inr n ↦
              let (d, e, granted) = implicit-listed db now principal p known_capabilities n in
              let is : d ≡ c = ap (λ x. x.capability) (sym e) ∙ same in
              let own = sym (is_allowed-allowed d (implicit_resource d)) ∙ granted in
              subst (λ x. allowed db now principal p participant x r ≡ true) is
                (elim (subst (λ (x : EffectiveGrant). Admits x.resource r) e admitted) [
                  | inl open_scope ↦ any_resource d r (
                      subst (λ x. allowed db now principal p participant d x ≡ true) open_scope own)
                  | inr as_asked ↦
                      subst (λ x. allowed db now principal p participant d x ≡ true) as_asked own
                ])
        ]

    -- Without a durable grant in scope, the explicit part does not name the capability.
    unheld :
        (c : String)
        → ltb 0 (explicit_count db principal p c) ≡ false
        → exists_row (λ g. g.capability == c) (explicit db now principal p) ≡ false
    unheld c nothing =
        elim (Bool-cases (exists_row (λ g. g.capability == c) (explicit db now principal p))) [
          | inr absent ↦ absent
          | inl there ↦
              let (e, m, named) = exists_row_sound _ _ there in
              let (d, k, held, is) = explicit-held db now principal p m in
              let own : d.capability ≡ c =
                ap (λ x. x.capability) (sym is) ∙ (==_iff e.capability c).0 named in
              let scope =
                subst (λ x. durable_in_scope principal p x d ≡ true) own
                  (held_scope db now principal p d ∙ held) in
              absurd
                (true-false (sym (explicit_count-many db now principal p c d k scope) ∙ nothing))
        ]

    allowed-IsCovered :
        (c : String) (r : Option String)
        → allowed db now principal p participant c r ≡ true
        → IsCovered (listed_grants db now principal p) c r
    unfolding listed_grants
    allowed-IsCovered c r h = elim (allowed-cases db now principal p participant c r h) [
      | inl (g, fits) ↦
          let (m, scope, admitted) = explicit_match_sound db now principal p c r fits in
          let in_scope =
            subst (λ x. durable_in_scope principal p x g ≡ true) (sym scope.capability_eq)
              (durable_in_scope_complete principal p c g scope) in
          (
            explicit_grant g,
            order_by-Memᴰ _ _ (
                Memᴰ-append_left _ _ (
                  held-explicit db now principal p g m
                    (sym (held_scope db now principal p g) ∙ in_scope))),
            scope.capability_eq,
            admitted,
          )
      | inr (nothing, reason, given) ↦
          let (known, admitted, listed) =
            reason-implicit_resource principal p c participant r reason given in
          let granted =
            is_allowed-allowed c (implicit_resource c)
            ∙ implicit-allowed db now principal p participant c (implicit_resource c) reason nothing
                listed in
          (
            implicit_grant c,
            order_by-Memᴰ _ _ (
                Memᴰ-append_right _ _ (
                  allowed-listed db now principal p known_capabilities c (capability_known c known)
                    (unheld c nothing) granted)),
            refl,
            admitted,
          )
    ]

  -- Without an active participant nothing is allowed.
  not_active :
      (c : String) (r : Option String)
      → ((participant_policy_row db p ≡ none)
          ⊎ ((participant : Participant) × (participant_policy_row db p ≡ some participant)
              × (participant.status == "active" ≡ false)))
      → is_allowed db now principal p c r ≡ false
  unfolding evaluate_authorization_current_schema deny
  not_active c r (inl missing) = rw (is_allowed, missing) refl
  not_active c r (inr (participant, found, inactive)) = rw (is_allowed, found, inactive) refl

  nothing-IsCovered : (c : String) (r : Option String) → ¬ IsCovered [] c r
  nothing-IsCovered c r (g, m, same, admitted) = elim m [ ]

  no_grants :
      (gs : List EffectiveGrant) (c : String) (r : Option String)
      → [] ≡ gs
      → is_allowed db now principal p c r ≡ false
      → (is_allowed db now principal p c r ≡ true) ↔ IsCovered gs c r
  no_grants gs c r nobody denied = (
    λ granted. absurd (true-false (sym granted ∙ denied)),
    λ covered. absurd (nothing-IsCovered c r (subst (λ l. IsCovered l c r) (sym nobody) covered)),
  )

  -- A read of a capability on a resource is authorized if and only if the list of effective grants
  -- has a grant of that capability whose scope is open or is that resource.
  pub effective_grants-is_allowed :
      {gs : List EffectiveGrant}
      → effective_grants db now principal p ≡ ok gs
      → (c : String) (r : Option String)
      → (is_allowed db now principal p c r ≡ true) ↔ IsCovered gs c r
  unfolding effective_grants
  effective_grants-is_allowed {gs = gs} h c r =
      elim (Bool-cases (effective_grants_schema_current db)) [
        | inr outdated ↦ let stuck = rw (outdated, effective_grants) at h in absurd (ground arith)
        | inl current ↦ elim (Option-cases (participant_policy_row db p)) [
          | inl missing ↦
              let nobody : [] ≡ gs = ok_injective (rw (current, missing, effective_grants) at h) in
              no_grants gs c r nobody (not_active c r (inl missing))
          | inr (participant, found) ↦ elim (Bool-cases (participant.status == "active")) [
            | inr inactive ↦
                let nobody : [] ≡ gs =
                  ok_injective (rw (current, found, inactive, effective_grants) at h) in
                no_grants gs c r nobody (not_active c r (inr (participant, found, inactive)))
            | inl active ↦
                let listed : listed_grants db now principal p ≡ gs =
                  ok_injective (rw (current, found, active, effective_grants) at h) in
                let same = is_allowed-allowed participant found active c r in
                (
                  λ granted.
                      subst (λ l. IsCovered l c r) listed
                        (allowed-IsCovered participant found active c r (sym same ∙ granted)),
                  λ covered.
                      same
                      ∙ IsCovered-allowed participant found active c r
                          (subst (λ l. IsCovered l c r) (sym listed) covered),
                )
          ]
        ]
      ]
