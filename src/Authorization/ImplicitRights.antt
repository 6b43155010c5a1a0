-- ===== src/Authorization/ImplicitRights.antt =====
-- `implicit_authority_reason` gives a reason exactly where an implicit right stands.
use conversation_blackboard.Common.{
  String, ◌≡◌, refl, sym, subst, ◌⊎◌, inl, inr, Bool, true, false, ◌&&◌, Option, some, Memᴰ, arith,
  Bool-cases, and-true, or-true,
}
use conversation_blackboard.Common.Eq.{◌==◌, ==_iff, string_eq, option_eq}
use conversation_blackboard.Board.{Principal, Participant}
use conversation_blackboard.Authorization.Capability.{
  read_execution_audit_sweep, read_authorization_policy_integrity, read_authorization_policy,
  read_authorization_decision, manage_authorization_policy,
  read_authorization_administration_history, manage_channels,
}
use conversation_blackboard.Authorization.Authority.{
  participation_capabilities, admin_rights, ImplicitRight,
}
use conversation_blackboard.Authorization.Implicit.{
  then_some, is_participation_capability, is_self_authenticated, is_github_owner, is_web_admin,
  self_authority_reason, implicit_authority_reason,
}

is_participation_capability_sound :
    (c : String) → is_participation_capability c ≡ true → Memᴰ c participation_capabilities
unfolding is_participation_capability
is_participation_capability_sound c h = elim (or-true _ _ h) [
  | inr e ↦ Memᴰ.tail (Memᴰ.tail (Memᴰ.tail (Memᴰ.tail (Memᴰ.head ((==_iff c _).0 e)))))
  | inl h1 ↦ elim (or-true _ _ h1) [
    | inr e ↦ Memᴰ.tail (Memᴰ.tail (Memᴰ.tail (Memᴰ.head ((==_iff c _).0 e))))
    | inl h2 ↦ elim (or-true _ _ h2) [
      | inr e ↦ Memᴰ.tail (Memᴰ.tail (Memᴰ.head ((==_iff c _).0 e)))
      | inl h3 ↦ elim (or-true _ _ h3) [
        | inr e ↦ Memᴰ.tail (Memᴰ.head ((==_iff c _).0 e))
        | inl e ↦ Memᴰ.head ((==_iff c _).0 e)
      ]
    ]
  ]
]

is_self_authenticated_sound :
    (principal : Principal) (p : String)
    → is_self_authenticated principal p ≡ true
    → ((principal.provider ≡ "participant-hmac") ⊎ (principal.provider ≡ "human-web"))
      × (principal.subject ≡ p)
unfolding is_self_authenticated
is_self_authenticated_sound principal p h = ground (
  arith,
  ==_iff principal.provider "participant-hmac",
  ==_iff principal.provider "human-web",
  ==_iff principal.subject p,
)

is_web_admin_sound :
    (principal : Principal) (participant : Participant)
    → is_web_admin principal participant ≡ true
    → (principal.provider ≡ "human-web") × (participant.role ≡ "admin")
unfolding is_web_admin
is_web_admin_sound principal participant h =
    ground (arith, ==_iff principal.provider "human-web", ==_iff participant.role "admin")

is_github_owner_sound :
    (principal : Principal) (participant : Participant)
    → is_github_owner principal participant ≡ true
    → (principal.provider ≡ "github")
      × (participant.owner_provider ≡ some "github")
      × (participant.owner_subject ≡ some principal.subject)
unfolding is_github_owner
is_github_owner_sound principal participant h =
    let (h1, h2) = and-true _ _ h in
    let (h3, h4) = and-true _ _ h1 in
    (
      (==_iff principal.provider "github").0 h3,
      (==_iff participant.owner_provider (some "github")).0 h4,
      (==_iff participant.owner_subject (some principal.subject)).0 h2,
    )

then_some-true {ℓ} : {A : Type ℓ} (b : Bool) (a : A) {r : A} → then_some b a ≡ some r → b ≡ true
then_some-true true a h = refl
then_some-true false a h = cc

module _ (principal : Principal) (p c : String) (resource : Option String)
    (participant : Participant) where
  abbrev Right : Type 0
  Right = ImplicitRight principal p c resource participant

  admin_right :
      (c' right message reason : String)
      → principal.subject ≡ p
      → Memᴰ (c', right) admin_rights
      → c == c' ≡ true
      → then_some (is_web_admin principal participant && resource == some right) message
        ≡ some reason
      → Right
  admin_right c' right message reason self m e h =
      let (admin, covers) = and-true _ _ (then_some-true _ message h) in
      let (web, role) = is_web_admin_sound principal participant admin in
      ImplicitRight.as_admin web self role right ((==_iff resource (some right)).0 covers)
        (subst (λ k. Memᴰ (k, right) admin_rights) (sym ((==_iff c c').0 e)) m)

  self_authority_reason_sound :
      (reason : String)
      → (principal.provider ≡ "participant-hmac") ⊎ (principal.provider ≡ "human-web")
      → principal.subject ≡ p
      → self_authority_reason principal c resource participant ≡ some reason
      → Right
  unfolding self_authority_reason
  self_authority_reason_sound reason provider self h =
      elim (Bool-cases (c == read_authorization_policy)) [
        | inl e ↦ admin_right _ _ _ reason self (Memᴰ.head refl) e (rw e at h)
        | inr n0 ↦ elim (Bool-cases (c == read_authorization_policy_integrity)) [
          | inl e ↦ admin_right _ _ _ reason self (Memᴰ.tail (Memᴰ.head refl)) e (rw (n0, e) at h)
          | inr n1 ↦ elim (Bool-cases (c == read_authorization_decision)) [
            | inl e ↦
                admin_right _ _ _ reason self (Memᴰ.tail (Memᴰ.tail (Memᴰ.head refl))) e
                  (rw (n0, n1, e) at h)
            | inr n2 ↦ elim (Bool-cases (c == manage_authorization_policy)) [
              | inl e ↦
                  admin_right _ _ _ reason self (Memᴰ.tail (Memᴰ.tail (Memᴰ.tail (Memᴰ.head refl))))
                    e (rw (n0, n1, n2, e) at h)
              | inr n3 ↦ elim (Bool-cases (c == read_authorization_administration_history)) [
                | inl e ↦
                    admin_right _ _ _ reason self
                      (Memᴰ.tail (Memᴰ.tail (Memᴰ.tail (Memᴰ.tail (Memᴰ.head refl))))) e
                      (rw (n0, n1, n2, n3, e) at h)
                | inr n4 ↦ elim (Bool-cases (c == read_execution_audit_sweep)) [
                  | inl e ↦
                      admin_right _ _ _ reason self
                        (Memᴰ.tail (Memᴰ.tail (Memᴰ.tail (Memᴰ.tail (Memᴰ.tail (Memᴰ.head refl))))))
                        e (rw (n0, n1, n2, n3, n4, e) at h)
                  | inr n5 ↦ elim (Bool-cases (c == manage_channels)) [
                    | inl e ↦
                        let admin =
                          then_some-true _ "implicit_human_web_admin"
                            (rw (n0, n1, n2, n3, n4, n5, e) at h) in
                        let (web, role) = is_web_admin_sound principal participant admin in
                        ImplicitRight.as_channel_admin web self role ((==_iff c _).0 e)
                    | inr n6 ↦ elim (Bool-cases (is_participation_capability c)) [
                      | inl e ↦
                          ImplicitRight.as_itself provider self
                            (is_participation_capability_sound c e)
                      | inr e ↦ let none_left = rw (n0, n1, n2, n3, n4, n5, n6, e) at h in cc
                    ]
                  ]
                ]
              ]
            ]
          ]
        ]
      ]

  -- A reason is given only to a principal that has a right.
  pub implicit_authority_reason_sound :
      (reason : String)
      → implicit_authority_reason principal p c resource participant ≡ some reason
      → Right
  unfolding implicit_authority_reason
  implicit_authority_reason_sound reason h = elim (Bool-cases (is_self_authenticated principal p)) [
    | inl e ↦
        let (provider, self) = is_self_authenticated_sound principal p e in
        self_authority_reason_sound reason provider self (rw e at h)
    | inr e ↦
        let (owner, able) = and-true _ _ (then_some-true _ "implicit_github_owner" (rw e at h)) in
        let (github, provider, subject) = is_github_owner_sound principal participant owner in
        ImplicitRight.as_owner github provider subject (is_participation_capability_sound c able)
  ]
