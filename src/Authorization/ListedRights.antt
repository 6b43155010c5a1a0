-- ===== src/Authorization/ListedRights.antt =====
-- The resource under which an implicit right is listed.
use conversation_blackboard.Common.{
  String, ◌≡◌, refl, sym, ap, ◌∙◌, inl, inr, true, Option, none, some, ◌∷◌, Memᴰ,
}
use conversation_blackboard.Common.Eq.{string_eq, option_eq}
use conversation_blackboard.Sql.{exists_row}
use conversation_blackboard.Board.{Principal, Participant}
use conversation_blackboard.Authorization.Capability.{is_known_capability, manage_channels}
use conversation_blackboard.Authorization.Authority.{
  Admits, participation_capabilities, admin_rights, as_itself, as_admin, as_channel_admin, as_owner,
}
use conversation_blackboard.Authorization.Implicit.{
  implicit_authority_reason, self_authority_reason,
}
use conversation_blackboard.Authorization.ImplicitRights.{implicit_authority_reason_sound}
use conversation_blackboard.Authorization.Effective.{implicit_resource}

-- What the list says of a capability that an implicit right gives.
record IsResourceFree (principal : Principal) (p c : String) (participant : Participant)
    (r : Option String) : Type 0 where
  known : is_known_capability c ≡ true
  unbound : implicit_resource c ≡ none
  same_reason :
      implicit_authority_reason principal p c r participant
      ≡ implicit_authority_reason principal p c none participant

-- A right that names no resource gives its reason whatever resource is asked for.
participation-IsResourceFree :
    (principal : Principal) (p c : String) (participant : Participant) (r : Option String)
    → Memᴰ c (manage_channels ∷ participation_capabilities)
    → IsResourceFree principal p c participant r
unfolding implicit_authority_reason self_authority_reason implicit_resource is_known_capability
    exists_row
participation-IsResourceFree principal p c participant r (Memᴰ.head e) =
    rw e (record { known = refl; unbound = refl; same_reason = refl })
participation-IsResourceFree principal p c participant r (Memᴰ.tail (Memᴰ.head e)) =
    rw e (record { known = refl; unbound = refl; same_reason = refl })
participation-IsResourceFree principal p c participant r (Memᴰ.tail (Memᴰ.tail (Memᴰ.head e))) =
    rw e (record { known = refl; unbound = refl; same_reason = refl })
participation-IsResourceFree principal p c participant r
      (Memᴰ.tail (Memᴰ.tail (Memᴰ.tail (Memᴰ.head e)))) =
    rw e (record { known = refl; unbound = refl; same_reason = refl })
participation-IsResourceFree principal p c participant r
      (Memᴰ.tail (Memᴰ.tail (Memᴰ.tail (Memᴰ.tail (Memᴰ.head e))))) =
    rw e (record { known = refl; unbound = refl; same_reason = refl })
participation-IsResourceFree principal p c participant r
      (Memᴰ.tail (Memᴰ.tail (Memᴰ.tail (Memᴰ.tail (Memᴰ.tail (Memᴰ.head e)))))) =
    rw e (record { known = refl; unbound = refl; same_reason = refl })
participation-IsResourceFree principal p c participant r
      (Memᴰ.tail (Memᴰ.tail (Memᴰ.tail (Memᴰ.tail (Memᴰ.tail (Memᴰ.tail m)))))) =
    elim m [ ]

-- An administrator's right is listed with its one resource.
admin_right-resource :
    (c right : String)
    → Memᴰ (c, right) admin_rights
    → (is_known_capability c ≡ true) × (implicit_resource c ≡ some right)
unfolding implicit_resource is_known_capability exists_row
admin_right-resource c right (Memᴰ.head e) = rw (ap (λ x. x.0) e, ap (λ x. x.1) e) (refl, refl)
admin_right-resource c right (Memᴰ.tail (Memᴰ.head e)) =
    rw (ap (λ x. x.0) e, ap (λ x. x.1) e) (refl, refl)
admin_right-resource c right (Memᴰ.tail (Memᴰ.tail (Memᴰ.head e))) =
    rw (ap (λ x. x.0) e, ap (λ x. x.1) e) (refl, refl)
admin_right-resource c right (Memᴰ.tail (Memᴰ.tail (Memᴰ.tail (Memᴰ.head e)))) =
    rw (ap (λ x. x.0) e, ap (λ x. x.1) e) (refl, refl)
admin_right-resource c right (Memᴰ.tail (Memᴰ.tail (Memᴰ.tail (Memᴰ.tail (Memᴰ.head e))))) =
    rw (ap (λ x. x.0) e, ap (λ x. x.1) e) (refl, refl)
admin_right-resource c right
      (Memᴰ.tail (Memᴰ.tail (Memᴰ.tail (Memᴰ.tail (Memᴰ.tail (Memᴰ.head e)))))) =
    rw (ap (λ x. x.0) e, ap (λ x. x.1) e) (refl, refl)
admin_right-resource c right
      (Memᴰ.tail (Memᴰ.tail (Memᴰ.tail (Memᴰ.tail (Memᴰ.tail (Memᴰ.tail m)))))) =
    elim m [ ]

abbrev pub IsListed : Principal → String → String → Participant → Option String → String → Type 0
IsListed principal p c participant r reason =
    (is_known_capability c ≡ true)
    × Admits (implicit_resource c) r
    × (implicit_authority_reason principal p c (implicit_resource c) participant ≡ some reason)

IsListed-free :
    (principal : Principal) (p c : String) (participant : Participant) (r : Option String)
    {reason : String}
    → implicit_authority_reason principal p c r participant ≡ some reason
    → Memᴰ c (manage_channels ∷ participation_capabilities)
    → IsListed principal p c participant r reason
IsListed-free principal p c participant r given m =
    let free = participation-IsResourceFree principal p c participant r m in
    (
      free.known,
      inl free.unbound,
      ap (λ s. implicit_authority_reason principal p c s participant) free.unbound
          ∙ sym free.same_reason
          ∙ given,
    )

-- Where a reason is given for a resource, the list asks for a resource that admits it.
pub reason-implicit_resource :
    (principal : Principal) (p c : String) (participant : Participant) (r : Option String)
    (reason : String)
    → implicit_authority_reason principal p c r participant ≡ some reason
    → IsListed principal p c participant r reason
reason-implicit_resource principal p c participant r reason given =
    elim (implicit_authority_reason_sound principal p c r participant reason given) [
      | as_itself provider self able ↦
          IsListed-free principal p c participant r given (Memᴰ.tail able)
      | as_admin provider self role right asked able ↦
          let (known, resource) = admin_right-resource c right able in
          let same = resource ∙ sym asked in
          (
            known,
            inr same,
            ap (λ s. implicit_authority_reason principal p c s participant) same ∙ given,
          )
      | as_channel_admin provider self role is ↦
          IsListed-free principal p c participant r given (Memᴰ.head is)
      | as_owner github provider subject able ↦
          IsListed-free principal p c participant r given (Memᴰ.tail able)
    ]

-- A reason that is given without a resource is given for any.
pub reason-any_resource :
    (principal : Principal) (p c : String) (participant : Participant) (r : Option String)
    (reason : String)
    → implicit_authority_reason principal p c none participant ≡ some reason
    → implicit_authority_reason principal p c r participant ≡ some reason
reason-any_resource principal p c participant r reason given =
    let any : Memᴰ c (manage_channels ∷ participation_capabilities)
        → implicit_authority_reason principal p c r participant ≡ some reason =
      λ m. (participation-IsResourceFree principal p c participant r m).same_reason ∙ given in
    elim (implicit_authority_reason_sound principal p c none participant reason given) [
      | as_itself provider self able ↦ any (Memᴰ.tail able)
      | as_admin provider self role right asked able ↦ cc
      | as_channel_admin provider self role is ↦ any (Memᴰ.head is)
      | as_owner github provider subject able ↦ any (Memᴰ.tail able)
    ]
