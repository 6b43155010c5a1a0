-- ===== src/Authorization/EffectiveRights.antt =====
-- What allows a read, and which grants the two parts of the list of effective grants hold.
use conversation_blackboard.Common.{
  ℕ, String, ◌≡◌, refl, ◌⊎◌, inl, inr, Bool, true, false, ◌&&◌, Option, none, some, List, [], ◌∷◌,
  Memᴰ, Bool-cases, Option-cases, and_intro, arith, ltb,
}
use conversation_blackboard.Common.Eq.{◌==◌, ==_refl, string_eq, option_eq}
use conversation_blackboard.Sql.{first, exists_row}
use conversation_blackboard.Sql.Laws.{select_sound, count_rows-pos}
use conversation_blackboard.Sql.Order.{Memᴰ-order_by, order_by-Memᴰ, select-Memᴰ}
use conversation_blackboard.Sql.Members.{Memᴰ-map, Memᴰ-map_inv}
use conversation_blackboard.Board.{Principal, DurableGrant, Participant, Database}
use conversation_blackboard.Authorization.Capability.{allow, deny}
use conversation_blackboard.Authorization.Implicit.{implicit_authority_reason}
use conversation_blackboard.Authorization.Evaluate.{
  durable_in_scope, durable_covers, durable_before, explicit_count, explicit_match,
  delegated_or_denied, evaluate_active,
}
use conversation_blackboard.Authorization.Effective.{
  EffectiveGrant, is_held, explicit_grant, explicit_grants, implicit_resource, implicit_grant,
  is_allowed, implicit_grants,
}

-- The first row of a result that has rows.
first-Memᴰ {ℓ} : {A : Type ℓ} (xs : List A) {r : A} → Memᴰ r xs → (s : A) × (first xs ≡ some s)
unfolding first
first-Memᴰ [] m = elim m [ ]
first-Memᴰ (x ∷ xs) m = (x, refl)

pub durable_covers_own : (g : DurableGrant) → durable_covers g.resource g ≡ true
unfolding durable_covers
durable_covers_own g = elim (Option-cases g.resource) [
  | inl open_scope ↦ rw open_scope refl
  | inr (r, e) ↦ let same = ==_refl r in rw e (ground arith)
]

module _ (db : Database) (now : ℕ) (principal : Principal) (p : String) where
  pub held_scope :
      (g : DurableGrant) → durable_in_scope principal p g.capability g ≡ is_held principal p g
  unfolding durable_in_scope is_held
  held_scope g = let self = ==_refl g.capability in ground arith

  pub explicit_count-many :
      (c : String) (g : DurableGrant)
      → Memᴰ g db.principal_grants
      → durable_in_scope principal p c g ≡ true
      → ltb 0 (explicit_count db principal p c) ≡ true
  unfolding explicit_count
  explicit_count-many c g m scope =
      let counted = count_rows-pos (durable_in_scope principal p c) db.principal_grants m scope in
      ground arith

  explicit_match-found :
      (c : String) (r : Option String) (g : DurableGrant)
      → Memᴰ g db.principal_grants
      → durable_in_scope principal p c g ≡ true
      → durable_covers r g ≡ true
      → (s : DurableGrant) × (explicit_match db principal p c r ≡ some s)
  unfolding explicit_match
  explicit_match-found c r g m scope covers = first-Memᴰ _ (
      order_by-Memᴰ durable_before _ (
        select-Memᴰ (λ h. durable_in_scope principal p c h && durable_covers r h)
          db.principal_grants m (and_intro scope covers)))

  module _ (participant : Participant) where
    abbrev pub allowed : String → Option String → Bool
    allowed c r = (evaluate_active db now principal p c r none participant).allowed

    pub granted-allowed :
        (c : String) (r : Option String) (g : DurableGrant)
        → Memᴰ g db.principal_grants
        → durable_in_scope principal p c g ≡ true
        → durable_covers r g ≡ true
        → allowed c r ≡ true
    unfolding evaluate_active allow
    granted-allowed c r g m scope covers =
        let (s, fits) = explicit_match-found c r g m scope covers in
        rw (allowed, explicit_count-many c g m scope, fits) refl

    pub implicit-allowed :
        (c : String) (r : Option String) (reason : String)
        → ltb 0 (explicit_count db principal p c) ≡ false
        → implicit_authority_reason principal p c r participant ≡ some reason
        → allowed c r ≡ true
    unfolding evaluate_active allow
    implicit-allowed c r reason nothing given = rw (allowed, nothing, given) refl

    pub allowed-cases :
        (c : String) (r : Option String)
        → allowed c r ≡ true
        → ((g : DurableGrant) × (explicit_match db principal p c r ≡ some g))
          ⊎ ((ltb 0 (explicit_count db principal p c) ≡ false)
              × (reason : String) × (implicit_authority_reason principal p c r participant
                  ≡ some reason))
    unfolding evaluate_active delegated_or_denied deny
    allowed-cases c r h = elim (Bool-cases (ltb 0 (explicit_count db principal p c))) [
      | inl many ↦ elim (Option-cases (explicit_match db principal p c r)) [
        | inr fits ↦ inl fits
        | inl none_fits ↦
            let denied = rw (allowed, evaluate_active, many, none_fits) at h in
            absurd (ground arith)
      ]
      | inr nothing ↦ elim (Option-cases (implicit_authority_reason principal p c r participant)) [
        | inr (reason, given) ↦ inr (nothing, reason, given)
        | inl no_reason ↦
            let denied = rw (allowed, evaluate_active, nothing, no_reason) at h in
            absurd (ground arith)
      ]
    ]

  abbrev pub explicit : List EffectiveGrant
  explicit = explicit_grants db principal p

  -- The explicit part of the list is the durable grants that are held.
  pub explicit-held :
      {e : EffectiveGrant}
      → Memᴰ e explicit
      → (g : DurableGrant) × Memᴰ g db.principal_grants
        × (is_held principal p g ≡ true)
        × (e ≡ explicit_grant g)
  unfolding explicit_grants
  explicit-held m =
      let (g, n, e) = Memᴰ-map_inv explicit_grant _ m in
      let (k, held) =
        select_sound (is_held principal p) db.principal_grants (Memᴰ-order_by _ _ n) in
      (g, k, held, e)

  pub held-explicit :
      (g : DurableGrant)
      → Memᴰ g db.principal_grants
      → is_held principal p g ≡ true
      → Memᴰ (explicit_grant g) explicit
  unfolding explicit_grants
  held-explicit g m held =
      Memᴰ-map explicit_grant _
        (order_by-Memᴰ _ _ (select-Memᴰ (is_held principal p) db.principal_grants m held))

  pub implicit-listed :
      (cs : List String) {e : EffectiveGrant}
      → Memᴰ e (implicit_grants db now principal p explicit cs)
      → (c : String) × (e ≡ implicit_grant c)
        × (is_allowed db now principal p c (implicit_resource c) ≡ true)
  unfolding implicit_grants
  implicit-listed [] m = elim m [ ]
  implicit-listed (c ∷ cs) m = elim (Bool-cases (exists_row (λ g. g.capability == c) explicit)) [
    | inl there ↦ implicit-listed cs (rw (there, implicit_grants) at m)
    | inr absent ↦ elim (Bool-cases (is_allowed db now principal p c (implicit_resource c))) [
      | inr denied ↦ implicit-listed cs (rw (absent, denied, implicit_grants) at m)
      | inl granted ↦ elim (rw (absent, granted, implicit_grants) at m) [
        | Memᴰ.head e ↦ (c, e, granted)
        | Memᴰ.tail n ↦ implicit-listed cs n
      ]
    ]
  ]

  pub allowed-listed :
      (cs : List String) (c : String)
      → Memᴰ c cs
      → exists_row (λ g. g.capability == c) explicit ≡ false
      → is_allowed db now principal p c (implicit_resource c) ≡ true
      → Memᴰ (implicit_grant c) (implicit_grants db now principal p explicit cs)
  unfolding implicit_grants
  allowed-listed [] c m absent granted = elim m [ ]
  allowed-listed (d ∷ cs) c (Memᴰ.head e) absent granted =
      rw (← e) (rw (absent, granted) (Memᴰ.head refl))
  allowed-listed (d ∷ cs) c (Memᴰ.tail m) absent granted =
      let n = allowed-listed cs c m absent granted in
      elim (Bool-cases (exists_row (λ g. g.capability == d) explicit)) [
        | inl there ↦ rw there n
        | inr gone ↦ elim (Bool-cases (is_allowed db now principal p d (implicit_resource d))) [
          | inl more ↦ rw (gone, more) (Memᴰ.tail n)
          | inr denied ↦ rw (gone, denied) n
        ]
      ]
