-- ===== src/Authorization/WindowTexts.antt =====
-- Which texts name a store and an order of the windows over the grants.
use conversation_blackboard.Common.{
  String, ◌≡◌, refl, sym, ap, ◌∙◌, ◌↔◌, ◌⊎◌, inl, inr, Option, none, some, Bool-cases, eq_of_some,
}
use conversation_blackboard.Common.Eq.{◌==◌, ==_iff, string_eq}
use conversation_blackboard.Authorization.Window.{
  AuthorizationPolicyStore, durable, delegated, desc, asc, parse_store, parse_order,
}

abbrev pub store_text : AuthorizationPolicyStore → String
store_text durable = "durable"
store_text delegated = "delegated"

pub parse_store-some :
    (value : String)
    → ((s : AuthorizationPolicyStore) × (parse_store value ≡ some s))
      ↔ ((value ≡ "durable") ⊎ (value ≡ "delegated"))
unfolding parse_store
parse_store-some value = elim (Bool-cases (value == "durable")) [
  | inl t ↦ rw (parse_store, t) (λ h. inl ((==_iff value "durable").0 t), λ h. (durable, refl))
  | inr f ↦ elim (Bool-cases (value == "delegated")) [
    | inl t ↦
        rw (parse_store, f, t) (λ h. inr ((==_iff value "delegated").0 t), λ h. (delegated, refl))
    | inr g ↦
        rw (parse_store, f, g)
          (
            λ (s, h). cc,
            λ h. elim h [
              | inl e ↦ let t = (==_iff value "durable").1 e in cc
              | inr e ↦ let t = (==_iff value "delegated").1 e in cc
            ],
          )
  ]
]

pub parse_order-desc :
    (order : Option String)
    → (parse_order order ≡ some desc) ↔ ((order ≡ none) ⊎ (order ≡ some "desc"))
unfolding parse_order
parse_order-desc none = (λ h. inl refl, λ h. refl)
parse_order-desc (some value) = elim (Bool-cases (value == "desc")) [
  | inl t ↦ rw (parse_order, t) (λ h. inr (ap some ((==_iff value "desc").0 t)), λ h. refl)
  | inr f ↦ elim (Bool-cases (value == "asc")) [
    | inl t ↦
        rw (parse_order, f, t)
          (
            λ h. cc,
            λ h. elim h [
              | inl e ↦ cc
              | inr e ↦ let t = (==_iff value "desc").1 (eq_of_some e) in cc
            ],
          )
    | inr g ↦
        rw (parse_order, f, g)
          (
            λ h. cc,
            λ h. elim h [
              | inl e ↦ cc
              | inr e ↦ let t = (==_iff value "desc").1 (eq_of_some e) in cc
            ],
          )
  ]
]

pub parse_order-asc :
    (order : Option String) → (parse_order order ≡ some asc) ↔ (order ≡ some "asc")
unfolding parse_order
parse_order-asc none = (λ h. cc, λ h. cc)
parse_order-asc (some value) = elim (Bool-cases (value == "desc")) [
  | inl t ↦
      rw (parse_order, t)
        (
          λ h. cc,
          λ h.
              let other : "asc" ≡ "desc" = sym (eq_of_some h) ∙ (==_iff value "desc").0 t in
              let differ = (==_iff "asc" "desc").1 other in cc,
        )
  | inr f ↦ elim (Bool-cases (value == "asc")) [
    | inl t ↦ rw (parse_order, f, t) (λ h. ap some ((==_iff value "asc").0 t), λ h. refl)
    | inr g ↦
        rw (parse_order, f, g) (λ h. cc, λ h. let t = (==_iff value "asc").1 (eq_of_some h) in cc)
  ]
]

-- The text of a store.
pub parse_store-store_text :
    (value : String) (store : AuthorizationPolicyStore)
    → parse_store value ≡ some store
    → value ≡ store_text store
unfolding parse_store
parse_store-store_text value store h = elim (Bool-cases (value == "durable")) [
  | inl t ↦
      let same : durable ≡ store = eq_of_some (rw t at h) in
      (==_iff value "durable").0 t ∙ ap store_text same
  | inr f ↦ elim (Bool-cases (value == "delegated")) [
    | inl t ↦
        let same : delegated ≡ store = eq_of_some (rw (f, t) at h) in
        (==_iff value "delegated").0 t ∙ ap store_text same
    | inr g ↦ let gone = rw (f, g) at h in cc
  ]
]
