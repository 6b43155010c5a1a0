-- ===== src/Sql/Empty.antt =====
-- When a query returns no row.
use conversation_blackboard.Common.{
  ◌≡◌, refl, subst, ◌↔◌, inl, inr, Bool, false, List, [], ◌∷◌, ◌++◌, map, Memᴰ, Bool-cases,
}
use conversation_blackboard.Sql.{select, order_by}
use conversation_blackboard.Sql.Order.{order_by-Memᴰ, select-Memᴰ}

module _ {A : Type 0} where
  pub append-nil : (xs ys : List A) → (xs ++ ys ≡ []) ↔ ((xs ≡ []) × (ys ≡ []))
  append-nil [] ys = (λ h. (refl, h), λ h. h.1)
  append-nil (x ∷ xs) ys = (λ h. cc, λ h. let e = h.0 in cc)

  -- Ordering keeps a table empty, and a table with rows from being empty.
  pub order_by-nil : (before : A → A → Bool) (xs : List A) → (order_by before xs ≡ []) ↔ (xs ≡ [])
  unfolding order_by
  order_by-nil before [] = (λ h. refl, λ h. refl)
  order_by-nil before (x ∷ xs) = (
    λ h.
        let m = order_by-Memᴰ before (x ∷ xs) (Memᴰ.head refl) in
        elim (subst (λ l. Memᴰ x l) h m) [ ],
    λ h. cc,
  )

  select-none :
      (p : A → Bool) (xs : List A) → ((r : A) → Memᴰ r xs → p r ≡ false) → select p xs ≡ []
  unfolding select
  select-none p [] h = refl
  select-none p (x ∷ xs) h = rw (h x (Memᴰ.head refl)) (select-none p xs (λ r m. h r (Memᴰ.tail m)))

  -- A selection is empty when no row meets the condition.
  pub select-nil :
      (p : A → Bool) (xs : List A) → (select p xs ≡ []) ↔ ((r : A) → Memᴰ r xs → p r ≡ false)
  select-nil p xs = (
    λ h r m. elim (Bool-cases (p r)) [
      | inr f ↦ f
      | inl t ↦ elim (subst (λ l. Memᴰ r l) h (select-Memᴰ p xs m t)) [ ]
    ],
    select-none p xs,
  )

pub map-nil : {A B : Type 0} (f : A → B) (xs : List A) → (map f xs ≡ []) ↔ (xs ≡ [])
map-nil f [] = (λ h. refl, λ h. refl)
map-nil f (x ∷ xs) = (λ h. cc, λ h. cc)
