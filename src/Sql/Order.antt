-- ===== src/Sql/Order.antt =====
-- ORDER BY keeps the rows, and an UPDATE that leaves the sort keys alone commutes with it.
use conversation_blackboard.Common.{
  ◌≡◌, refl, sym, ap, ◌∙◌, Bool, true, inl, inr, some, List, [], ◌∷◌, map, Memᴰ, Bool-cases,
}
use conversation_blackboard.Sql.{select, first, insert_by, order_by}

pub Memᴰ-first {ℓ} : {A : Type ℓ} (xs : List A) {r : A} → first xs ≡ some r → Memᴰ r xs
unfolding first
Memᴰ-first [] h = cc
Memᴰ-first (x ∷ xs) h = Memᴰ.head (cc)

module _ {ℓ} {A : Type ℓ} (before : A → A → Bool) where
  pub Memᴰ-insert_by :
      (x : A) (ys : List A) {r : A} → Memᴰ r (insert_by before x ys) → Memᴰ r (x ∷ ys)
  unfolding insert_by
  Memᴰ-insert_by x [] m = m
  Memᴰ-insert_by x (y ∷ ys) m = elim (Bool-cases (before x y)) [
    | inl t ↦ rw t at m
    | inr f ↦ elim (rw f at m) [
      | Memᴰ.head e ↦ Memᴰ.tail (Memᴰ.head e)
      | Memᴰ.tail n ↦ elim (Memᴰ-insert_by x ys n) [
        | Memᴰ.head e ↦ Memᴰ.head e
        | Memᴰ.tail o ↦ Memᴰ.tail (Memᴰ.tail o)
      ]
    ]
  ]

  insert_by-Memᴰ : (x : A) (ys : List A) {r : A} → Memᴰ r (x ∷ ys) → Memᴰ r (insert_by before x ys)
  unfolding insert_by
  insert_by-Memᴰ x [] m = m
  insert_by-Memᴰ x (y ∷ ys) m = elim (Bool-cases (before x y)) [
    | inl t ↦ rw t m
    | inr f ↦ rw f (elim m [
      | Memᴰ.head e ↦ Memᴰ.tail (insert_by-Memᴰ x ys (Memᴰ.head e))
      | Memᴰ.tail n ↦ elim n [
        | Memᴰ.head e ↦ Memᴰ.head e
        | Memᴰ.tail o ↦ Memᴰ.tail (insert_by-Memᴰ x ys (Memᴰ.tail o))
      ]
    ])
  ]

  -- The ordered rows are rows of the table.
  pub Memᴰ-order_by : (xs : List A) {r : A} → Memᴰ r (order_by before xs) → Memᴰ r xs
  unfolding order_by
  Memᴰ-order_by [] m = m
  Memᴰ-order_by (x ∷ xs) m = elim (Memᴰ-insert_by x (order_by before xs) m) [
    | Memᴰ.head e ↦ Memᴰ.head e
    | Memᴰ.tail n ↦ Memᴰ.tail (Memᴰ-order_by xs n)
  ]

  -- Every row of the table is among the ordered ones.
  pub order_by-Memᴰ : (xs : List A) {r : A} → Memᴰ r xs → Memᴰ r (order_by before xs)
  unfolding order_by
  order_by-Memᴰ [] m = m
  order_by-Memᴰ (x ∷ xs) (Memᴰ.head e) = insert_by-Memᴰ x (order_by before xs) (Memᴰ.head e)
  order_by-Memᴰ (x ∷ xs) (Memᴰ.tail m) =
      insert_by-Memᴰ x (order_by before xs) (Memᴰ.tail (order_by-Memᴰ xs m))

  module _ (f : A → A) (keeps : (a b : A) → before (f a) (f b) ≡ before a b) where
    insert_by-map :
        (x : A) (ys : List A) → insert_by before (f x) (map f ys) ≡ map f (insert_by before x ys)
    unfolding insert_by
    insert_by-map x [] = refl
    insert_by-map x (y ∷ ys) = elim (Bool-cases (before x y)) [
      | inl t ↦ rw (keeps x y, t)
      | inr t ↦ rw (keeps x y, t) (ap (λ l. f y ∷ l) (insert_by-map x ys))
    ]

    pub order_by-map : (xs : List A) → order_by before (map f xs) ≡ map f (order_by before xs)
    unfolding order_by
    order_by-map [] = refl
    order_by-map (x ∷ xs) = rw (order_by-map xs) (insert_by-map x (order_by before xs))

pub select-Memᴰ {ℓ} :
    {A : Type ℓ} (p : A → Bool) (xs : List A) {r : A}
    → Memᴰ r xs
    → p r ≡ true
    → Memᴰ r (select p xs)
unfolding select
select-Memᴰ p [] m h = elim m [ ]
select-Memᴰ p (x ∷ xs) (Memᴰ.head e) h = rw (sym (ap p e) ∙ h) (Memᴰ.head e)
select-Memᴰ p (x ∷ xs) (Memᴰ.tail m) h = elim (Bool-cases (p x)) [
  | inl t ↦ rw t (Memᴰ.tail (select-Memᴰ p xs m h))
  | inr f ↦ rw f (select-Memᴰ p xs m h)
]
