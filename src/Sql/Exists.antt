-- ===== src/Sql/Exists.antt =====
-- EXISTS and COUNT(*) over rows that were selected and ordered.
use conversation_blackboard.Common.{
  ◌≡◌, refl, ◌∙◌, ap, Bool, true, false, ◌&&◌, ◌||◌, List, [], ◌∷◌, ◌++◌, arith, Bool-cases, inl,
  inr, ◌↔◌,
}
use conversation_blackboard.Sql.{select, count_rows, exists_row, insert_by, order_by}

module _ {ℓ} {A : Type ℓ} where
  exists_row-insert_by :
      (q : A → Bool) (before : A → A → Bool) (x : A) (ys : List A)
      → exists_row q (insert_by before x ys) ≡ q x || exists_row q ys
  unfolding insert_by exists_row
  exists_row-insert_by q before x [] = refl
  exists_row-insert_by q before x (y ∷ ys) = elim (Bool-cases (before x y)) [
    | inl t ↦ rw t
    | inr f ↦ let rest = exists_row-insert_by q before x ys in rw f (ground arith)
  ]

  exists_row-order_by :
      (q : A → Bool) (before : A → A → Bool) (xs : List A)
      → exists_row q (order_by before xs) ≡ exists_row q xs
  unfolding order_by exists_row
  exists_row-order_by q before [] = refl
  exists_row-order_by q before (x ∷ xs) =
      exists_row-insert_by q before x (order_by before xs)
      ∙ ap (λ b. q x || b) (exists_row-order_by q before xs)

  exists_row-select :
      (q p : A → Bool) (xs : List A) → exists_row q (select p xs) ≡ exists_row (λ r. p r && q r) xs
  unfolding select exists_row
  exists_row-select q p [] = refl
  exists_row-select q p (x ∷ xs) = elim (Bool-cases (p x)) [
    | inl t ↦ rw t (ap (λ b. q x || b) (exists_row-select q p xs))
    | inr f ↦ rw f (exists_row-select q p xs)
  ]

  -- Neither the order nor a selection in front hides a row from EXISTS.
  pub exists_row-ordered :
      (q p : A → Bool) (before : A → A → Bool) (xs : List A)
      → exists_row q (order_by before (select p xs)) ≡ exists_row (λ r. p r && q r) xs
  exists_row-ordered q p before xs =
      exists_row-order_by q before (select p xs) ∙ exists_row-select q p xs

  pub count_rows-exists :
      (q : A → Bool) (xs : List A) → (count_rows q xs ≡ 0) ↔ (exists_row q xs ≡ false)
  unfolding count_rows exists_row
  count_rows-exists q [] = (λ h. refl, λ h. refl)
  count_rows-exists q (x ∷ xs) = let rest = count_rows-exists q xs in ground arith

  pub count_rows-append_last :
      (q : A → Bool) (xs : List A) (y : A)
      → exists_row q xs ≡ false
      → q y ≡ true
      → count_rows q (xs ++ y ∷ []) ≡ 1
  unfolding count_rows exists_row
  count_rows-append_last q [] y none_yet h = rw h refl
  count_rows-append_last q (x ∷ xs) y none_yet h = ground (arith, count_rows-append_last q xs y)

  pub exists_row-append_last :
      (q : A → Bool) (xs : List A) (y : A) → exists_row q (xs ++ y ∷ []) ≡ exists_row q xs || q y
  unfolding exists_row
  exists_row-append_last q [] y = ground arith
  exists_row-append_last q (x ∷ xs) y = ground (arith, exists_row-append_last q xs y)

  -- A narrower condition holds of no row either.
  pub exists_row-narrow :
      (p q : A → Bool) (xs : List A)
      → exists_row p xs ≡ false
      → exists_row (λ r. p r && q r) xs ≡ false
  unfolding exists_row
  exists_row-narrow p q [] h = refl
  exists_row-narrow p q (x ∷ xs) h = ground (arith, exists_row-narrow p q xs)
