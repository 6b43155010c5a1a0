-- ===== src/Sql/Members.antt =====
-- Which rows a table holds after an UPDATE and after an INSERT.
use conversation_blackboard.Common.{
  ◌≡◌, refl, ap, ◌⊎◌, inl, inr, Bool, true, false, none, some, List, [], ◌∷◌, ◌++◌, map, Memᴰ,
  Bool-cases,
}
use conversation_blackboard.Sql.{select, find, update_where}

module _ {ℓ} {A : Type ℓ} where
  pub Memᴰ-map : {B : Type ℓ} (f : A → B) (xs : List A) {r : A} → Memᴰ r xs → Memᴰ (f r) (map f xs)
  Memᴰ-map f [] m = elim m [ ]
  Memᴰ-map f (x ∷ xs) (Memᴰ.head e) = Memᴰ.head (ap f e)
  Memᴰ-map f (x ∷ xs) (Memᴰ.tail m) = Memᴰ.tail (Memᴰ-map f xs m)

  pub Memᴰ-map_inv :
      {B : Type ℓ} (f : A → B) (xs : List A) {s : B}
      → Memᴰ s (map f xs)
      → (r : A) × Memᴰ r xs × (s ≡ f r)
  Memᴰ-map_inv f [] m = elim m [ ]
  Memᴰ-map_inv f (x ∷ xs) (Memᴰ.head e) = (x, Memᴰ.head refl, e)
  Memᴰ-map_inv f (x ∷ xs) (Memᴰ.tail m) = let (r, n, e) = Memᴰ-map_inv f xs m in (r, Memᴰ.tail n, e)

  pub Memᴰ-append_left : (xs ys : List A) {r : A} → Memᴰ r xs → Memᴰ r (xs ++ ys)
  Memᴰ-append_left [] ys m = elim m [ ]
  Memᴰ-append_left (x ∷ xs) ys (Memᴰ.head e) = Memᴰ.head e
  Memᴰ-append_left (x ∷ xs) ys (Memᴰ.tail m) = Memᴰ.tail (Memᴰ-append_left xs ys m)

  pub Memᴰ-append_last : (xs : List A) (r : A) → Memᴰ r (xs ++ r ∷ [])
  Memᴰ-append_last [] r = Memᴰ.head refl
  Memᴰ-append_last (x ∷ xs) r = Memᴰ.tail (Memᴰ-append_last xs r)

  pub Memᴰ-append_cases :
      (xs : List A) (y : A) {r : A} → Memᴰ r (xs ++ y ∷ []) → Memᴰ r xs ⊎ (r ≡ y)
  Memᴰ-append_cases [] y (Memᴰ.head e) = inr e
  Memᴰ-append_cases [] y (Memᴰ.tail m) = elim m [ ]
  Memᴰ-append_cases (x ∷ xs) y (Memᴰ.head e) = inl (Memᴰ.head e)
  Memᴰ-append_cases (x ∷ xs) y (Memᴰ.tail m) = elim (Memᴰ-append_cases xs y m) [
    | inl n ↦ inl (Memᴰ.tail n)
    | inr e ↦ inr e
  ]

  -- A query whose rows an UPDATE leaves alone reads the same after it.
  pub find-map_unchanged :
      (p : A → Bool) (f : A → A) (xs : List A)
      → ((x : A) → p (f x) ≡ p x)
      → ((x : A) → p x ≡ true → f x ≡ x)
      → find p (map f xs) ≡ find p xs
  unfolding find
  find-map_unchanged p f [] keeps same = refl
  find-map_unchanged p f (x ∷ xs) keeps same = elim (Bool-cases (p x)) [
    | inl t ↦ rw (keeps x, t) (ap some (same x t))
    | inr e ↦ rw (keeps x, e) (find-map_unchanged p f xs keeps same)
  ]

  pub find-map-none :
      (p : A → Bool) (f : A → A) (xs : List A)
      → ((x : A) → p (f x) ≡ false)
      → find p (map f xs) ≡ none
  unfolding find
  find-map-none p f [] h = refl
  find-map-none p f (x ∷ xs) h = rw (h x) (find-map-none p f xs h)

  pub Memᴰ-append_right : (xs ys : List A) {r : A} → Memᴰ r ys → Memᴰ r (xs ++ ys)
  Memᴰ-append_right [] ys m = m
  Memᴰ-append_right (x ∷ xs) ys m = Memᴰ.tail (Memᴰ-append_right xs ys m)

  pub Memᴰ-append_split : (xs ys : List A) {r : A} → Memᴰ r (xs ++ ys) → Memᴰ r xs ⊎ Memᴰ r ys
  Memᴰ-append_split [] ys m = inr m
  Memᴰ-append_split (x ∷ xs) ys (Memᴰ.head e) = inl (Memᴰ.head e)
  Memᴰ-append_split (x ∷ xs) ys (Memᴰ.tail m) = elim (Memᴰ-append_split xs ys m) [
    | inl n ↦ inl (Memᴰ.tail n)
    | inr n ↦ inr n
  ]

-- A selection does not see an UPDATE of rows that it leaves out, before as after.
pub select-update_where :
    {A : Type 0} (q p : A → Bool) (f : A → A) (xs : List A)
    → ((x : A) → p x ≡ true → (q x ≡ false) × (q (f x) ≡ false))
    → select q (update_where p f xs) ≡ select q xs
unfolding select update_where
select-update_where q p f [] out = refl
select-update_where q p f (x ∷ xs) out =
    let rest = select-update_where q p f xs out in
    elim (Bool-cases (p x)) [
      | inl t ↦ let (before, after) = out x t in rw (t, before, after) rest
      | inr g ↦ rw (g, rest) refl
    ]
