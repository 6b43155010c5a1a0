-- ===== src/Sql/Laws.antt =====
-- What a query returns, in terms of membership in its table, and how queries see an UPDATE.
use conversation_blackboard.Common.{
  ℕ, ◌<◌, ◌≡◌, refl, sym, ap, ◌∙◌, Bool, true, false, inl, inr, none, some, List, [], ◌∷◌, ◌++◌,
  map, Memᴰ, arith, Bool-cases, nat_beq,
}
use conversation_blackboard.Sql.{
  Result, ok, err, ◌>>=◌, select, count_rows, first, find, exists_row, next_rowid,
}

pub eq_of_ok : {E A : Type 0} {a b : A} → ◌≡◌ {A = Result E A} (ok a) (ok b) → a ≡ b
eq_of_ok e = cc

pub bound_ok :
    {E A B : Type 0} (r : Result E A) (f : A → B) {b : B}
    → ◌≡◌ {A = Result E B} (r >>= λ a. ok (f a)) (ok b)
    → (a : A) × (r ≡ ok a) × (f a ≡ b)
bound_ok (ok a) f h = (a, refl, eq_of_ok h)
bound_ok (err e) f h = cc

module _ {ℓ} {A : Type ℓ} where
  -- `find` is the first row of `select`.
  pub find-select : (p : A → Bool) (xs : List A) → find p xs ≡ first (select p xs)
  unfolding find select first
  find-select p [] = refl
  find-select p (x ∷ xs) = elim (Bool-cases (p x)) [
    | inl e ↦ rw e
    | inr e ↦ rw e (find-select p xs)
  ]

  pub find_sound :
      (p : A → Bool) (xs : List A) {r : A} → find p xs ≡ some r → Memᴰ r xs × (p r ≡ true)
  unfolding find
  find_sound p [] h = cc
  find_sound p (x ∷ xs) {r = r} h = elim (Bool-cases (p x)) [
    | inl e ↦ let same : x ≡ r = cc in (Memᴰ.head (sym same), ap p (sym same) ∙ e)
    | inr e ↦ let (m, q) = find_sound p xs (rw e at h) in (Memᴰ.tail m, q)
  ]

  pub find-none : (p : A → Bool) (xs : List A) {r : A} → find p xs ≡ none → Memᴰ r xs → p r ≡ false
  unfolding find
  find-none p [] h m = elim m [ ]
  find-none p (x ∷ xs) h (Memᴰ.head e) = elim (Bool-cases (p x)) [ inl t ↦ cc | inr f ↦ ap p e ∙ f ]
  find-none p (x ∷ xs) h (Memᴰ.tail m) = elim (Bool-cases (p x)) [
    | inl t ↦ cc
    | inr f ↦ find-none p xs (rw f at h) m
  ]

  pub select_sound :
      (p : A → Bool) (xs : List A) {r : A} → Memᴰ r (select p xs) → Memᴰ r xs × (p r ≡ true)
  unfolding select
  select_sound p [] m = elim m [ ]
  select_sound p (x ∷ xs) m = elim (Bool-cases (p x)) [
    | inl t ↦ elim (rw t at m) [
      | Memᴰ.head e ↦ (Memᴰ.head e, ap p e ∙ t)
      | Memᴰ.tail m' ↦ let (m'', q) = select_sound p xs m' in (Memᴰ.tail m'', q)
    ]
    | inr f ↦ let (m'', q) = select_sound p xs (rw f at m) in (Memᴰ.tail m'', q)
  ]

  pub find-append :
      (p : A → Bool) (xs ys : List A) {r : A} → find p xs ≡ some r → find p (xs ++ ys) ≡ some r
  unfolding find
  find-append p [] ys h = cc
  find-append p (x ∷ xs) ys h = elim (Bool-cases (p x)) [
    | inl t ↦ rw t (rw t at h)
    | inr f ↦ rw f (find-append p xs ys (rw f at h))
  ]

  pub find-append_new :
      (p : A → Bool) (xs ys : List A) → find p xs ≡ none → find p (xs ++ ys) ≡ find p ys
  unfolding find
  find-append_new p [] ys h = refl
  find-append_new p (x ∷ xs) ys h = elim (Bool-cases (p x)) [
    | inl t ↦ cc
    | inr f ↦ rw f (find-append_new p xs ys (rw f at h))
  ]

  pub exists_row-find :
      (p : A → Bool) (xs : List A) {r : A} → find p xs ≡ some r → exists_row p xs ≡ true
  unfolding find exists_row
  exists_row-find p [] h = cc
  exists_row-find p (x ∷ xs) h = elim (Bool-cases (p x)) [
    | inl t ↦ rw t
    | inr f ↦ rw f (exists_row-find p xs (rw f at h))
  ]

  pub exists_row-Memᴰ :
      (p : A → Bool) (xs : List A) {r : A} → Memᴰ r xs → p r ≡ true → exists_row p xs ≡ true
  unfolding exists_row
  exists_row-Memᴰ p [] m h = elim m [ ]
  exists_row-Memᴰ p (x ∷ xs) (Memᴰ.head e) h = rw (sym (ap p e) ∙ h)
  exists_row-Memᴰ p (x ∷ xs) (Memᴰ.tail m) h = elim (Bool-cases (p x)) [
    | inl t ↦ rw t
    | inr f ↦ rw f (exists_row-Memᴰ p xs m h)
  ]

  pub find-Memᴰ :
      (p : A → Bool) (xs : List A) {r : A} → Memᴰ r xs → p r ≡ true → (s : A) × (find p xs ≡ some s)
  unfolding find
  find-Memᴰ p [] m h = elim m [ ]
  find-Memᴰ p (x ∷ xs) (Memᴰ.head e) h = (x, rw (sym (ap p e) ∙ h))
  find-Memᴰ p (x ∷ xs) (Memᴰ.tail m) h = elim (Bool-cases (p x)) [
    | inl t ↦ (x, rw t)
    | inr f ↦ let (s, q) = find-Memᴰ p xs m h in (s, rw f q)
  ]

  pub count_rows-zero :
      (p : A → Bool) (xs : List A) {r : A} → count_rows p xs ≡ 0 → Memᴰ r xs → p r ≡ false
  unfolding count_rows
  count_rows-zero p [] h m = elim m [ ]
  count_rows-zero p (x ∷ xs) h (Memᴰ.head e) = elim (Bool-cases (p x)) [
    | inl t ↦ absurd (omega (arith, rw t at h))
    | inr f ↦ ap p e ∙ f
  ]
  count_rows-zero p (x ∷ xs) h (Memᴰ.tail m) = elim (Bool-cases (p x)) [
    | inl t ↦ absurd (omega (arith, rw t at h))
    | inr f ↦ count_rows-zero p xs (rw f at h) m
  ]

  pub count_rows-pos :
      (p : A → Bool) (xs : List A) {r : A} → Memᴰ r xs → p r ≡ true → 0 < count_rows p xs
  unfolding count_rows
  count_rows-pos p [] m h = elim m [ ]
  count_rows-pos p (x ∷ xs) (Memᴰ.head e) h = rw (sym (ap p e) ∙ h) (omega arith)
  count_rows-pos p (x ∷ xs) (Memᴰ.tail m) h = elim (Bool-cases (p x)) [
    | inl t ↦ rw t (omega arith)
    | inr f ↦ rw f (count_rows-pos p xs m h)
  ]

  -- The number that the next row gets is above every number in the table.
  pub lt-next_rowid : (id : A → ℕ) (xs : List A) {r : A} → Memᴰ r xs → id r < next_rowid id xs
  unfolding next_rowid
  lt-next_rowid id [] m = elim m [ ]
  lt-next_rowid id (x ∷ xs) (Memᴰ.head e) = let same = ap id e in ground arith
  lt-next_rowid id (x ∷ xs) (Memᴰ.tail m) = ground (arith, lt-next_rowid id xs m)

  pub next_rowid-pos : (id : A → ℕ) (xs : List A) → 0 < next_rowid id xs
  unfolding next_rowid
  next_rowid-pos id [] = omega arith
  next_rowid-pos id (x ∷ xs) = ground (arith, next_rowid-pos id xs)

  -- A condition that an UPDATE does not disturb selects the updated rows.
  pub select-map :
      (p : A → Bool) (f : A → A) (xs : List A)
      → ((x : A) → p (f x) ≡ p x)
      → select p (map f xs) ≡ map f (select p xs)
  unfolding select
  select-map p f [] h = refl
  select-map p f (x ∷ xs) h = elim (Bool-cases (p x)) [
    | inl t ↦ rw (h x, t) (ap (λ l. f x ∷ l) (select-map p f xs h))
    | inr t ↦ rw (h x, t) (select-map p f xs h)
  ]

  pub count_rows-map :
      (p : A → Bool) (f : A → A) (xs : List A)
      → ((x : A) → p (f x) ≡ p x)
      → count_rows p (map f xs) ≡ count_rows p xs
  unfolding count_rows
  count_rows-map p f [] h = refl
  count_rows-map p f (x ∷ xs) h = rw (h x, count_rows-map p f xs h)

  pub find-map :
      (p : A → Bool) (f : A → A) (xs : List A) {r : A}
      → ((x : A) → p (f x) ≡ p x)
      → find p xs ≡ some r
      → find p (map f xs) ≡ some (f r)
  unfolding find
  find-map p f [] h e = cc
  find-map p f (x ∷ xs) h e = elim (Bool-cases (p x)) [
    | inl t ↦ rw (h x, t) (let same = rw t at e in cc)
    | inr t ↦ rw (h x, t) (find-map p f xs h (rw t at e))
  ]

  pub exists_row_sound :
      (p : A → Bool) (xs : List A) → exists_row p xs ≡ true → (r : A) × Memᴰ r xs × (p r ≡ true)
  unfolding exists_row
  exists_row_sound p [] h = cc
  exists_row_sound p (x ∷ xs) h = elim (Bool-cases (p x)) [
    | inl t ↦ (x, Memᴰ.head refl, t)
    | inr f ↦ let (r, m, q) = exists_row_sound p xs (rw f at h) in (r, Memᴰ.tail m, q)
  ]

  pub find-fresh :
      (p : A → Bool) (xs : List A) → ((r : A) → Memᴰ r xs → p r ≡ false) → find p xs ≡ none
  unfolding find
  find-fresh p [] h = refl
  find-fresh p (x ∷ xs) h = rw (h x (Memᴰ.head refl)) (find-fresh p xs (λ r m. h r (Memᴰ.tail m)))

  -- A row with the next number is found where it was appended.
  pub find-append_numbered :
      (id : A → ℕ) (xs : List A) (r : A)
      → id r ≡ next_rowid id xs
      → find (λ s. nat_beq (id s) (id r)) (xs ++ r ∷ []) ≡ some r
  find-append_numbered id xs r e =
      find-append_new (λ s. nat_beq (id s) (id r)) xs (r ∷ [])
        (find-fresh (λ s. nat_beq (id s) (id r)) xs
          (λ s m. let below = lt-next_rowid id xs m in ground arith))
      ∙ unfold find in ground arith

  -- A row that nothing before it matches is found where it was appended.
  pub find-append_last :
      (p : A → Bool) (xs : List A) (r : A)
      → find p xs ≡ none
      → p r ≡ true
      → find p (xs ++ r ∷ []) ≡ some r
  find-append_last p xs r none_yet h = find-append_new p xs (r ∷ []) none_yet ∙ unfold find in rw h

  pub find-of_exists : (p : A → Bool) (xs : List A) → exists_row p xs ≡ false → find p xs ≡ none
  unfolding find exists_row
  find-of_exists p [] h = refl
  find-of_exists p (x ∷ xs) h = elim (Bool-cases (p x)) [
    | inl t ↦ let stuck = rw t at h in cc
    | inr f ↦ rw f (find-of_exists p xs (rw f at h))
  ]
