-- ===== src/Sql/Page.antt =====
-- A page of a table: its rows that meet a condition, ordered, at most a limit of them.
use conversation_blackboard.Common.{
  ℕ, zero, suc, ◌≤◌, ◌<◌, ◌≡◌, refl, sym, ap, subst, ◌∙◌, ◌⊎◌, ◌↔◌, inl, inr, Bool, true, false,
  List, [], ◌∷◌, Memᴰ, arith, Bool-cases, ltb, take, length, length-take,
}
use conversation_blackboard.Sql.{select, insert_by, order_by}
use conversation_blackboard.Sql.Laws.{select_sound}
use conversation_blackboard.Sql.Order.{Memᴰ-insert_by, Memᴰ-order_by, order_by-Memᴰ, select-Memᴰ}

-- SELECT ... WHERE ... ORDER BY ... LIMIT
unfoldable pub page_of {ℓ} : {A : Type ℓ} → (A → A → Bool) → (A → Bool) → ℕ → List A → List A
page_of before asked limit rows = take limit (order_by before (select asked rows))

pub take-Memᴰ {ℓ} : {A : Type ℓ} (n : ℕ) (xs : List A) {m : A} → Memᴰ m (take n xs) → Memᴰ m xs
take-Memᴰ zero xs m = elim m [ ]
take-Memᴰ (suc n) [] m = elim m [ ]
take-Memᴰ (suc n) (x ∷ xs) (Memᴰ.head e) = Memᴰ.head e
take-Memᴰ (suc n) (x ∷ xs) (Memᴰ.tail m) = Memᴰ.tail (take-Memᴰ n xs m)

-- A page read with one more row and cut again is the page.
pub take-take {ℓ} : {A : Type ℓ} (n : ℕ) (xs : List A) → take n (take (suc n) xs) ≡ take n xs
take-take zero xs = refl
take-take (suc n) [] = refl
take-take (suc n) (x ∷ xs) = ap (λ l. x ∷ l) (take-take n xs)

-- Each row may stand in front of all that follow it.
abbrev pub IsOrdered {ℓ} : {A : Type ℓ} → (A → A → Bool) → List A → Type ℓ
IsOrdered before [] = Unit
IsOrdered before (x ∷ xs) = ((m : _) → Memᴰ m xs → before x m ≡ true) × IsOrdered before xs

pub take-IsOrdered {ℓ} :
    {A : Type ℓ} (before : A → A → Bool) (n : ℕ) (xs : List A)
    → IsOrdered before xs
    → IsOrdered before (take n xs)
take-IsOrdered before zero xs a = tt
take-IsOrdered before (suc n) [] a = tt
take-IsOrdered before (suc n) (x ∷ xs) (low, rest) =
    (λ m k. low m (take-Memᴰ n xs k), take-IsOrdered before n xs rest)

-- Where a page ends, each row on it may stand in front of what was left out.
Memᴰ-take {ℓ} :
    {A : Type ℓ} (before : A → A → Bool) (n : ℕ) (xs : List A) {m : A}
    → IsOrdered before xs
    → Memᴰ m xs
    → Memᴰ m (take n xs)
      ⊎ ((length (take n xs) ≡ n) × ((x : A) → Memᴰ x (take n xs) → before x m ≡ true))
Memᴰ-take before zero xs a m = inr (refl, λ x k. elim k [ ])
Memᴰ-take before (suc n) [] a m = elim m [ ]
Memᴰ-take before (suc n) (y ∷ ys) (low, rest) (Memᴰ.head e) = inl (Memᴰ.head e)
Memᴰ-take before (suc n) (y ∷ ys) {m = m} (low, rest) (Memᴰ.tail k) =
    elim (Memᴰ-take before n ys rest k) [
      | inl t ↦ inl (Memᴰ.tail t)
      | inr (full, bound) ↦ inr (
        ap suc full,
        λ x j. elim j [
          | Memᴰ.head e ↦ subst (λ z. before z m ≡ true) (sym e) (low m k)
          | Memᴰ.tail i ↦ bound x i
        ],
      )
    ]

-- An order in which any two rows have a place.
pub record Ranking {ℓ} {A : Type ℓ} (before : A → A → Bool) : Type ℓ where
  pub total : (a b : A) → before a b ≡ false → before b a ≡ true
  pub transitive : (a b c : A) → before a b ≡ true → before b c ≡ true → before a c ≡ true

module _ {ℓ} {A : Type ℓ} (before : A → A → Bool) (ranks : Ranking before) where
  insert_by-IsOrdered :
      (x : A) (ys : List A) → IsOrdered before ys → IsOrdered before (insert_by before x ys)
  unfolding insert_by
  insert_by-IsOrdered x [] a = ((λ m n. elim n [ ]), tt)
  insert_by-IsOrdered x (y ∷ ys) (low, rest) = elim (Bool-cases (before x y)) [
    | inl t ↦ rw t (
      λ m n. elim n [
        | Memᴰ.head e ↦ subst (λ k. before x k ≡ true) (sym e) t
        | Memᴰ.tail k ↦ ranks.transitive x y m t (low m k)
      ],
      (low, rest),
    )
    | inr f ↦ rw f (
      λ m n. elim (Memᴰ-insert_by before x ys n) [
        | Memᴰ.head e ↦ subst (λ k. before y k ≡ true) (sym e) (ranks.total x y f)
        | Memᴰ.tail k ↦ low m k
      ],
      insert_by-IsOrdered x ys rest,
    )
  ]

  pub order_by-IsOrdered : (xs : List A) → IsOrdered before (order_by before xs)
  unfolding order_by
  order_by-IsOrdered [] = tt
  order_by-IsOrdered (x ∷ xs) = insert_by-IsOrdered x (order_by before xs) (order_by-IsOrdered xs)

-- A page: rows of the table that were asked for, in order, at most `limit` of them; and a row that
-- was asked for and is not on it comes after a full page.
pub record IsPageOf {A : Type 0} (before : A → A → Bool) (asked : A → Bool) (limit : ℕ)
    (rows : List A) (page : List A) : Type 0 where
  pub sound : (m : A) → Memᴰ m page → Memᴰ m rows × (asked m ≡ true)
  pub ordered : IsOrdered before page
  pub bounded : length page ≤ limit
  pub complete :
      (m : A)
      → Memᴰ m rows
      → asked m ≡ true
      → Memᴰ m page ⊎ ((length page ≡ limit) × ((x : A) → Memᴰ x page → before x m ≡ true))

pub page_of-IsPageOf :
    {A : Type 0} (before : A → A → Bool) (asked : A → Bool) (limit : ℕ) (rows : List A)
    → Ranking before
    → IsPageOf before asked limit rows (page_of before asked limit rows)
unfolding page_of
page_of-IsPageOf before asked limit rows ranks =
    let wanted = select asked rows in
    let all = order_by before wanted in
    let up = order_by-IsOrdered before ranks wanted in
    record {
      sound = λ m k. select_sound asked rows (Memᴰ-order_by before wanted (take-Memᴰ limit all k));
      ordered = take-IsOrdered before limit all up;
      bounded = omega (arith, length-take limit all);
      complete = λ m there good.
          Memᴰ-take before limit all up
            (order_by-Memᴰ before wanted (select-Memᴰ asked rows there good));
    }

module _ {ℓ} {A : Type ℓ} (before : A → A → Bool) where
  length-insert_by : (x : A) (ys : List A) → length (insert_by before x ys) ≡ suc (length ys)
  unfolding insert_by
  length-insert_by x [] = refl
  length-insert_by x (y ∷ ys) = elim (Bool-cases (before x y)) [
    | inl t ↦ rw t
    | inr f ↦ rw f (ap suc (length-insert_by x ys))
  ]

  length-order_by : (xs : List A) → length (order_by before xs) ≡ length xs
  unfolding order_by
  length-order_by [] = refl
  length-order_by (x ∷ xs) = length-insert_by x (order_by before xs) ∙ ap suc (length-order_by xs)

-- A page read with one more row than the limit has it if and only if that many rows were asked for.
pub page_of-more :
    {A : Type 0} (before : A → A → Bool) (asked : A → Bool) (limit : ℕ) (rows : List A)
    → (ltb limit (length (page_of before asked (suc limit) rows)) ≡ true)
      ↔ (limit < length (select asked rows))
unfolding page_of
page_of-more before asked limit rows =
    let cut = length-take (suc limit) (order_by before (select asked rows)) in
    let same = length-order_by before (select asked rows) in grind arith

take_all : {A : Type 0} (n : ℕ) (xs : List A) → ¬ (n < length xs) → take n xs ≡ xs
take_all zero [] h = refl
take_all zero (x ∷ xs) h = absurd (h (omega arith))
take_all (suc n) [] h = refl
take_all (suc n) (x ∷ xs) h = ap (λ l. x ∷ l) (take_all n xs (λ k. h (omega arith)))

-- When no more rows than the limit were asked for, the page has them all.
pub page_of-whole :
    {A : Type 0} (before : A → A → Bool) (asked : A → Bool) (limit : ℕ) (rows : List A) {m : A}
    → ¬ (limit < length (select asked rows))
    → Memᴰ m rows
    → asked m ≡ true
    → Memᴰ m (page_of before asked limit rows)
unfolding page_of
page_of-whole before asked limit rows {m = m} few there good =
    let sorted = order_by before (select asked rows) in
    let same = length-order_by before (select asked rows) in
    subst (λ l. Memᴰ m l) (sym (take_all limit sorted (λ h. few (subst (λ n. limit < n) same h))))
      (order_by-Memᴰ before (select asked rows) (select-Memᴰ asked rows there good))
