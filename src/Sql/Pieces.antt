-- ===== src/Sql/Pieces.antt =====
-- A table read in pieces: joining two of them, and what is left after one.
use conversation_blackboard.Common.{
  ◌≤◌, ◌<◌, ◌≡◌, refl, sym, ap, ◌∙◌, ◌⊎◌, inl, inr, Bool, true, false, List, [], ◌∷◌, ◌++◌, length,
  Memᴰ, Bool-cases, arith,
}
use conversation_blackboard.Sql.{select}
use conversation_blackboard.Sql.Page.{IsOrdered}

pub Memᴰ-append : {A : Type 0} (xs ys : List A) {m : A} → Memᴰ m (xs ++ ys) → Memᴰ m xs ⊎ Memᴰ m ys
Memᴰ-append [] ys m = inr m
Memᴰ-append (x ∷ xs) ys (Memᴰ.head e) = inl (Memᴰ.head e)
Memᴰ-append (x ∷ xs) ys (Memᴰ.tail m) = elim (Memᴰ-append xs ys m) [
  | inl k ↦ inl (Memᴰ.tail k)
  | inr k ↦ inr k
]

pub Memᴰ-append_right : {A : Type 0} (xs ys : List A) {m : A} → Memᴰ m ys → Memᴰ m (xs ++ ys)
Memᴰ-append_right [] ys m = m
Memᴰ-append_right (x ∷ xs) ys m = Memᴰ.tail (Memᴰ-append_right xs ys m)

pub append-IsOrdered :
    {A : Type 0} (before : A → A → Bool) (xs ys : List A)
    → IsOrdered before xs
    → IsOrdered before ys
    → ((x y : A) → Memᴰ x xs → Memᴰ y ys → before x y ≡ true)
    → IsOrdered before (xs ++ ys)
append-IsOrdered before [] ys o p h = p
append-IsOrdered before (x ∷ xs) ys (low, rest) p h = (
  λ m k. elim (Memᴰ-append xs ys k) [ inl i ↦ low m i | inr i ↦ h x m (Memᴰ.head refl) i ],
  append-IsOrdered before xs ys rest p (λ a b i j. h a b (Memᴰ.tail i) j),
)

wider-select :
    {A : Type 0} (p q : A → Bool) (xs : List A)
    → ((x : A) → q x ≡ true → p x ≡ true)
    → length (select q xs) ≤ length (select p xs)
unfolding select
wider-select p q [] within = omega arith
wider-select p q (x ∷ xs) within =
    let rest = wider-select p q xs within in
    elim (Bool-cases (q x)) [
      | inl t ↦ rw (t, within x t) (omega (arith, rest))
      | inr f ↦ elim (Bool-cases (p x)) [
        | inl t ↦ rw (f, t) (omega (arith, rest))
        | inr g ↦ rw (f, g) rest
      ]
    ]

-- A narrower condition, which a row that was selected does not meet, selects fewer rows.
pub narrower-select :
    {A : Type 0} (p q : A → Bool) (xs : List A) {m : A}
    → ((x : A) → q x ≡ true → p x ≡ true)
    → Memᴰ m xs
    → p m ≡ true
    → q m ≡ false
    → length (select q xs) < length (select p xs)
unfolding select
narrower-select p q [] within there met unmet = elim there [ ]
narrower-select p q (x ∷ xs) within (Memᴰ.head e) met unmet =
    let rest = wider-select p q xs within in
    rw (sym (ap p e) ∙ met, sym (ap q e) ∙ unmet) (omega (arith, rest))
narrower-select p q (x ∷ xs) within (Memᴰ.tail k) met unmet =
    let rest = narrower-select p q xs within k met unmet in
    elim (Bool-cases (q x)) [
      | inl t ↦ rw (t, within x t) (omega (arith, rest))
      | inr f ↦ elim (Bool-cases (p x)) [
        | inl t ↦ rw (f, t) (omega (arith, rest))
        | inr g ↦ rw (f, g) rest
      ]
    ]
