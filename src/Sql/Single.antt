-- ===== src/Sql/Single.antt =====
-- An UPDATE of the one row that meets its condition.
use conversation_blackboard.Common.{
  ◌≡◌, refl, ap, ◌∙◌, inl, inr, Bool, true, false, List, [], ◌∷◌, ◌++◌, Memᴰ, Bool-cases, arith,
}
use conversation_blackboard.Sql.{count_rows, update_where}
use conversation_blackboard.Sql.Laws.{count_rows-zero}

update_where-none :
    {A : Type 0} (p : A → Bool) (f : A → A) (xs : List A)
    → ((r : A) → Memᴰ r xs → p r ≡ false)
    → update_where p f xs ≡ xs
unfolding update_where
update_where-none p f [] out = refl
update_where-none p f (x ∷ xs) out =
    rw (out x (Memᴰ.head refl))
      (ap (λ l. x ∷ l) (update_where-none p f xs (λ r m. out r (Memᴰ.tail m))))

-- The table around the one row that `p` holds of, before and after its change.
pub record IsSingle {A : Type 0} (p : A → Bool) (f : A → A) (before after : List A) : Type 0 where
  pub front : List A
  pub row : A
  pub back : List A
  pub before_eq : before ≡ front ++ row ∷ back
  pub after_eq : after ≡ front ++ f row ∷ back
  pub met : p row ≡ true
  pub unmet : (r : A) → Memᴰ r (front ++ back) → p r ≡ false

pub update_where-IsSingle :
    {A : Type 0} (p : A → Bool) (f : A → A) (xs : List A)
    → count_rows p xs ≡ 1
    → IsSingle p f xs (update_where p f xs)
unfolding update_where count_rows
update_where-IsSingle p f [] one = absurd (omega arith)
update_where-IsSingle p f (x ∷ xs) one = elim (Bool-cases (p x)) [
  | inl t ↦
      let count = rw t at one in
      let none_left : count_rows p xs ≡ 0 = omega arith in
      let out : (r : _) → Memᴰ r xs → p r ≡ false = λ r m. count_rows-zero p xs none_left m in
      record {
        front = [];
        row = x;
        back = xs;
        before_eq = refl;
        after_eq = rw t (ap (λ l. f x ∷ l) (update_where-none p f xs out));
        met = t;
        unmet = out;
      }
  | inr g ↦
      let rest = update_where-IsSingle p f xs (rw g at one) in
      record {
        front = x ∷ rest.front;
        row = rest.row;
        back = rest.back;
        before_eq = ap (λ l. x ∷ l) rest.before_eq;
        after_eq = rw g (ap (λ l. x ∷ l) rest.after_eq);
        met = rest.met;
        unmet = λ r m. elim m [ Memᴰ.head e ↦ ap p e ∙ g | Memᴰ.tail n ↦ rest.unmet r n ];
      }
]
