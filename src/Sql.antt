-- ===== src/Sql.antt =====
-- The SQL constructs that the statements in src/*.rs are written with, over a table held as the
-- list of its rows in insertion order: WHERE, COUNT(*), EXISTS, ORDER BY, LIMIT, UPDATE, rowids,
-- and the errors of rusqlite that the code itself raises or meets.
pub mod Laws
pub mod Order
pub mod Members
pub mod Exists
pub mod Empty
pub mod Page
pub mod Pieces
pub mod Single
use Prim.Native.Nat.{Ordering}
use Prim.Native.String.{compare}
use conversation_blackboard.Common.{
  ℕ, zero, suc, ◌+◌, String, Bool, true, false, ◌||◌, Option, none, some, List, [], ◌∷◌, map, leb,
  if◌then◌else◌,
}
use conversation_blackboard.Common.Eq.{Eq, ◌==◌}

-- `rusqlite::Error`: InvalidQuery, QueryReturnedNoRows, and a violated PRIMARY KEY.
pub data DbError : Type 0 where
  invalid_query no_rows constraint : DbError

pub data Result {ℓ} (E : Type ℓ) (A : Type ℓ) : Type ℓ where
  ok : A → Result E A
  err : E → Result E A

-- The `?` operator.
infixl 5 ◌>>=◌
abbrev pub ◌>>=◌ {ℓ} : {E A B : Type ℓ} → Result E A → (A → Result E B) → Result E B
ok a >>= f = f a
err e >>= f = err e

module _ {ℓ} {A : Type ℓ} where
  -- WHERE
  unfoldable pub select : (A → Bool) → List A → List A
  select p [] = []
  select p (r ∷ rs) = let rest = select p rs in if p r then r ∷ rest else rest

  -- SELECT COUNT(*) ... WHERE
  unfoldable pub count_rows : (A → Bool) → List A → ℕ
  count_rows p [] = 0
  count_rows p (r ∷ rs) = let rest = count_rows p rs in if p r then suc rest else rest

  -- the first row of a result, `query_row(...).optional()`
  unfoldable pub first : List A → Option A
  first [] = none
  first (r ∷ rs) = some r

  -- SELECT ... WHERE ... LIMIT 1, with no ORDER BY
  unfoldable pub find : (A → Bool) → List A → Option A
  find p [] = none
  find p (r ∷ rs) = let rest = find p rs in if p r then some r else rest

  -- EXISTS(SELECT 1 ... WHERE)
  unfoldable pub exists_row : (A → Bool) → List A → Bool
  exists_row p [] = false
  exists_row p (r ∷ rs) = p r || exists_row p rs

  -- UPDATE ... SET ... WHERE
  unfoldable pub update_where : (A → Bool) → (A → A) → List A → List A
  update_where p f = map (λ r. if p r then f r else r)

  unfoldable pub insert_by : (A → A → Bool) → A → List A → List A
  insert_by before x [] = x ∷ []
  insert_by before x (y ∷ ys) =
      let rest = insert_by before x ys in if before x y then x ∷ y ∷ ys else y ∷ rest

  -- ORDER BY; `before a b` says that `a` may stand in front of `b`
  unfoldable pub order_by : (A → A → Bool) → List A → List A
  unfolding insert_by
  order_by before [] = []
  order_by before (x ∷ xs) = insert_by before x (order_by before xs)

  -- One more than the largest rowid, which is what SQLite gives the next row; no statement of the
  -- program deletes rows from the tables that are numbered so.
  unfoldable pub next_rowid : (A → ℕ) → List A → ℕ
  next_rowid id [] = 1
  next_rowid id (r ∷ rs) =
      let rest = next_rowid id rs in if leb (id r + 1) rest then rest else id r + 1

-- `column = ?` where either side may be NULL: NULL equals nothing.
abbrev pub sql_eq {ℓ} : {A : Type ℓ} ⦃e : Eq A⦄ → Option A → Option A → Bool
sql_eq none b = false
sql_eq (some a) none = false
sql_eq (some a) (some b) = a == b

-- The order of texts in a column, by code points; NULL comes first.
abbrev pub text_leb : String → String → Bool
text_leb a b = elim (compare a b) [ Ordering.gt ↦ false | _ ↦ true ]

abbrev pub optional_text_leb : Option String → Option String → Bool
optional_text_leb none b = true
optional_text_leb (some a) none = false
optional_text_leb (some a) (some b) = text_leb a b
