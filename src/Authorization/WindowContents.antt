-- ===== src/Authorization/WindowContents.antt =====
-- What a window over the grants holds, said by ids and cursors.
use conversation_blackboard.Common.{
  ℕ, ◌≤◌, ◌<◌, ◌≡◌, refl, sym, subst, ◌∙◌, ◌⊎◌, ◌↔◌, inl, inr, Bool, true, false, not, Option, none,
  some, List, [], ◌∷◌, map, length, Memᴰ, arith, Bool-cases,
}
use conversation_blackboard.Common.Int.{ℤ, pos, negsuc, leb_ℤ}
use conversation_blackboard.Sql.{ok, select}
use conversation_blackboard.Sql.Laws.{bound_ok}
use conversation_blackboard.Sql.Page.{IsOrdered}
use conversation_blackboard.Board.{Database}
use conversation_blackboard.Authorization.Schema.{authorization_policy_snapshot_schema_current}
use conversation_blackboard.Authorization.Window.{
  AuthorizationPolicyStore, durable, delegated, AuthorizationPolicyWindowOrder, desc, asc,
  AuthorizationPolicyWindowRequest, AuthorizationPolicyWindow, DurableGrantSnapshot,
  DelegatedGrantSnapshot, is_before, is_in_window, validate_policy_window_request, window_of,
  read_authorization_policy_window,
}
use conversation_blackboard.Authorization.WindowTexts.{store_text}
use conversation_blackboard.Authorization.WindowReading.{
  order_text, Asks, validate_policy_window_request-Asks,
}
use conversation_blackboard.Authorization.WindowRows.{shown_durable, shown_delegated}
use conversation_blackboard.Authorization.Windows.{IsWindowOver, window_of-IsWindow}

-- Below the cursor in descending order, above it in ascending order; anywhere if there is none.
abbrev pub is_on_side : AuthorizationPolicyWindowOrder → Option ℤ → Option ℤ → ℕ → Bool
is_on_side desc none after id = true
is_on_side desc (some cursor) after id = not (leb_ℤ cursor (pos id))
is_on_side asc before none id = true
is_on_side asc before (some cursor) id = not (leb_ℤ (pos id) cursor)

abbrev pub Precedes : AuthorizationPolicyWindowOrder → ℕ → ℕ → Type 0
Precedes desc a b = b ≤ a
Precedes asc a b = a ≤ b

-- Each row's id precedes those of the rows that follow.
abbrev pub InOrder : {A : Type 0} → (A → ℕ) → AuthorizationPolicyWindowOrder → List A → Type 0
InOrder id order [] = Unit
InOrder id order (x ∷ xs) =
    ((m : _) → Memᴰ m xs → Precedes order (id x) (id m)) × InOrder id order xs

-- The rows of a table, each with its id, that a window shows.
pub record Shows {A : Type 0} (id : A → ℕ) (order : AuthorizationPolicyWindowOrder)
    (before after : Option ℤ) (limit : ℕ) (rows grants : List A) (has_more : Bool) : Type 0 where
  pub sound : (m : A) → Memᴰ m grants → Memᴰ m rows × (is_on_side order before after (id m) ≡ true)
  pub ordered : InOrder id order grants
  pub bounded : length grants ≤ limit
  pub first :
      (m : A)
      → Memᴰ m rows
      → is_on_side order before after (id m) ≡ true
      → Memᴰ m grants
        ⊎ ((length grants ≡ limit) × ((x : A) → Memᴰ x grants → Precedes order (id x) (id m)))
  pub more :
      (has_more ≡ true) ↔ (limit < length (select (λ a. is_on_side order before after (id a)) rows))
  pub whole :
      has_more ≡ false
      → (m : A) → Memᴰ m rows
      → is_on_side order before after (id m) ≡ true
      → Memᴰ m grants

is_in_window-is_on_side :
    (order : AuthorizationPolicyWindowOrder) (before after : Option ℤ) (id : ℕ)
    → is_in_window order before after id ≡ is_on_side order before after id
is_in_window-is_on_side desc none after id = refl
is_in_window-is_on_side desc (some (pos n)) after id = ground arith
is_in_window-is_on_side desc (some (negsuc n)) after id = refl
is_in_window-is_on_side asc before none id = refl
is_in_window-is_on_side asc before (some (pos n)) id = ground arith
is_in_window-is_on_side asc before (some (negsuc n)) id = refl

is_before-Precedes :
    (order : AuthorizationPolicyWindowOrder) (a b : ℕ)
    → is_before order a b ≡ true
    → Precedes order a b
is_before-Precedes desc a b h = ground arith
is_before-Precedes asc a b h = ground arith

IsOrdered-InOrder :
    {A : Type 0} (id : A → ℕ) (order : AuthorizationPolicyWindowOrder) (xs : List A)
    → IsOrdered (λ a b. is_before order (id a) (id b)) xs
    → InOrder id order xs
IsOrdered-InOrder id order [] o = tt
IsOrdered-InOrder id order (x ∷ xs) (low, rest) =
    (λ m k. is_before-Precedes order (id x) (id m) (low m k), IsOrdered-InOrder id order xs rest)

select-same :
    {A : Type 0} (p q : A → Bool) (xs : List A) → ((x : A) → p x ≡ q x) → select p xs ≡ select q xs
unfolding select
select-same p q [] same = refl
select-same p q (x ∷ xs) same = rw (same x, select-same p q xs same) refl

IsWindowOver-Shows :
    {A : Type 0} (id : A → ℕ) (order : AuthorizationPolicyWindowOrder) (before after : Option ℤ)
    (limit : ℕ) (rows grants : List A) (has_more : Bool)
    → IsWindowOver id order before after limit rows grants has_more
    → Shows id order before after limit rows grants has_more
IsWindowOver-Shows {A = A} id order before after limit rows grants has_more w =
    let side : (m : A)
        → is_in_window order before after (id m) ≡ is_on_side order before after (id m) =
      λ m. is_in_window-is_on_side order before after (id m) in
    record {
      sound = λ m k. let (there, good) = w.page.sound m k in (there, sym (side m) ∙ good);
      ordered = IsOrdered-InOrder id order grants w.page.ordered;
      bounded = w.page.bounded;
      first = λ m there good. elim (w.page.complete m there (side m ∙ good)) [
        | inl on ↦ inl on
        | inr (full, low) ↦ inr (full, λ x k. is_before-Precedes order (id x) (id m) (low x k))
      ];
      more =
          subst (λ l. (has_more ≡ true) ↔ (limit < length l))
            (select-same (λ a. is_in_window order before after (id a))
              (λ a. is_on_side order before after (id a)) rows side)
            w.more;
      whole = λ no m there good. w.whole no m there (side m ∙ good);
    }

-- The window holds what was asked for of the store, and nothing of the other store.
abbrev pub Holds :
    Database
    → AuthorizationPolicyWindowRequest
    → AuthorizationPolicyStore
    → AuthorizationPolicyWindowOrder
    → ℕ
    → AuthorizationPolicyWindow
    → Type 0
Holds db request durable order limit w =
    Shows (λ (g : DurableGrantSnapshot). g.id) order request.before request.after limit
      (map shown_durable db.principal_grants) w.durable_grants w.has_more
    × (w.delegated_grants ≡ [])
Holds db request delegated order limit w =
    Shows (λ (g : DelegatedGrantSnapshot). g.id) order request.before request.after limit
      (map shown_delegated db.delegated_grants) w.delegated_grants w.has_more
    × (w.durable_grants ≡ [])

window_of-Holds :
    (db : Database) (request : AuthorizationPolicyWindowRequest) (store : AuthorizationPolicyStore)
    (order : AuthorizationPolicyWindowOrder) (limit : ℕ)
    → Holds db request store order limit (window_of db request (store, order, limit))
window_of-Holds db request durable order limit =
    let (over, empty) = window_of-IsWindow db request (durable, order, limit) in
    (IsWindowOver-Shows _ order request.before request.after limit _ _ _ over, empty)
window_of-Holds db request delegated order limit =
    let (over, empty) = window_of-IsWindow db request (delegated, order, limit) in
    (IsWindowOver-Shows _ order request.before request.after limit _ _ _ over, empty)

window_of-texts :
    (db : Database) (request : AuthorizationPolicyWindowRequest) (store : AuthorizationPolicyStore)
    (order : AuthorizationPolicyWindowOrder) (limit : ℕ)
    → let w = window_of db request (store, order, limit) in
      (w.store ≡ store_text store) × (w.order ≡ order_text order)
unfolding window_of
window_of-texts db request durable desc limit = (refl, refl)
window_of-texts db request durable asc limit = (refl, refl)
window_of-texts db request delegated desc limit = (refl, refl)
window_of-texts db request delegated asc limit = (refl, refl)

-- A window that is returned names the store and the order that the request asks for ("desc" by
-- default), and holds grants of that store alone: those with ids below the cursor if the order is
-- "desc", above it if it is "asc", in that order of the ids and at most as many as the limit (20 by
-- default), none of those left out being before one that is in; `has_more` says whether more grants
-- than the limit are on that side of the cursor, and all of them are in the window if not.
pub read_authorization_policy_window-Holds :
    (db : Database) (request : AuthorizationPolicyWindowRequest) {w : AuthorizationPolicyWindow}
    → read_authorization_policy_window db request ≡ ok w
    → (store : AuthorizationPolicyStore) × (order : AuthorizationPolicyWindowOrder) × (limit : ℕ)
      × Asks request store order limit
      × ((w.store ≡ store_text store) × (w.order ≡ order_text order))
      × Holds db request store order limit w
unfolding read_authorization_policy_window
read_authorization_policy_window-Holds db request {w = w} h =
    elim (Bool-cases (authorization_policy_snapshot_schema_current db)) [
      | inr f ↦ let stale = rw f at h in cc
      | inl t ↦
          let ((store, order, limit), checked, same) =
            bound_ok (validate_policy_window_request request) (window_of db request) (rw t at h) in
          (
            store,
            order,
            limit,
            validate_policy_window_request-Asks request store order limit checked,
            subst (λ v. (v.store ≡ store_text store) × (v.order ≡ order_text order)) same
                (window_of-texts db request store order limit),
            subst (Holds db request store order limit) same
                (window_of-Holds db request store order limit),
          )
    ]
