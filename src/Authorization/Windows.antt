-- ===== src/Authorization/Windows.antt =====
-- How a window over the grants is read: as a page, cut from one row more.
use conversation_blackboard.Common.{
  ℕ, suc, ◌<◌, ◌≡◌, refl, ◌↔◌, Bool, true, Option, List, [], map, length, take, ltb, arith,
  true-false, sym, false, ◌∙◌, Memᴰ,
}
use conversation_blackboard.Common.Int.{ℤ}
use conversation_blackboard.Sql.{select, order_by}
use conversation_blackboard.Sql.Page.{
  IsPageOf, Ranking, page_of, page_of-IsPageOf, page_of-more, page_of-whole, take-take,
}
use conversation_blackboard.Board.{Database}
use conversation_blackboard.Authorization.Window.{
  AuthorizationPolicyStore, durable, delegated, AuthorizationPolicyWindowOrder, desc, asc,
  AuthorizationPolicyWindowRequest, AuthorizationPolicyWindow, DurableGrantSnapshot,
  DelegatedGrantSnapshot, durable_snapshot, delegated_snapshot, is_before, is_in_window, window_of,
  read_durable_grant_window, read_delegated_grant_window,
}

-- A window over the rows of a table, each with its id: a page of them by id, on the cursor's side, and
-- whether there are more rows on that side than the limit.
pub record IsWindowOver {A : Type 0} (id : A → ℕ) (order : AuthorizationPolicyWindowOrder)
    (before after : Option ℤ) (limit : ℕ) (rows grants : List A) (has_more : Bool) : Type 0 where
  pub page :
      IsPageOf
        (λ a b. is_before order (id a) (id b))
        (λ a. is_in_window order before after (id a))
        limit
        rows
        grants
  pub more :
      (has_more ≡ true)
      ↔ (limit < length (select (λ a. is_in_window order before after (id a)) rows))
  pub whole :
      has_more ≡ false
      → (m : A) → Memᴰ m rows
      → is_in_window order before after (id m) ≡ true
      → Memᴰ m grants

-- The page that a request that passed validation gets.
abbrev pub IsWindow :
    Database
    → AuthorizationPolicyWindowRequest
    → AuthorizationPolicyStore × AuthorizationPolicyWindowOrder × ℕ
    → AuthorizationPolicyWindow
    → Type 0
IsWindow db request (durable, order, limit) w =
    IsWindowOver (λ (g : DurableGrantSnapshot). g.id) order request.before request.after limit
      (map durable_snapshot db.principal_grants) w.durable_grants w.has_more
    × (w.delegated_grants ≡ [])
IsWindow db request (delegated, order, limit) w =
    IsWindowOver (λ (g : DelegatedGrantSnapshot). g.id) order request.before request.after limit
      (map delegated_snapshot db.delegated_grants) w.delegated_grants w.has_more
    × (w.durable_grants ≡ [])

is_before-Ranking :
    {A : Type 0} (id : A → ℕ) (order : AuthorizationPolicyWindowOrder)
    → Ranking (λ a b. is_before order (id a) (id b))
is_before-Ranking id desc = record {
  total = λ a b h. ground arith;
  transitive = λ a b c h k. ground arith;
}
is_before-Ranking id asc = record {
  total = λ a b h. ground arith;
  transitive = λ a b c h k. ground arith;
}

cut-IsWindowOver :
    {A : Type 0} (id : A → ℕ) (order : AuthorizationPolicyWindowOrder) (before after : Option ℤ)
    (limit : ℕ) (rows : List A)
    → let fetched =
        page_of
          (λ a b. is_before order (id a) (id b))
          (λ a. is_in_window order before after (id a))
          (suc limit)
          rows in
      IsWindowOver id order before after limit rows
        (take limit fetched)
        (ltb limit (length fetched))
unfolding page_of
cut-IsWindowOver {A = A} id order before after limit rows =
    let first : A → A → Bool = λ a b. is_before order (id a) (id b) in
    let asked : A → Bool = λ a. is_in_window order before after (id a) in
    record {
      page =
          rw (take-take limit (order_by first (select asked rows)))
            (page_of-IsPageOf first asked limit rows (is_before-Ranking id order));
      more = page_of-more first asked limit rows;
      whole = λ no m there good.
          let (more, fewer) = page_of-more first asked limit rows in
          rw (take-take limit (order_by first (select asked rows))) (
            page_of-whole first asked limit rows
              (λ many. absurd (true-false (sym (fewer many) ∙ no))) there good);
    }

pub window_of-IsWindow :
    (db : Database) (request : AuthorizationPolicyWindowRequest)
    (valid : AuthorizationPolicyStore × AuthorizationPolicyWindowOrder × ℕ)
    → IsWindow db request valid (window_of db request valid)
unfolding window_of read_durable_grant_window read_delegated_grant_window
window_of-IsWindow db request (durable, order, limit) =
    (cut-IsWindowOver _ order request.before request.after limit _, refl)
window_of-IsWindow db request (delegated, order, limit) =
    (cut-IsWindowOver _ order request.before request.after limit _, refl)
