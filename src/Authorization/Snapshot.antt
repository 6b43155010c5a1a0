-- ===== src/Authorization/Snapshot.antt =====
-- `read_authorization_policy_snapshot` of authorization.rs: all grants, read through windows.
use conversation_blackboard.Common.{
  ℕ, zero, suc, String, Bool, Option, none, some, List, [], ◌∷◌, ◌++◌, length, ◌+◌, not,
  if◌then◌else◌,
}
use conversation_blackboard.Common.Int.{ℤ, pos}
use conversation_blackboard.Sql.{DbError, invalid_query, Result, ok, err, ◌>>=◌}
use conversation_blackboard.Board.{Database}
use conversation_blackboard.Authorization.Schema.{authorization_policy_snapshot_schema_current}
use conversation_blackboard.Authorization.Window.{
  DurableGrantSnapshot, DelegatedGrantSnapshot, AuthorizationPolicyWindowRequest,
  read_authorization_policy_window, max_authorization_policy_window_size,
}

pub record AuthorizationPolicySnapshot : Type 0 where
  pub durable_grants : List DurableGrantSnapshot
  pub delegated_grants : List DelegatedGrantSnapshot

-- The request of each turn of a loop.
abbrev pub turn_request : String → Option ℤ → AuthorizationPolicyWindowRequest
turn_request store after = record {
  store = store;
  before = none;
  after = after;
  limit = some max_authorization_policy_window_size;
  order = some "asc";
}

-- `last().map(|grant| grant.id)`
abbrev pub last_id {ℓ} : {A : Type ℓ} → (A → ℕ) → List A → Option ℤ
last_id id [] = none
last_id id (x ∷ []) = some (pos (id x))
last_id id (x ∷ y ∷ ys) = last_id id (y ∷ ys)

abbrev prepend :
    {A : Type 0} → List A → Option (Result DbError (List A)) → Option (Result DbError (List A))
prepend grants none = none
prepend grants (some (err e)) = some (err e)
prepend grants (some (ok rest)) = some (ok (grants ++ rest))

-- A loop on fuel, over the reads of windows; `none` when the fuel is used up.
unfoldable pub collect_windows :
    {A : Type 0}
    → (A → ℕ)
    → (Option ℤ → Result DbError (List A × Bool))
    → ℕ
    → Option ℤ
    → Option (Result DbError (List A))
collect_windows id read zero after = none
collect_windows id read (suc n) after = elim (read after) [
  | err e ↦ some (err e)
  | ok (grants, has_more) ↦
      let rest = collect_windows id read n (last_id id grants) in
      if has_more then prepend grants rest else some (ok grants)
]

unfoldable pub read_durable_turn :
    Database → Option ℤ → Result DbError (List DurableGrantSnapshot × Bool)
read_durable_turn db after =
    read_authorization_policy_window db (turn_request "durable" after) >>= λ w.
    ok (w.durable_grants, w.has_more)

unfoldable pub read_delegated_turn :
    Database → Option ℤ → Result DbError (List DelegatedGrantSnapshot × Bool)
read_delegated_turn db after =
    read_authorization_policy_window db (turn_request "delegated" after) >>= λ w.
    ok (w.delegated_grants, w.has_more)

unfoldable pub read_durable_grants : Database → Option (Result DbError (List DurableGrantSnapshot))
read_durable_grants db =
    collect_windows (λ g. g.id) (read_durable_turn db) (length db.principal_grants + 1) none

unfoldable pub read_delegated_grants :
    Database → Option (Result DbError (List DelegatedGrantSnapshot))
read_delegated_grants db =
    collect_windows (λ g. g.id) (read_delegated_turn db) (length db.delegated_grants + 1) none

abbrev both :
    Option (Result DbError (List DurableGrantSnapshot))
    → Option (Result DbError (List DelegatedGrantSnapshot))
    → Option (Result DbError AuthorizationPolicySnapshot)
both none ds = none
both (some (err e)) ds = some (err e)
both (some (ok gs)) none = none
both (some (ok gs)) (some (err e)) = some (err e)
both (some (ok gs)) (some (ok ds)) =
    some (ok (record { durable_grants = gs; delegated_grants = ds }))

unfoldable pub read_authorization_policy_snapshot :
    Database → Option (Result DbError AuthorizationPolicySnapshot)
read_authorization_policy_snapshot db =
    if not (authorization_policy_snapshot_schema_current db)
    then some (err invalid_query)
    else both (read_durable_grants db) (read_delegated_grants db)
