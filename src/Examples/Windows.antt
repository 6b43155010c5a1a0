-- ===== src/Examples/Windows.antt =====
-- The theorems on windows over the grants, applied to a board with three delegated grants.
use conversation_blackboard.Common.{
  ◌≡◌, ◌↔◌, ◌∙◌, sym, ℕ, ◌≤◌, ap, arith, Memᴰ, refl, true, none, some, [], ◌∷◌,
}
use conversation_blackboard.Common.Int.{pos}
use conversation_blackboard.Sql
use conversation_blackboard.Sql.{ok}
use conversation_blackboard.Board
use conversation_blackboard.Board.{Database}
use conversation_blackboard.Authorization.Schema
use conversation_blackboard.Authorization.Schema.{authorization_policy_snapshot_schema_current}
use conversation_blackboard.Authorization.Window
use conversation_blackboard.Authorization.Window.{
  AuthorizationPolicyStore, AuthorizationPolicyWindowOrder, AuthorizationPolicyWindow,
  AuthorizationPolicyWindowRequest, read_authorization_policy_window,
  validate_policy_window_request, delegated, asc, window_of,
}
use conversation_blackboard.Authorization.WindowTexts.{store_text}
use conversation_blackboard.Authorization.WindowReading.{Asks, order_text}
use conversation_blackboard.Authorization.WindowContents.{
  Holds, read_authorization_policy_window-Holds,
}
use conversation_blackboard.Authorization.WindowRequests.{
  IsValidRequest, read_authorization_policy_window-IsValidRequest,
}
use conversation_blackboard.Authorization.Snapshot.{
  AuthorizationPolicySnapshot, read_authorization_policy_snapshot,
}
use conversation_blackboard.Authorization.Paging.{IsKeyed}
use conversation_blackboard.Authorization.Snapshots.{
  IsSnapshot, read_authorization_policy_snapshot-IsSnapshot,
}
use conversation_blackboard.Examples.World.{managed_board, one_shot_grant}

abbrev granted_board : Database
granted_board = record managed_board {
  delegated_grants =
      record one_shot_grant { id = 3 } ∷ one_shot_grant ∷ record one_shot_grant { id = 2 } ∷ [];
}

-- The grant after the first, in ascending order.
abbrev second_grant : AuthorizationPolicyWindowRequest
second_grant = record {
  store = "delegated";
  before = none;
  after = some (pos 1);
  limit = some 1;
  order = some "asc";
}

abbrev second_window : AuthorizationPolicyWindow
second_window = window_of granted_board second_grant (delegated, asc, 1)

second_window-read : read_authorization_policy_window granted_board second_grant ≡ ok second_window
unfolding Window.read_authorization_policy_window Window.validate_policy_window_request
    Window.parse_store Window.parse_order Window.are_cursors_invalid Window.is_not_positive
    Schema.authorization_policy_snapshot_schema_current Board.table_has_columns Board.columns_of
    Board.all_in Sql.exists_row
second_window-read = refl

read_authorization_policy_window-Holds_example :
    (store : AuthorizationPolicyStore) × (order : AuthorizationPolicyWindowOrder) × (limit : ℕ)
    × Asks second_grant store order limit
    × ((second_window.store ≡ store_text store) × (second_window.order ≡ order_text order))
    × Holds granted_board second_grant store order limit second_window
read_authorization_policy_window-Holds_example =
    read_authorization_policy_window-Holds granted_board second_grant second_window-read

read_authorization_policy_window-IsValidRequest_example :
    ((w : AuthorizationPolicyWindow) × (read_authorization_policy_window granted_board second_grant
        ≡ ok w))
    ↔ ((authorization_policy_snapshot_schema_current granted_board ≡ true)
        × IsValidRequest second_grant)
read_authorization_policy_window-IsValidRequest_example =
    read_authorization_policy_window-IsValidRequest granted_board second_grant

nil-IsKeyed : {A : Type 0} (id : A → ℕ) → IsKeyed id []
nil-IsKeyed id = record { positive = λ m k. elim k [ ]; unique = λ a b k. elim k [ ] }

one-IsKeyed : {A : Type 0} (id : A → ℕ) (x : A) → 1 ≤ id x → IsKeyed id (x ∷ [])
one-IsKeyed id x h = record {
  positive =
      λ m k. elim k [ Memᴰ.head e ↦ let same = ap id e in omega arith | Memᴰ.tail i ↦ elim i [ ] ];
  unique = λ a b k j same. elim k [
    | Memᴰ.head e ↦ elim j [ Memᴰ.head d ↦ e ∙ sym d | Memᴰ.tail i ↦ elim i [ ] ]
    | Memᴰ.tail i ↦ elim i [ ]
  ];
}

managed_board-current : authorization_policy_snapshot_schema_current managed_board ≡ true
unfolding Schema.authorization_policy_snapshot_schema_current Board.table_has_columns
    Board.columns_of Board.all_in Sql.exists_row
managed_board-current = refl

read_authorization_policy_snapshot-IsSnapshot_example :
    (snapshot : AuthorizationPolicySnapshot) × (read_authorization_policy_snapshot managed_board
      ≡ some (ok snapshot))
    × IsSnapshot managed_board snapshot
read_authorization_policy_snapshot-IsSnapshot_example =
    read_authorization_policy_snapshot-IsSnapshot managed_board managed_board-current
      (nil-IsKeyed (λ g. g.id)) (one-IsKeyed (λ g. g.id) _ (omega arith))
