-- ===== src/Authorization/Snapshots.antt =====
-- The snapshot of the grants holds all of them.
use conversation_blackboard.Common.{
  ◌<◌, ◌+◌, ◌≡◌, refl, inl, inr, Bool, true, Option, none, some, List, [], ◌∷◌, map, length,
  Bool-cases, arith,
}
use conversation_blackboard.Common.Int.{ℤ}
use conversation_blackboard.Sql.{ok, select}
use conversation_blackboard.Board.{Database}
use conversation_blackboard.Authorization.Schema.{authorization_policy_snapshot_schema_current}
use conversation_blackboard.Authorization.Window.{
  AuthorizationPolicyStore, durable, delegated, asc, DurableGrantSnapshot, DelegatedGrantSnapshot,
  durable_snapshot, delegated_snapshot, store_as_str, parse_store, parse_order,
  validate_policy_window_request, window_of, read_authorization_policy_window,
}
use conversation_blackboard.Authorization.WindowRows.{shown_durable, shown_delegated}
use conversation_blackboard.Authorization.Windows.{window_of-IsWindow}
use conversation_blackboard.Authorization.WindowRequests.{IsCursor, are_cursors_invalid-asc}
use conversation_blackboard.Authorization.Snapshot.{
  AuthorizationPolicySnapshot, turn_request, read_durable_turn, read_delegated_turn,
  read_durable_grants, read_delegated_grants, read_authorization_policy_snapshot,
}
use conversation_blackboard.Authorization.Paging.{
  IsAllAfter, IsKeyed, ReadsWindows, collect_windows-ReadsAllAfter,
}

length-select-map :
    {A B : Type 0} (p : B → Bool) (f : A → B) (xs : List A)
    → length (select p (map f xs)) < length xs + 1
unfolding select
length-select-map p f [] = omega arith
length-select-map p f (x ∷ xs) =
    let rest = length-select-map p f xs in
    elim (Bool-cases (p (f x))) [
      | inl t ↦ rw t (omega (arith, rest))
      | inr g ↦ rw g (omega (arith, rest))
    ]

abbrev pub durable_rows : Database → List DurableGrantSnapshot
durable_rows db = map shown_durable db.principal_grants

abbrev pub delegated_rows : Database → List DelegatedGrantSnapshot
delegated_rows db = map shown_delegated db.delegated_grants

-- All grants of both stores and no others, in ascending order of their ids.
pub record IsSnapshot (db : Database) (snapshot : AuthorizationPolicySnapshot) : Type 0 where
  pub durable :
      IsAllAfter (λ (g : DurableGrantSnapshot). g.id) none (durable_rows db) snapshot.durable_grants
  pub delegated :
      IsAllAfter
        (λ (g : DelegatedGrantSnapshot). g.id)
        none
        (delegated_rows db)
        snapshot.delegated_grants

turn-valid :
    (store : AuthorizationPolicyStore) (after : Option ℤ)
    → IsCursor after
    → validate_policy_window_request (turn_request (store_as_str store) after)
      ≡ ok (store, asc, 200)
unfolding validate_policy_window_request parse_store parse_order
turn-valid durable after c = rw ((are_cursors_invalid-asc none after).1 (refl, c))
turn-valid delegated after c = rw ((are_cursors_invalid-asc none after).1 (refl, c))

module _ (db : Database) (current : authorization_policy_snapshot_schema_current db ≡ true) where
  read_durable_turn-ReadsWindows :
      ReadsWindows (λ (g : DurableGrantSnapshot). g.id) (durable_rows db) (read_durable_turn db)
  unfolding read_durable_turn read_authorization_policy_window
  read_durable_turn-ReadsWindows after c =
      let request = turn_request "durable" after in
      let w = window_of db request (durable, asc, 200) in
      (
        w.durable_grants,
        w.has_more,
        rw (current, turn-valid durable after c),
        (window_of-IsWindow db request (durable, asc, 200)).0,
      )

  read_delegated_turn-ReadsWindows :
      ReadsWindows
        (λ (g : DelegatedGrantSnapshot). g.id)
        (delegated_rows db)
        (read_delegated_turn db)
  unfolding read_delegated_turn read_authorization_policy_window
  read_delegated_turn-ReadsWindows after c =
      let request = turn_request "delegated" after in
      let w = window_of db request (delegated, asc, 200) in
      (
        w.delegated_grants,
        w.has_more,
        rw (current, turn-valid delegated after c),
        (window_of-IsWindow db request (delegated, asc, 200)).0,
      )

-- If the tables of grants have their columns, and in each of them ids are positive and belong to one
-- row, then the loops of the snapshot end within one turn more than there are rows, and the snapshot
-- has all grants of both stores and no others, in ascending order of their ids.
pub read_authorization_policy_snapshot-IsSnapshot :
    (db : Database)
    → authorization_policy_snapshot_schema_current db ≡ true
    → IsKeyed (λ (g : DurableGrantSnapshot). g.id) (durable_rows db)
    → IsKeyed (λ (g : DelegatedGrantSnapshot). g.id) (delegated_rows db)
    → (snapshot : AuthorizationPolicySnapshot) × (read_authorization_policy_snapshot db
        ≡ some (ok snapshot))
      × IsSnapshot db snapshot
unfolding read_authorization_policy_snapshot read_durable_grants read_delegated_grants
read_authorization_policy_snapshot-IsSnapshot db current keyed keyed' =
    let (gs, durables, all) =
      collect_windows-ReadsAllAfter (λ (g : DurableGrantSnapshot). g.id) (durable_rows db) keyed
        (read_durable_turn db) (read_durable_turn-ReadsWindows db current)
        (length db.principal_grants + 1) none (inl refl)
        (length-select-map _ durable_snapshot db.principal_grants) in
    let (ds, delegateds, all') =
      collect_windows-ReadsAllAfter (λ (g : DelegatedGrantSnapshot). g.id) (delegated_rows db)
        keyed' (read_delegated_turn db) (read_delegated_turn-ReadsWindows db current)
        (length db.delegated_grants + 1) none (inl refl)
        (length-select-map _ delegated_snapshot db.delegated_grants) in
    (
      record { durable_grants = gs; delegated_grants = ds },
      rw (read_durable_grants, read_delegated_grants, current, durables, delegateds),
      record { durable = all; delegated = all' },
    )
