-- ===== src/Examples/Administering.antt =====
-- The theorems on the administration of grants and on texts, applied to a managed board.
use conversation_blackboard.Common.{ℕ, ◌≡◌, ◌≢◌, ◌↔◌, ◌⊎◌, refl, Memᴰ, Option, none, some, [], ◌∷◌}
use conversation_blackboard.Common.Int.{pos}
use conversation_blackboard.Sql
use conversation_blackboard.Sql.{Result, ok, err}
use conversation_blackboard.Board
use conversation_blackboard.Board.{Database, DurableGrant}
use conversation_blackboard.Transaction
use conversation_blackboard.Text
use conversation_blackboard.Text.Laws.{IsNormalized, normalize-IsNormalized}
use conversation_blackboard.Authorization.Capability
use conversation_blackboard.Authorization.Schema
use conversation_blackboard.Authorization.Implicit
use conversation_blackboard.Authorization.Evaluate
use conversation_blackboard.Administration.Types.{
  AdministrationError, authorization_denied, DurableGrantCreateOutcome, created, existing,
}
use conversation_blackboard.Administration.Requests
use conversation_blackboard.Administration.Grants
use conversation_blackboard.Administration.Operations
use conversation_blackboard.Administration.Granting.{
  create_durable_grant_in_tx-create_durable_grant_in_tx,
}
use conversation_blackboard.Administration.Revocation.{
  IsRevoked, deactivate_durable_grant_in_tx-IsRevoked,
}
use conversation_blackboard.Examples.World.{
  alice_principal, root_principal, managed_board, read_grant, root_actor,
}

abbrev granted : Database × Result AdministrationError DurableGrantCreateOutcome
granted =
    Operations.create_durable_grant_authorized 50 " http " root_principal "root" read_grant
      managed_board

abbrev refused : Database × Result AdministrationError DurableGrantCreateOutcome
refused =
    Operations.create_durable_grant_authorized 50 "http" alice_principal "alice" read_grant
      managed_board

abbrev placed : Database × DurableGrantCreateOutcome
placed = Grants.place_durable_grant 50 root_actor read_grant [] managed_board

abbrev revoked : Database × Option ℕ
revoked = (
  Grants.record_deactivations 60 root_actor (Grants.durable_scope read_grant)
      (Grants.durable_row 1 50 read_grant ∷ [])
      (record placed.0 {
        principal_grants =
            record (Grants.durable_row 1 50 read_grant) { status = "inactive"; updated_at = 60 }
            ∷ [];
      }),
  some 1,
)

-- The administrator grants, an agent may not; the grant can be revoked.
runs :
    (granted.1 ≡ ok (record { id = 1; state = created }))
    × (refused.1 ≡ err authorization_denied)
    × (Grants.create_durable_grant_in_tx 50 root_actor read_grant managed_board ≡ ok placed)
    × (Grants.deactivate_durable_grant_in_tx 60 root_actor (pos 1) placed.0 ≡ ok revoked)
    × (Text.normalize 64 " http " ≡ some "http")
unfolding Transaction.in_tx Board.table_exists Board.columns_of Board.all_in Board.table_has_columns
    Evaluate.evaluate_authorization_current_schema Evaluate.evaluate_active Evaluate.explicit_count
    Evaluate.explicit_match Evaluate.delegated_or_denied Evaluate.durable_in_scope
    Evaluate.durable_covers Evaluate.durable_before Evaluate.explain_authorization
    Implicit.participant_policy_row Implicit.is_participation_capability
    Implicit.is_self_authenticated Implicit.is_github_owner Implicit.is_web_admin
    Implicit.self_authority_reason Implicit.implicit_authority_reason Capability.allow
    Capability.deny Capability.is_known_capability Sql.select Sql.count_rows Sql.first Sql.find
    Sql.exists_row Sql.update_where Sql.insert_by Sql.order_by Sql.next_rowid
    Schema.authorization_policy_snapshot_schema_current Schema.authorization_decision_schema_current
    Text.is_whitespace Text.is_control Text.any_char Text.trim_start Text.trim_end Text.trim
    Text.is_acceptable Text.normalize Text.normalize_intent_id Text.is_participant_id
    Text.validate_participant_id Requests.normalize_actor
    Requests.normalize_durable_grant_create_request Grants.require_active_participant
    Grants.record_event Grants.is_same_grant Grants.reactivate_durable_grant
    Grants.insert_durable_grant Grants.place_durable_grant Grants.create_durable_grant_in_tx
    Grants.record_deactivations Grants.deactivate_scope Grants.deactivate_durable_grant_in_tx
    Operations.schema_current Operations.committed Operations.authorized Operations.prepared
    Operations.create_durable_grant_authorized
runs = (refl, refl, refl, refl, refl)

create_durable_grant_in_tx-create_durable_grant_in_tx_example :
    (id : ℕ) × (Grants.create_durable_grant_in_tx 70 root_actor read_grant placed.0
      ≡ ok (placed.0, record { id = id; state = existing }))
create_durable_grant_in_tx-create_durable_grant_in_tx_example =
    create_durable_grant_in_tx-create_durable_grant_in_tx 50 root_actor read_grant managed_board
      runs.2 70 root_actor

deactivate_durable_grant_in_tx-IsRevoked_example :
    ((revoked.1 ≡ none)
      × (revoked.0 ≡ placed.0)
      × ((g : DurableGrant) → Memᴰ g placed.0.principal_grants → pos g.id ≢ pos 1))
    ⊎ ((g : DurableGrant) × (n : ℕ) × (revoked.1 ≡ some n)
        × Memᴰ g placed.0.principal_grants
        × (pos g.id ≡ pos 1)
        × IsRevoked 60 root_actor g n placed.0 revoked.0)
deactivate_durable_grant_in_tx-IsRevoked_example =
    deactivate_durable_grant_in_tx-IsRevoked 60 root_actor (pos 1) placed.0 runs.3

normalize-IsNormalized_example :
    (Text.normalize 64 " http " ≡ some "http") ↔ IsNormalized 64 " http " "http"
normalize-IsNormalized_example = normalize-IsNormalized 64 " http " "http"
