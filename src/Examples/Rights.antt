-- ===== src/Examples/Rights.antt =====
-- The theorem on the list of effective grants, applied to a participant who acts as itself.
use conversation_blackboard.Common.{◌≡◌, ◌↔◌, refl, true, some, List, []}
use conversation_blackboard.Sql
use conversation_blackboard.Sql.{Result, ok, err}
use conversation_blackboard.Board
use conversation_blackboard.Authorization.Capability.{post_message}
use conversation_blackboard.Authorization.Schema
use conversation_blackboard.Authorization.Implicit
use conversation_blackboard.Authorization.Effective
use conversation_blackboard.Authorization.Effective.{EffectiveGrant, effective_grants, is_allowed}
use conversation_blackboard.Authorization.Listing.{IsCovered, effective_grants-is_allowed}
use conversation_blackboard.Examples.World.{alice_principal, managed_board}

abbrev listed_or_none : Result Sql.DbError (List EffectiveGrant) → List EffectiveGrant
listed_or_none (ok gs) = gs
listed_or_none (err e) = []

abbrev alice_grants : List EffectiveGrant
alice_grants = listed_or_none (effective_grants managed_board 50 alice_principal "alice")

alice_grants-listed : effective_grants managed_board 50 alice_principal "alice" ≡ ok alice_grants
unfolding Effective.effective_grants Effective.listed_grants Effective.implicit_grants
    Effective.explicit_grants Effective.implicit_resource Effective.is_held
    Schema.effective_grants_schema_current Board.table_has_columns Board.columns_of Board.all_in
    Implicit.participant_policy_row Sql.find Sql.exists_row
alice_grants-listed = refl

effective_grants-is_allowed_example :
    (is_allowed managed_board 50 alice_principal "alice" post_message (some "general") ≡ true)
    ↔ IsCovered managed_board 50 alice_principal "alice" alice_grants post_message (some "general")
effective_grants-is_allowed_example =
    effective_grants-is_allowed managed_board 50 alice_principal "alice" alice_grants-listed
      post_message (some "general")
