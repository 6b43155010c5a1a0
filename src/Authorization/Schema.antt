-- ===== src/Authorization/Schema.antt =====
-- Which tables and columns each entry point of authorization.rs demands or creates.
use conversation_blackboard.Common.{String, Bool, ◌&&◌, List, [], ◌∷◌}
use conversation_blackboard.Board.{Database, table_has_columns, create_table}

abbrev scope_columns : List String → List String
scope_columns rest =
    "id" ∷ "principal_provider" ∷ "principal_subject" ∷ "participant_id" ∷ "capability" ∷ "resource"
    ∷ rest

abbrev delegated_columns : List String → List String
delegated_columns rest = scope_columns (
    "intent_id" ∷ "expires_at" ∷ "one_shot" ∷ "consumed_at" ∷ "consumed_intent_id" ∷ "status"
    ∷ rest)

abbrev policy_row_columns : List String
policy_row_columns = "participant_id" ∷ "status" ∷ "role" ∷ "owner_provider" ∷ "owner_subject" ∷ []

unfoldable pub ensure_grant_schema : Database → Database
ensure_grant_schema db =
    create_table "delegated_grants" (delegated_columns ("created_at" ∷ "updated_at" ∷ [])) (
      create_table "principal_grants" (scope_columns ("status" ∷ "created_at" ∷ "updated_at" ∷ []))
        db)

unfoldable pub authorization_policy_snapshot_schema_current : Database → Bool
authorization_policy_snapshot_schema_current db =
    table_has_columns db "principal_grants"
      (scope_columns ("status" ∷ "created_at" ∷ "updated_at" ∷ []))
    && table_has_columns db "delegated_grants" (delegated_columns [])

unfoldable pub authorization_integrity_schema_current : Database → Bool
authorization_integrity_schema_current db =
    table_has_columns db "principal_grants" (scope_columns ("status" ∷ []))
    && table_has_columns db "delegated_grants" (delegated_columns [])
    && table_has_columns db "web_participants" ("participant_id" ∷ "status" ∷ [])
    && table_has_columns db "execution_receipts" ("participant_id" ∷ "intent_id" ∷ "status" ∷ [])

unfoldable pub authorization_decision_schema_current : Database → Bool
authorization_decision_schema_current db =
    table_has_columns db "principal_grants" (scope_columns ("status" ∷ []))
    && table_has_columns db "delegated_grants" (delegated_columns [])
    && table_has_columns db "web_participants" policy_row_columns
    && table_has_columns db "execution_receipts" ("participant_id" ∷ "intent_id" ∷ "status" ∷ [])

unfoldable pub effective_grants_schema_current : Database → Bool
effective_grants_schema_current db =
    table_has_columns db "principal_grants" (scope_columns ("status" ∷ []))
    && table_has_columns db "web_participants" policy_row_columns
