-- ===== src/Authorization/Delegated.antt =====
-- Delegated grants: the loop of `evaluate_authorization_current_schema` over the candidate rows,
-- and `consume_delegated_grant_in_tx`.
use conversation_blackboard.Common.{
  ℕ, String, Bool, true, false, not, ◌&&◌, Option, none, some, List, [], ◌∷◌, leb, is_some,
  if◌then◌else◌,
}
use conversation_blackboard.Common.Int.{pos, leb_ℤ}
use conversation_blackboard.Common.Eq.{◌==◌, string_eq, option_eq, nat_eq}
use conversation_blackboard.Sql.{
  Result, ok, err, DbError, invalid_query, select, count_rows, exists_row, order_by, update_where,
}
use conversation_blackboard.Board.{Principal, DelegatedGrant, ReceiptRow, Database, table_exists}
use conversation_blackboard.Authorization.Capability.{AuthorizationDecision, allow, deny}
use conversation_blackboard.Authorization.Implicit.{then_some}

unfoldable pub is_committed_for : String → String → ReceiptRow → Bool
is_committed_for participant_id intent_id r =
    r.participant_id == participant_id && r.intent_id == intent_id && r.status == "committed"

unfoldable pub committed_receipt_exists : Database → String → String → Bool
committed_receipt_exists db participant_id intent_id =
    table_exists db "execution_receipts"
    && exists_row (is_committed_for participant_id intent_id) db.execution_receipts

-- WHERE principal_provider = ?1 AND principal_subject = ?2 AND participant_id = ?3 AND
-- capability = ?4 AND status = 'active'
unfoldable pub delegated_in_scope : Principal → String → String → DelegatedGrant → Bool
delegated_in_scope principal participant_id capability g =
    g.principal_provider == principal.provider
    && g.principal_subject == principal.subject
    && g.participant_id == participant_id
    && g.capability == capability
    && g.status == "active"

-- One column of an ORDER BY: rows where `key` holds come first, and equal keys leave it to `next`.
abbrev pub holds_first : Bool → Bool → Bool → Bool
holds_first true true next = next
holds_first true false next = true
holds_first false true next = false
holds_first false false next = next

-- ORDER BY (intent_id IS NOT NULL) DESC, (resource IS NOT NULL) DESC, one_shot DESC, id ASC
unfoldable pub delegated_before : DelegatedGrant → DelegatedGrant → Bool
delegated_before a b = holds_first (is_some a.intent_id) (is_some b.intent_id) (
    holds_first (is_some a.resource) (is_some b.resource)
      (holds_first a.one_shot b.one_shot (leb a.id b.id)))

unfoldable pub delegated_candidates : Database → Principal → String → String → List DelegatedGrant
delegated_candidates db principal participant_id capability =
    order_by delegated_before
      (select (delegated_in_scope principal participant_id capability) db.delegated_grants)

-- `value.is_some_and(test)`
unfoldable pub is_some_and {ℓ} : {A : Type ℓ} → Option A → (A → Bool) → Bool
is_some_and none test = false
is_some_and (some a) test = test a

-- `let denial = if … else if … else None`
unfoldable pub delegated_denial : ℕ → Option String → String → DelegatedGrant → Option String
delegated_denial now resource intent_id g =
    if is_some_and g.resource (λ value. not (some value == resource))
    then some "delegated_resource_mismatch"
    else if is_some_and g.intent_id (λ value. not (value == intent_id))
    then some "delegated_intent_mismatch"
    else if g.one_shot && is_some g.consumed_at && not (g.consumed_intent_id == some intent_id)
    then some "delegated_consumed_different_intent"
    else if is_some_and g.expires_at (λ value. leb_ℤ value (pos now))
        && not (g.one_shot && g.consumed_intent_id == some intent_id)
    then some "delegated_grant_expired"
    else none

-- The decision on the first candidate that nothing denies.
unfoldable pub decide_match : Database → String → String → DelegatedGrant → AuthorizationDecision
decide_match db participant_id intent_id g =
    if g.one_shot && is_some g.consumed_at
    then (if committed_receipt_exists db participant_id intent_id
        then allow "delegated_grants" "delegated_committed_replay" (some g.id) none
        else deny "delegated_grants" "delegated_consumed_without_committed_receipt" (some g.id))
    else allow "delegated_grants" "delegated_grant_match" (some g.id) (then_some g.one_shot g.id)

-- `first_denial.get_or_insert_with(…)`
abbrev pub get_or_insert {ℓ} : {A : Type ℓ} → Option A → A → A
get_or_insert none a = a
get_or_insert (some b) a = b

module _ (db : Database) (now : ℕ) (participant_id : String) (resource : Option String)
    (intent_id : String) where
  -- The loop; the accumulator is `first_denial`.
  unfoldable pub scan_candidates :
      List DelegatedGrant → Option AuthorizationDecision → Option AuthorizationDecision
  scan_candidates [] first_denial = first_denial
  scan_candidates (g ∷ rest) first_denial = elim (delegated_denial now resource intent_id g) [
    | some reason ↦
        scan_candidates rest
          (some (get_or_insert first_denial (deny "delegated_grants" reason (some g.id))))
    | none ↦ some (decide_match db participant_id intent_id g)
  ]

unfoldable pub is_consumable : ℕ → DelegatedGrant → Bool
is_consumable grant_id g =
    g.id == grant_id && g.status == "active" && g.one_shot && not (is_some g.consumed_at)

unfoldable pub mark_consumed : ℕ → String → DelegatedGrant → DelegatedGrant
mark_consumed now intent_id g = record g {
  consumed_at = some now;
  consumed_intent_id = some intent_id;
  updated_at = now;
}

unfoldable pub consume_delegated_grant_in_tx : ℕ → ℕ → String → Database → Result DbError Database
consume_delegated_grant_in_tx now grant_id intent_id db =
    if count_rows (is_consumable grant_id) db.delegated_grants == 1
    then ok (record db {
      delegated_grants =
          update_where (is_consumable grant_id) (mark_consumed now intent_id) db.delegated_grants;
    })
    else err invalid_query
