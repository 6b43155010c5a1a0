-- ===== src/Authorization/Window.antt =====
-- `read_authorization_policy_window` of authorization.rs: a window over the durable or the delegated
-- grants, by id.
use conversation_blackboard.Common.{
  ℕ, suc, String, Bool, true, false, not, ◌&&◌, ◌||◌, Option, none, some, List, [], map, length,
  take, ltb, leb, is_some, if◌then◌else◌,
}
use conversation_blackboard.Common.Eq.{◌==◌, string_eq}
use conversation_blackboard.Common.Int.{ℤ, pos, ltb_ℤ, leb_ℤ}
use conversation_blackboard.Sql.{DbError, invalid_query, Result, ok, err, ◌>>=◌}
use conversation_blackboard.Sql.Page.{page_of}
use conversation_blackboard.Board.{DurableGrant, DelegatedGrant, Database}
use conversation_blackboard.Authorization.Schema.{authorization_policy_snapshot_schema_current}

pub record DurableGrantSnapshot : Type 0 where
  pub id : ℕ
  pub principal_provider : String
  pub principal_subject : String
  pub participant_id : String
  pub capability : String
  pub resource : Option String
  pub status : String
  pub created_at : ℕ
  pub updated_at : ℕ

pub record DelegatedGrantSnapshot : Type 0 where
  pub id : ℕ
  pub principal_provider : String
  pub principal_subject : String
  pub participant_id : String
  pub capability : String
  pub resource : Option String
  pub intent_id : Option String
  pub expires_at : Option ℤ
  pub one_shot : Bool
  pub consumed_at : Option ℕ
  pub consumed_intent_id : Option String
  pub status : String

abbrev pub default_authorization_policy_window_size : ℕ
default_authorization_policy_window_size = 20

abbrev pub max_authorization_policy_window_size : ℕ
max_authorization_policy_window_size = 200

pub data AuthorizationPolicyStore : Type 0 where
  durable delegated : AuthorizationPolicyStore

unfoldable pub parse_store : String → Option AuthorizationPolicyStore
parse_store value =
    if value == "durable"
    then some durable
    else if value == "delegated"
    then some delegated
    else none

abbrev pub store_as_str : AuthorizationPolicyStore → String
store_as_str durable = "durable"
store_as_str delegated = "delegated"

pub data AuthorizationPolicyWindowOrder : Type 0 where
  desc asc : AuthorizationPolicyWindowOrder

unfoldable pub parse_order : Option String → Option AuthorizationPolicyWindowOrder
parse_order none = some desc
parse_order (some value) =
    if value == "desc" then some desc else if value == "asc" then some asc else none

abbrev pub order_as_str : AuthorizationPolicyWindowOrder → String
order_as_str desc = "desc"
order_as_str asc = "asc"

pub record AuthorizationPolicyWindowRequest : Type 0 where
  pub store : String
  pub before : Option ℤ
  pub after : Option ℤ
  pub limit : Option ℕ
  pub order : Option String

pub record AuthorizationPolicyWindow : Type 0 where
  pub store : String
  pub durable_grants : List DurableGrantSnapshot
  pub delegated_grants : List DelegatedGrantSnapshot
  pub order : String
  pub has_more : Bool

-- `is_some_and(|value| value <= 0)`
unfoldable pub is_not_positive : Option ℤ → Bool
is_not_positive none = false
is_not_positive (some value) = leb_ℤ value (pos 0)

-- The cursors that validation rejects, its five tests with the order's own two computed.
unfoldable pub are_cursors_invalid : AuthorizationPolicyWindowOrder → Option ℤ → Option ℤ → Bool
are_cursors_invalid desc before after =
    is_not_positive before
    || is_not_positive after
    || (is_some before && is_some after)
    || is_some after
are_cursors_invalid asc before after =
    is_not_positive before
    || is_not_positive after
    || (is_some before && is_some after)
    || is_some before

-- `unwrap_or`
abbrev pub limit_or_default : Option ℕ → ℕ
limit_or_default none = default_authorization_policy_window_size
limit_or_default (some limit) = limit

-- `(1..=MAX_AUTHORIZATION_POLICY_WINDOW_SIZE).contains`
abbrev pub is_window_size : ℕ → Bool
is_window_size limit = leb 1 limit && leb limit max_authorization_policy_window_size

abbrev or_invalid : {A : Type 0} → Option A → Result DbError A
or_invalid none = err invalid_query
or_invalid (some a) = ok a

unfoldable pub validate_policy_window_request :
    AuthorizationPolicyWindowRequest
    → Result DbError (AuthorizationPolicyStore × AuthorizationPolicyWindowOrder × ℕ)
validate_policy_window_request request = or_invalid (parse_store request.store) >>= λ store.
    or_invalid (parse_order request.order) >>= λ order.
    if are_cursors_invalid order request.before request.after
    then err invalid_query
    else if not (is_window_size (limit_or_default request.limit))
    then err invalid_query
    else ok (store, order, limit_or_default request.limit)

-- The WHERE of the statements: no cursor, no condition.
abbrev pub is_in_window : AuthorizationPolicyWindowOrder → Option ℤ → Option ℤ → ℕ → Bool
is_in_window desc (some cursor) after id = ltb_ℤ (pos id) cursor
is_in_window desc none after id = true
is_in_window asc before (some cursor) id = ltb_ℤ cursor (pos id)
is_in_window asc before none id = true

-- Their ORDER BY.
abbrev pub is_before : AuthorizationPolicyWindowOrder → ℕ → ℕ → Bool
is_before desc a b = leb b a
is_before asc a b = leb a b

abbrev pub durable_snapshot : DurableGrant → DurableGrantSnapshot
durable_snapshot g = record {
  id = g.id;
  principal_provider = g.principal_provider;
  principal_subject = g.principal_subject;
  participant_id = g.participant_id;
  capability = g.capability;
  resource = g.resource;
  status = g.status;
  created_at = g.created_at;
  updated_at = g.updated_at;
}

abbrev pub delegated_snapshot : DelegatedGrant → DelegatedGrantSnapshot
delegated_snapshot g = record {
  id = g.id;
  principal_provider = g.principal_provider;
  principal_subject = g.principal_subject;
  participant_id = g.participant_id;
  capability = g.capability;
  resource = g.resource;
  intent_id = g.intent_id;
  expires_at = g.expires_at;
  one_shot = g.one_shot;
  consumed_at = g.consumed_at;
  consumed_intent_id = g.consumed_intent_id;
  status = g.status;
}

unfoldable pub read_durable_grant_window :
    Database → AuthorizationPolicyWindowOrder → Option ℤ → Option ℤ → ℕ → List DurableGrantSnapshot
read_durable_grant_window db order before after fetch_limit =
    page_of (λ a b. is_before order a.id b.id) (λ a. is_in_window order before after a.id)
      fetch_limit (map durable_snapshot db.principal_grants)

unfoldable pub read_delegated_grant_window :
    Database
    → AuthorizationPolicyWindowOrder
    → Option ℤ
    → Option ℤ
    → ℕ
    → List DelegatedGrantSnapshot
read_delegated_grant_window db order before after fetch_limit =
    page_of (λ a b. is_before order a.id b.id) (λ a. is_in_window order before after a.id)
      fetch_limit (map delegated_snapshot db.delegated_grants)

unfoldable pub window_of :
    Database
    → AuthorizationPolicyWindowRequest
    → AuthorizationPolicyStore × AuthorizationPolicyWindowOrder × ℕ
    → AuthorizationPolicyWindow
window_of db request (durable, order, limit) =
    let grants = read_durable_grant_window db order request.before request.after (suc limit) in
    record {
      store = store_as_str durable;
      durable_grants = take limit grants;
      delegated_grants = [];
      order = order_as_str order;
      has_more = ltb limit (length grants);
    }
window_of db request (delegated, order, limit) =
    let grants = read_delegated_grant_window db order request.before request.after (suc limit) in
    record {
      store = store_as_str delegated;
      durable_grants = [];
      delegated_grants = take limit grants;
      order = order_as_str order;
      has_more = ltb limit (length grants);
    }

unfoldable pub read_authorization_policy_window :
    Database → AuthorizationPolicyWindowRequest → Result DbError AuthorizationPolicyWindow
read_authorization_policy_window db request =
    if not (authorization_policy_snapshot_schema_current db)
    then err invalid_query
    else validate_policy_window_request request >>= λ valid. ok (window_of db request valid)
