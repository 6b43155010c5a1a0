-- ===== src/Authorization/WindowReading.antt =====
-- What a request for a window over the grants asks for, by its texts and its limit.
use conversation_blackboard.Common.{
  ℕ, ◌≡◌, refl, ap, subst, ◌∙◌, ◌⊎◌, inl, inr, String, Option, none, some, Bool-cases, Option-cases,
}
use conversation_blackboard.Sql.{ok}
use conversation_blackboard.Sql.Laws.{eq_of_ok}
use conversation_blackboard.Authorization.Window.{
  AuthorizationPolicyStore, AuthorizationPolicyWindowOrder, desc, asc,
  AuthorizationPolicyWindowRequest, is_window_size, limit_or_default, are_cursors_invalid,
  parse_store, parse_order, validate_policy_window_request,
}
use conversation_blackboard.Authorization.WindowTexts.{
  store_text, parse_store-store_text, parse_order-desc, parse_order-asc,
}

abbrev pub order_text : AuthorizationPolicyWindowOrder → String
order_text desc = "desc"
order_text asc = "asc"

abbrev pub Orders : AuthorizationPolicyWindowOrder → Option String → Type 0
Orders desc text = (text ≡ none) ⊎ (text ≡ some "desc")
Orders asc text = text ≡ some "asc"

-- What the texts of a request ask for.
pub record Asks (request : AuthorizationPolicyWindowRequest) (store : AuthorizationPolicyStore)
    (order : AuthorizationPolicyWindowOrder) (limit : ℕ) : Type 0 where
  pub store_eq : request.store ≡ store_text store
  pub order_eq : Orders order request.order
  pub limit_eq : (request.limit ≡ some limit) ⊎ ((request.limit ≡ none) × (limit ≡ 20))

parse_order-Orders :
    (text : Option String) (order : AuthorizationPolicyWindowOrder)
    → parse_order text ≡ some order
    → Orders order text
parse_order-Orders text desc h = (parse_order-desc text).0 h
parse_order-Orders text asc h = (parse_order-asc text).0 h

limit_or_default-cases :
    (limit : Option ℕ)
    → (limit ≡ some (limit_or_default limit)) ⊎ ((limit ≡ none) × (limit_or_default limit ≡ 20))
limit_or_default-cases none = inr (refl, refl)
limit_or_default-cases (some n) = inl refl

pub validate_policy_window_request-Asks :
    (request : AuthorizationPolicyWindowRequest) (store : AuthorizationPolicyStore)
    (order : AuthorizationPolicyWindowOrder) (limit : ℕ)
    → validate_policy_window_request request ≡ ok (store, order, limit)
    → Asks request store order limit
unfolding validate_policy_window_request
validate_policy_window_request-Asks request store order limit h =
    elim (Option-cases (parse_store request.store)) [
      | inl p ↦ let gone = rw (p, validate_policy_window_request) at h in cc
      | inr (s, p) ↦ elim (Option-cases (parse_order request.order)) [
        | inl q ↦ let gone = rw (p, q, validate_policy_window_request) at h in cc
        | inr (o, q) ↦ elim (Bool-cases (are_cursors_invalid o request.before request.after)) [
          | inl bad ↦ let gone = rw (p, q, bad, validate_policy_window_request) at h in cc
          | inr fine ↦ elim (Bool-cases (is_window_size (limit_or_default request.limit))) [
            | inr bad ↦ let gone = rw (p, q, fine, bad, validate_policy_window_request) at h in cc
            | inl sized ↦
                let done : (s, o, limit_or_default request.limit) ≡ (store, order, limit) =
                  eq_of_ok (rw (p, q, fine, sized, validate_policy_window_request) at h) in
                record {
                  store_eq =
                      parse_store-store_text request.store store (p ∙ ap (λ v. some v.0) done);
                  order_eq = parse_order-Orders request.order order (q ∙ ap (λ v. some v.1) done);
                  limit_eq =
                      subst (λ n. (request.limit ≡ some n) ⊎ ((request.limit ≡ none) × (n ≡ 20)))
                        (ap (λ v. v.2) done) (limit_or_default-cases request.limit);
                }
          ]
        ]
      ]
    ]
