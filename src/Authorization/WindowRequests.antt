-- ===== src/Authorization/WindowRequests.antt =====
-- Which requests for a window over the grants are accepted.
use conversation_blackboard.Common.{
  ℕ, suc, zero, ◌≤◌, ◌≡◌, refl, ◌↔◌, ◌⊎◌, inl, inr, Bool, true, false, not, ◌&&◌, ◌||◌, Option,
  none, some, arith, Bool-cases, Option-cases, eq_of_some, is_some, if◌then◌else◌,
}
use conversation_blackboard.Common.Eq.{string_eq}
use conversation_blackboard.Common.Int.{ℤ, pos, negsuc}
use conversation_blackboard.Sql.{invalid_query, ok, err}
use conversation_blackboard.Sql.Laws.{bound_ok}
use conversation_blackboard.Board.{Database}
use conversation_blackboard.Authorization.Schema.{authorization_policy_snapshot_schema_current}
use conversation_blackboard.Authorization.WindowTexts.{
  parse_store-some, parse_order-desc, parse_order-asc,
}
use conversation_blackboard.Authorization.Window.{
  AuthorizationPolicyStore, AuthorizationPolicyWindowOrder, desc, asc,
  AuthorizationPolicyWindowRequest, AuthorizationPolicyWindow, is_window_size, limit_or_default,
  are_cursors_invalid, is_not_positive, parse_store, parse_order, validate_policy_window_request,
  window_of, read_authorization_policy_window,
}

-- No cursor, or a positive one.
abbrev pub IsCursor : Option ℤ → Type 0
IsCursor cursor = (cursor ≡ none) ⊎ ((n : ℕ) × (cursor ≡ some (pos (suc n))))

-- The texts and numbers of a request that is accepted.
pub record IsValidRequest (request : AuthorizationPolicyWindowRequest) : Type 0 where
  pub store : (request.store ≡ "durable") ⊎ (request.store ≡ "delegated")
  pub cursor :
      (((request.order ≡ none) ⊎ (request.order ≡ some "desc"))
        × (request.after ≡ none)
        × IsCursor request.before)
      ⊎ ((request.order ≡ some "asc") × (request.before ≡ none) × IsCursor request.after)
  pub limit : (1 ≤ limit_or_default request.limit) × (limit_or_default request.limit ≤ 200)

is_not_positive-IsCursor : (cursor : Option ℤ) → (is_not_positive cursor ≡ false) ↔ IsCursor cursor
unfolding is_not_positive
is_not_positive-IsCursor none = (λ h. inl refl, λ h. refl)
is_not_positive-IsCursor (some (pos (suc n))) = (λ h. inr (n, refl), λ h. ground arith)
is_not_positive-IsCursor (some (pos zero)) =
    (λ h. cc, λ h. elim h [ inl e ↦ cc | inr (n, e) ↦ let same = eq_of_some e in cc ])
is_not_positive-IsCursor (some (negsuc n)) =
    (λ h. cc, λ h. elim h [ inl e ↦ cc | inr (k, e) ↦ let same = eq_of_some e in cc ])

left_false : (p q : Bool) → ((p || false || q && false || false) ≡ false) ↔ (p ≡ false)
left_false p q = ground arith

or_false : (p : Bool) → ((p || false || false) ≡ false) ↔ (p ≡ false)
or_false p = ground arith

last_true : (p q r : Bool) → ¬ ((p || q || r || true) ≡ false)
last_true p q r h = ground arith

are_cursors_invalid-desc :
    (before after : Option ℤ)
    → (are_cursors_invalid desc before after ≡ false) ↔ ((after ≡ none) × IsCursor before)
unfolding are_cursors_invalid is_not_positive
are_cursors_invalid-desc before none =
    let (down, up) = is_not_positive-IsCursor before in
    let (left, right) = left_false (is_not_positive before) (is_some before) in
    (λ h. (refl, down (left h)), λ h. right (up h.1))
are_cursors_invalid-desc before (some c) =
    (λ h. absurd (last_true (is_not_positive before) _ _ h), λ h. let e = h.0 in cc)

pub are_cursors_invalid-asc :
    (before after : Option ℤ)
    → (are_cursors_invalid asc before after ≡ false) ↔ ((before ≡ none) × IsCursor after)
unfolding are_cursors_invalid is_not_positive
are_cursors_invalid-asc none after =
    let (down, up) = is_not_positive-IsCursor after in
    let (left, right) = or_false (is_not_positive after) in
    (λ h. (refl, down (left h)), λ h. right (up h.1))
are_cursors_invalid-asc (some c) after =
    (λ h. absurd (last_true (is_not_positive (some c)) _ _ h), λ h. let e = h.0 in cc)

is_window_size_iff : (n : ℕ) → (is_window_size n ≡ true) ↔ ((1 ≤ n) × (n ≤ 200))
is_window_size_iff n = ground arith

-- The two refusals at the end of the validation.
guarded_ok :
    {A : Type 0} (bad good : Bool) (a : A)
    → ((v : A) × ((if bad then err invalid_query else if not good then err invalid_query else ok a)
          ≡ ok v))
      ↔ ((bad ≡ false) × (good ≡ true))
guarded_ok true good a = (λ (v, h). cc, λ h. let e = h.0 in cc)
guarded_ok false true a = (λ h. (refl, refl), λ h. (a, refl))
guarded_ok false false a = (λ (v, h). cc, λ h. let e = h.1 in cc)

abbrev IsAccepted : AuthorizationPolicyWindowRequest → Type 0
IsAccepted request =
    (valid : AuthorizationPolicyStore × AuthorizationPolicyWindowOrder × ℕ)
    × (validate_policy_window_request request ≡ ok valid)

module _ (request : AuthorizationPolicyWindowRequest) {s : AuthorizationPolicyStore}
    (p : parse_store request.store ≡ some s) where
  IsAccepted-desc :
      parse_order request.order ≡ some desc → IsAccepted request ↔ IsValidRequest request
  unfolding validate_policy_window_request
  IsAccepted-desc q =
      rw (validate_policy_window_request, p, q)
        (let (down, up) =
            guarded_ok (are_cursors_invalid desc request.before request.after)
              (is_window_size (limit_or_default request.limit))
              (s, desc, limit_or_default request.limit) in
          let (cursors, uncursed) = are_cursors_invalid-desc request.before request.after in
          let (sized, size) = is_window_size_iff (limit_or_default request.limit) in
          (
            λ h.
                let fine = down h in
                let cs = cursors fine.0 in
                record {
                  store = (parse_store-some request.store).0 (s, p);
                  cursor = inl ((parse_order-desc request.order).0 q, cs.0, cs.1);
                  limit = sized fine.1;
                },
            λ v. elim v.cursor [
              | inl (o, none_after, good) ↦ up (uncursed (none_after, good), size v.limit)
              | inr (o, rest, good) ↦ let other = (parse_order-asc request.order).1 o in cc
            ],
          ))

  IsAccepted-asc :
      parse_order request.order ≡ some asc → IsAccepted request ↔ IsValidRequest request
  unfolding validate_policy_window_request
  IsAccepted-asc q =
      rw (validate_policy_window_request, p, q)
        (let (down, up) =
            guarded_ok (are_cursors_invalid asc request.before request.after)
              (is_window_size (limit_or_default request.limit))
              (s, asc, limit_or_default request.limit) in
          let (cursors, uncursed) = are_cursors_invalid-asc request.before request.after in
          let (sized, size) = is_window_size_iff (limit_or_default request.limit) in
          (
            λ h.
                let fine = down h in
                let cs = cursors fine.0 in
                record {
                  store = (parse_store-some request.store).0 (s, p);
                  cursor = inr ((parse_order-asc request.order).0 q, cs.0, cs.1);
                  limit = sized fine.1;
                },
            λ v. elim v.cursor [
              | inl (o, rest, good) ↦ let other = (parse_order-desc request.order).1 o in cc
              | inr (o, none_before, good) ↦ up (uncursed (none_before, good), size v.limit)
            ],
          ))

  refused_order : parse_order request.order ≡ none → IsAccepted request ↔ IsValidRequest request
  unfolding validate_policy_window_request
  refused_order q =
      rw (validate_policy_window_request, p, q)
        (
          λ (v, h). cc,
          λ v. elim v.cursor [
            | inl (o, rest, good) ↦ let other = (parse_order-desc request.order).1 o in cc
            | inr (o, rest, good) ↦ let other = (parse_order-asc request.order).1 o in cc
          ],
        )

validate_policy_window_request-IsValidRequest :
    (request : AuthorizationPolicyWindowRequest) → IsAccepted request ↔ IsValidRequest request
unfolding validate_policy_window_request
validate_policy_window_request-IsValidRequest request =
    elim (Option-cases (parse_store request.store)) [
      | inl p ↦
          rw (validate_policy_window_request, p)
            (λ (v, h). cc, λ v. let (s, known) = (parse_store-some request.store).1 v.store in cc)
      | inr (s, p) ↦ elim (Option-cases (parse_order request.order)) [
        | inl q ↦ refused_order request p q
        | inr (desc, q) ↦ IsAccepted-desc request p q
        | inr (asc, q) ↦ IsAccepted-asc request p q
      ]
    ]

-- A window is returned if and only if the tables of grants have their columns, the store is "durable"
-- or "delegated", the order is "desc" (also by default) with no cursor `after`, or "asc" with no cursor
-- `before`, the cursor left is absent or positive, and the limit, 20 by default, is between 1 and 200.
pub read_authorization_policy_window-IsValidRequest :
    (db : Database) (request : AuthorizationPolicyWindowRequest)
    → ((w : AuthorizationPolicyWindow) × (read_authorization_policy_window db request ≡ ok w))
      ↔ ((authorization_policy_snapshot_schema_current db ≡ true) × IsValidRequest request)
unfolding read_authorization_policy_window
read_authorization_policy_window-IsValidRequest db request =
    let (down, up) = validate_policy_window_request-IsValidRequest request in
    elim (Bool-cases (authorization_policy_snapshot_schema_current db)) [
      | inr f ↦ rw f (λ (w, h). cc, λ h. let e = h.0 in cc)
      | inl t ↦ rw t (
        λ (w, h).
            let (valid, checked, same) =
              bound_ok (validate_policy_window_request request) (window_of db request) h in
            (refl, down (valid, checked)),
        λ h. let (valid, checked) = up h.1 in (window_of db request valid, rw checked),
      )
    ]
