-- ===== src/Administration/Inversion.antt =====
-- What an administration operation that succeeds went through.
use conversation_blackboard.Common.{
  ℕ, String, ◌≡◌, ap, ◌∙◌, inl, inr, true, none, some, arith, Bool-cases,
}
use conversation_blackboard.Sql.{Result, ok}
use conversation_blackboard.Board.{Principal, Database}
use conversation_blackboard.Transaction.{in_tx}
use conversation_blackboard.Authorization.Capability.{
  manage_authorization_policy, authorization_policy_admin_resource,
}
use conversation_blackboard.Authorization.Evaluate.{
  explain_authorization, evaluate_authorization_current_schema,
}
use conversation_blackboard.Execution.Frames.{ok-or-err}
use conversation_blackboard.Administration.Types.{AdministrationError}
use conversation_blackboard.Administration.Operations.{
  Change, schema_current, committed, authorized, prepared,
}

committed-ok :
    {R : Type 0} (body : Change R) (db : Database) {db' : Database} {r : R}
    → committed body db ≡ (db', ok r)
    → body db ≡ ok (db', r)
unfolding committed in_tx
committed-ok body db h = elim (ok-or-err (body db)) [
  | inl (done, e) ↦
      let same = rw (e, committed) at h in let first : done.0 ≡ _ = ap (λ x. x.0) same in e ∙ cc
  | inr (x, e) ↦ let gone = rw (e, committed) at h in cc
]

pub prepared-ok :
    {N R : Type 0} (input : Result AdministrationError N) (body : N → Change R) (db : Database)
    {db' : Database} {r : R}
    → prepared input body db ≡ (db', ok r)
    → (schema_current db ≡ true) × ((n : N) × (input ≡ ok n) × (body n db ≡ ok (db', r)))
unfolding prepared
prepared-ok input body db h = elim (Bool-cases (schema_current db)) [
  | inr old ↦ let gone = rw (old, prepared) at h in cc
  | inl current ↦ elim (ok-or-err input) [
    | inr (x, e) ↦ let gone = rw (current, e, prepared) at h in cc
    | inl (n, e) ↦ (current, (n, e, committed-ok (body n) db (rw (current, e, prepared) at h)))
  ]
]

-- If a change that is made on a caller's behalf succeeds, the policy allows that caller to manage
-- authorization, and the change itself succeeds.
pub authorized-ok :
    {R : Type 0} (now : ℕ) (caller : Principal) (participant_id : String) (body : Change R)
    (db : Database) {done : Database × R}
    → authorized now caller participant_id body db ≡ ok done
    → ((evaluate_authorization_current_schema db now caller participant_id
          manage_authorization_policy
          (some authorization_policy_admin_resource)
          none).allowed
        ≡ true)
      × (body db ≡ ok done)
unfolding authorized explain_authorization
authorized-ok now caller participant_id body db h = ground arith
