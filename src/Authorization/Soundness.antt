-- ===== src/Authorization/Soundness.antt =====
-- An allowed decision has an authority behind it.
use conversation_blackboard.Common.{
  ℕ, String, ◌≡◌, refl, inl, inr, true, false, Option, none, some, List, [], ◌∷◌, Memᴰ, arith,
  Option-cases, ◌&&◌, not, is_some, ap, ◌∙◌, eq_of_some,
}
use conversation_blackboard.Common.Int.{ℤ, pos, leb_ℤ}
use conversation_blackboard.Common.Eq.{◌==◌, ==_iff, string_eq, option_eq}
use conversation_blackboard.Sql.{sql_eq}
use conversation_blackboard.Sql.Laws.{exists_row_sound}
use conversation_blackboard.Board.{Principal, DurableGrant, DelegatedGrant, Database}
use conversation_blackboard.Authorization.Capability.{AuthorizationDecision, allow, deny}
use conversation_blackboard.Authorization.Authority.{
  Admits, InDurableScope, InDelegatedScope, Delegates, Committed, Expired, ConsumedBy, Spent,
}
use conversation_blackboard.Authorization.Delegated.{
  is_some_and, get_or_insert, is_committed_for, committed_receipt_exists, delegated_in_scope,
  delegated_denial, decide_match, scan_candidates,
}
use conversation_blackboard.Authorization.Evaluate.{durable_in_scope, durable_covers}

module _ (principal : Principal) (participant_id capability : String) where
  pub durable_in_scope_sound :
      (g : DurableGrant)
      → durable_in_scope principal participant_id capability g ≡ true
      → InDurableScope principal participant_id capability g
  unfolding durable_in_scope
  durable_in_scope_sound g h = ground (
    arith,
    ==_iff g.principal_provider principal.provider,
    ==_iff g.principal_subject principal.subject,
    ==_iff g.participant_id participant_id,
    ==_iff g.capability capability,
    ==_iff g.status "active",
  )

  pub durable_in_scope_complete :
      (g : DurableGrant)
      → InDurableScope principal participant_id capability g
      → durable_in_scope principal participant_id capability g ≡ true
  unfolding durable_in_scope
  durable_in_scope_complete g h = ground (
    arith,
    ==_iff g.principal_provider principal.provider,
    ==_iff g.principal_subject principal.subject,
    ==_iff g.participant_id participant_id,
    ==_iff g.capability capability,
    ==_iff g.status "active",
  )

  pub delegated_in_scope_sound :
      (g : DelegatedGrant)
      → delegated_in_scope principal participant_id capability g ≡ true
      → InDelegatedScope principal participant_id capability g
  unfolding delegated_in_scope
  delegated_in_scope_sound g h = ground (
    arith,
    ==_iff g.principal_provider principal.provider,
    ==_iff g.principal_subject principal.subject,
    ==_iff g.participant_id participant_id,
    ==_iff g.capability capability,
    ==_iff g.status "active",
  )

pub durable_covers_sound :
    (resource : Option String) (g : DurableGrant)
    → durable_covers resource g ≡ true
    → Admits g.resource resource
unfolding durable_covers
durable_covers_sound resource g h = go g.resource refl
  where
    go : (scope : Option String) → g.resource ≡ scope → Admits g.resource resource
    go none e = inl e
    go (some v) e =
        elim resource as (λ asked. sql_eq (some v) asked ≡ true → Admits g.resource asked) [
          | none ↦ λ q. cc
          | some w ↦ λ q. inr (e ∙ ap some ((==_iff v w).0 q))
        ]
          (rw e at h)

pub Admits-of_test :
    (scope asked : Option String)
    → is_some_and scope (λ v. not (some v == asked)) ≡ false
    → Admits scope asked
unfolding is_some_and
Admits-of_test none asked h = inl refl
Admits-of_test (some v) asked h = inr ((==_iff (some v) asked).0 (ground arith))

Admits-intent_of_test :
    (scope : Option String) (i : String)
    → is_some_and scope (λ v. not (v == i)) ≡ false
    → Admits scope (some i)
unfolding is_some_and
Admits-intent_of_test none i h = inl refl
Admits-intent_of_test (some v) i h = inr (ap some ((==_iff v i).0 (ground arith)))

Expired-test :
    (now : ℕ) (e : Option ℤ) → Expired now e → is_some_and e (λ t. leb_ℤ t (pos now)) ≡ true
unfolding is_some_and
Expired-test now e (t, same, late) = rw same late

-- What the four tests of the loop say of a row that none of them denies.
denial_tests :
    (now : ℕ) (resource : Option String) (i : String) (g : DelegatedGrant)
    → delegated_denial now resource i g ≡ none
    → (is_some_and g.resource (λ v. not (some v == resource)) ≡ false)
      × (is_some_and g.intent_id (λ v. not (v == i)) ≡ false)
      × (g.one_shot && is_some g.consumed_at && not (g.consumed_intent_id == some i) ≡ false)
      × (is_some_and g.expires_at (λ t. leb_ℤ t (pos now))
            && not (g.one_shot && g.consumed_intent_id == some i)
          ≡ false)
unfolding delegated_denial
denial_tests now resource i g h = ground arith

pub committed_receipt_exists_sound :
    (db : Database) (participant_id intent_id : String)
    → committed_receipt_exists db participant_id intent_id ≡ true
    → Committed db participant_id intent_id
unfolding committed_receipt_exists is_committed_for
committed_receipt_exists_sound db p i h =
    let (r, m, q) = exists_row_sound (is_committed_for p i) db.execution_receipts (ground arith) in
    (
      r,
      m,
      ground (arith, ==_iff r.participant_id p),
      ground (arith, ==_iff r.intent_id i),
      ground (arith, ==_iff r.status "committed"),
    )

ConsumedBy-of_tests :
    (g : DelegatedGrant) (i : String)
    → g.one_shot && g.consumed_intent_id == some i ≡ true
    → ConsumedBy i g
ConsumedBy-of_tests g i h = (ground arith, (==_iff g.consumed_intent_id (some i)).0 (ground arith))

Spent-test : (g : DelegatedGrant) → Spent g → g.one_shot && is_some g.consumed_at ≡ true
Spent-test g (once, used) = ground arith

pub Delegates-of_match :
    (db : Database) (now : ℕ) (p : String) (resource : Option String) (i : String)
    (g : DelegatedGrant)
    → delegated_denial now resource i g ≡ none
    → (decide_match db p i g).allowed ≡ true
    → Delegates db now p resource i g
unfolding decide_match allow deny
Delegates-of_match db now p resource i g h a =
    let (rt, it, ct, et) = denial_tests now resource i g h in
    record {
      resource_admitted = Admits-of_test g.resource resource rt;
      intent_admitted = Admits-intent_of_test g.intent_id i it;
      unspent = λ s.
          let used = Spent-test g s in
          (
            ConsumedBy-of_tests g i (ground arith),
            committed_receipt_exists_sound db p i (ground arith),
          );
      in_time =
          λ x. let late = Expired-test now g.expires_at x in ConsumedBy-of_tests g i (ground arith);
    }

-- A denial that the loop has kept so far.
abbrev Refuses : Option AuthorizationDecision → Type 0
Refuses first_denial = (d : AuthorizationDecision) → first_denial ≡ some d → d.allowed ≡ false

module _ (db : Database) (now : ℕ) (p : String) (resource : Option String) (i : String) where
  kept_denial-Refuses :
      (first_denial : Option AuthorizationDecision) (reason : String) (g : DelegatedGrant)
      → Refuses first_denial
      → Refuses (some (get_or_insert first_denial (deny "delegated_grants" reason (some g.id))))
  unfolding deny
  kept_denial-Refuses none reason g r d e = cc
  kept_denial-Refuses (some f) reason g r d e = r d e

  -- An allowed decision of the loop is the decision on a row that nothing denies.
  pub scan_candidates-allowed :
      (rows : List DelegatedGrant) (first_denial : Option AuthorizationDecision)
      {d : AuthorizationDecision}
      → Refuses first_denial
      → scan_candidates db now p resource i rows first_denial ≡ some d
      → d.allowed ≡ true
      → (g : DelegatedGrant) × Memᴰ g rows
        × (delegated_denial now resource i g ≡ none)
        × (decide_match db p i g ≡ d)
  unfolding scan_candidates
  scan_candidates-allowed [] first_denial {d = d} r h a = let no_way = r d h in cc
  scan_candidates-allowed (g ∷ rows) first_denial r h a =
      elim (Option-cases (delegated_denial now resource i g)) [
        | inl passes ↦ (g, Memᴰ.head refl, passes, eq_of_some (rw (passes, scan_candidates) at h))
        | inr (reason, denied) ↦
            let (f, m, q, e) =
              scan_candidates-allowed rows
                (some (get_or_insert first_denial (deny "delegated_grants" reason (some g.id))))
                (kept_denial-Refuses first_denial reason g r) (rw (denied, scan_candidates) at h)
                a in
            (f, Memᴰ.tail m, q, e)
      ]
