-- ===== src/Execution/Audit/Consumed.antt =====
-- The delegated grant behind a first execution, as the audit of its intent finds it afterwards.
use conversation_blackboard.Common.{
  ℕ, String, ◌≡◌, refl, sym, ap, subst, ◌∙◌, inl, inr, true, false, none, some, List, arith,
  Bool-cases, and_intro, true-false, Memᴰ, is_some, eq_of_some, if◌then◌else◌,
}
use conversation_blackboard.Common.Eq.{◌==◌, ==_iff, ==_refl, string_eq, nat_eq, option_eq}
use conversation_blackboard.Sql.{ok, find, update_where}
use conversation_blackboard.Sql.Laws.{find_sound, find-none, find-Memᴰ, find-map}
use conversation_blackboard.Board.{
  Identity, Message, DelegatedGrant, Database, table_exists, create_table,
}
use conversation_blackboard.Authorization.Schema.{ensure_grant_schema}
use conversation_blackboard.Authorization.Authority.{InDelegatedScope}
use conversation_blackboard.Authorization.Delegated.{
  is_consumable, mark_consumed, committed_receipt_exists,
}
use conversation_blackboard.Authorization.Soundness.{committed_receipt_exists_sound}
use conversation_blackboard.Authorization.Delegating.{evaluate-IsDelegation, decide_match-unspent}
use conversation_blackboard.Execution.Types.{MessageExecutionRequest, created}
use conversation_blackboard.Execution.Record.{is_receipt_of}
use conversation_blackboard.Execution.Execute.{RequestHash, receipt_for, execute_message_intent}
use conversation_blackboard.Execution.Outcome.{decision_on}
use conversation_blackboard.Execution.Spent.{IsMarking, created-IsMarking}
use conversation_blackboard.Execution.Audit.Conditions.{IsBoundGrant, IsBoundReference}

-- PRIMARY KEY (id)
abbrev pub IsNumbered : List DelegatedGrant → Type 0
IsNumbered rows = (a b : DelegatedGrant) → Memᴰ a rows → Memᴰ b rows → a.id ≡ b.id → a ≡ b

find-IsNumbered :
    (rows : List DelegatedGrant) (g : DelegatedGrant)
    → IsNumbered rows
    → Memᴰ g rows
    → find (λ h. h.id == g.id) rows ≡ some g
find-IsNumbered rows g numbered m =
    let (s, found) = find-Memᴰ (λ h. h.id == g.id) rows m (==_refl g.id) in
    let (n, q) = find_sound (λ h. h.id == g.id) rows found in
    found ∙ ap some (numbered s g n m ((==_iff s.id g.id).0 q))

find-marked :
    (now : ℕ) (intent_id : String) (rows : List DelegatedGrant) (g : DelegatedGrant)
    → find (λ h. h.id == g.id) rows ≡ some g
    → is_consumable g.id g ≡ true
    → find
        (λ h. h.id == g.id)
        (update_where (is_consumable g.id) (mark_consumed now intent_id) rows)
      ≡ some (mark_consumed now intent_id g)
unfolding update_where
find-marked now intent_id rows g found consumable =
    find-map (λ h. h.id == g.id)
      (λ h. if is_consumable g.id h then mark_consumed now intent_id h else h) rows
      (λ h. unfold mark_consumed in ground arith) found
    ∙ rw consumable refl

-- Creating the tables of grants leaves every row alone.
grant_schema-rows :
    (db : Database)
    → ((ensure_grant_schema db).execution_receipts ≡ db.execution_receipts)
      × ((ensure_grant_schema db).delegated_grants ≡ db.delegated_grants)
unfolding ensure_grant_schema create_table
grant_schema-rows db = ground arith

uncommitted :
    (db : Database) (p i : String)
    → find (is_receipt_of p i) db.execution_receipts ≡ none
    → committed_receipt_exists (ensure_grant_schema db) p i ≡ false
uncommitted db p i h = elim (Bool-cases (committed_receipt_exists (ensure_grant_schema db) p i)) [
  | inr none_yet ↦ none_yet
  | inl there ↦
      let (r, m, same_p, same_i, status) =
        committed_receipt_exists_sound (ensure_grant_schema db) p i there in
      let own : is_receipt_of p i r ≡ true =
        and_intro ((==_iff r.participant_id p).1 same_p) ((==_iff r.intent_id i).1 same_i) in
      let among = subst (λ l. Memᴰ r l) (grant_schema-rows db).0 m in
      absurd (true-false (sym own ∙ find-none (is_receipt_of p i) db.execution_receipts h among))
]

marked-IsBoundGrant :
    (now : ℕ) (request : MessageExecutionRequest) (message_id : ℕ) (g : DelegatedGrant)
    → InDelegatedScope request.authority.principal request.intent.participant_id
        request.intent.capability g
    → IsBoundGrant (receipt_for request message_id) (mark_consumed now request.intent.intent_id g)
unfolding receipt_for mark_consumed
marked-IsBoundGrant now request message_id g scope = record {
  participant = scope.participant_eq;
  capability = scope.capability_eq;
  consumed = λ o. (refl, refl);
}

module _ (hash : RequestHash) (now : ℕ) (identity : Identity) (request : MessageExecutionRequest)
    (db : Database) {db' : Database} {m : Message} where
  -- The row of the grant afterwards: marked if it is one-shot, and as it was if not.
  grant-IsBoundGrant :
      execute_message_intent hash now identity request db ≡ (db', ok (created m))
      → IsNumbered db.delegated_grants
      → (g : DelegatedGrant) → Memᴰ g db.delegated_grants
      → InDelegatedScope request.authority.principal request.intent.participant_id
          request.intent.capability g
      → (g.one_shot ≡ true
          → (is_some g.consumed_at ≡ false)
            × ((decision_on db now request).consume_grant_id ≡ some g.id))
      → (g.one_shot ≡ false → (decision_on db now request).consume_grant_id ≡ none)
      → (h : DelegatedGrant) × (find (λ k. k.id == g.id) db'.delegated_grants ≡ some h)
        × IsBoundGrant (receipt_for request m.id) h
  unfolding receipt_for
  grant-IsBoundGrant h numbered g stored scope once many =
      let found = find-IsNumbered db.delegated_grants g numbered stored in
      let consumption = created-IsMarking hash now identity request db h in
      elim (Bool-cases g.one_shot) [
        | inr repeatable ↦ elim consumption [
          | inr (id, asked, c) ↦ let nothing = many repeatable in cc
          | inl (unasked, same) ↦ (
            g,
            ap (find (λ k. k.id == g.id)) same ∙ found,
            record {
              participant = scope.participant_eq;
              capability = scope.capability_eq;
              consumed = λ o. absurd (true-false (sym o ∙ repeatable));
            },
          )
        ]
        | inl single ↦ elim consumption [
          | inl (unasked, same) ↦ let some_grant = (once single).1 in cc
          | inr (id, asked, c) ↦
              let is : id ≡ g.id = eq_of_some (sym asked ∙ (once single).1) in
              let active = (==_iff g.status "active").1 scope.active_eq in
              let unspent = (once single).0 in
              let self = ==_refl g.id in
              let consumable : is_consumable g.id g ≡ true = unfold is_consumable in ground arith in
              let marked =
                subst
                  (λ k.
                    IsMarking now request.intent.intent_id k db.delegated_grants
                      db'.delegated_grants)
                  is c in
              (
                mark_consumed now request.intent.intent_id g,
                ap (find (λ k. k.id == g.id)) marked.marked
                    ∙ find-marked now request.intent.intent_id db.delegated_grants g found
                        consumable,
                marked-IsBoundGrant now request m.id g scope,
              )
        ]
      ]

  -- A first execution that a delegated grant allowed leaves that grant as its audit wants it.
  pub created-IsBoundReference :
      execute_message_intent hash now identity request db ≡ (db', ok (created m))
      → (decision_on db now request).allowed ≡ true
      → find
          (is_receipt_of request.intent.participant_id request.intent.intent_id)
          db.execution_receipts
        ≡ none
      → IsNumbered db.delegated_grants
      → table_exists db' "delegated_grants" ≡ true
      → (decision_on db now request).source ≡ "delegated_grants"
      → IsBoundReference db' (receipt_for request m.id) (decision_on db now request).grant_id
  created-IsBoundReference h allowed unreceipted numbered storable source =
      let d =
        evaluate-IsDelegation (ensure_grant_schema db) now request.authority.principal
          request.intent.participant_id request.intent.capability (some request.intent.resource)
          (some request.intent.intent_id) (decision_on db now request) refl allowed source in
      let is : request.intent.intent_id ≡ d.intent = eq_of_some d.asked in
      let none_yet =
        subst
          (λ i.
            committed_receipt_exists (ensure_grant_schema db) request.intent.participant_id i
            ≡ false)
          is (uncommitted db _ _ unreceipted) in
      let (named, once, many) = decide_match-unspent _ _ _ d.grant d.decided allowed none_yet in
      let stored = subst (λ l. Memᴰ d.grant l) (grant_schema-rows db).1 d.stored in
      let (g, found, bound) = grant-IsBoundGrant h numbered d.grant stored d.in_scope once many in
      record {
        id = d.grant.id;
        grant = g;
        named = named;
        storable = storable;
        found = found;
        bound = bound;
      }
