-- ===== src/Execution/Spent.antt =====
-- One-shot grants: an execution consumes at most the grant of its decision, and what is consumed
-- stays with the intent that consumed it.
use conversation_blackboard.Common.{
  ℕ, String, ◌≡◌, refl, sym, ap, subst, ◌∙◌, ◌⊎◌, ◌↔◌, ◌≢◌, inl, inr, true, false, not, Option,
  none, some, List, ◌∷◌, ◌++◌, and-true, and_intro, true-false, Memᴰ, arith, is_some, map,
  if◌then◌else◌,
}
use conversation_blackboard.Common.Eq.{==_iff, nat_eq, string_eq}
use conversation_blackboard.Sql.{ok, count_rows, update_where}
use conversation_blackboard.Sql.Members.{Memᴰ-map}
use conversation_blackboard.Sql.Single.{update_where-IsSingle}
use conversation_blackboard.Board.{Identity, Message, DelegatedGrant, Database}
use conversation_blackboard.Messages.{bind_reservation}
use conversation_blackboard.Authorization.Delegated.{
  is_consumable, mark_consumed, consume_delegated_grant_in_tx,
}
use conversation_blackboard.Execution.Types.{MessageExecutionRequest, created}
use conversation_blackboard.Execution.Execute.{
  RequestHash, execute_message_intent, consume_if_given,
}
use conversation_blackboard.Execution.Outcome.{decision_on, with_message}
use conversation_blackboard.Execution.Frames.{record_execution-frame, provenance-frame}
use conversation_blackboard.Execution.Reserving.{with_nonce-SameRest}
use conversation_blackboard.Execution.Repetition.{execute-existing}
use conversation_blackboard.Execution.Accepted.{created-steps, execute-cases, outcome}
use conversation_blackboard.Execution.Trace.{Reaches, Reaches-keeps}

-- The UPDATE of a consumption: its condition counts one row, and it sets the marks on it.
pub record IsMarking (now : ℕ) (intent_id : String) (grant_id : ℕ)
    (before after : List DelegatedGrant) : Type 0 where
  pub one : count_rows (is_consumable grant_id) before ≡ 1
  pub marked : after ≡ update_where (is_consumable grant_id) (mark_consumed now intent_id) before

-- The table of delegated grants around the one row that an intent consumed: active, one-shot and
-- unconsumed before, as no other row of its id was, and marked with the intent and the time after.
pub record Consumes (now : ℕ) (intent_id : String) (grant_id : ℕ)
    (before after : List DelegatedGrant) : Type 0 where
  pub front : List DelegatedGrant
  pub grant : DelegatedGrant
  pub back : List DelegatedGrant
  pub before_eq : before ≡ front ++ grant ∷ back
  pub after_eq :
      after
      ≡ front
        ++ record grant {
          consumed_at = some now;
          consumed_intent_id = some intent_id;
          updated_at = now;
        }
          ∷ back
  pub id_eq : grant.id ≡ grant_id
  pub active : grant.status ≡ "active"
  pub one_shot : grant.one_shot ≡ true
  pub unconsumed : grant.consumed_at ≡ none
  pub single :
      (g : DelegatedGrant)
      → Memᴰ g (front ++ back)
      → g.id ≡ grant_id
      → g.status ≡ "active"
      → g.one_shot ≡ true
      → g.consumed_at ≢ none

unconsumed_test : {A : Type 0} (o : Option A) → (not (is_some o) ≡ true) ↔ (o ≡ none)
unconsumed_test none = (λ h. refl, λ h. refl)
unconsumed_test (some a) = (λ h. cc, λ h. cc)

is_consumable_iff :
    (grant_id : ℕ) (g : DelegatedGrant)
    → (is_consumable grant_id g ≡ true)
      ↔ ((g.id ≡ grant_id) × (g.status ≡ "active") × (g.one_shot ≡ true) × (g.consumed_at ≡ none))
unfolding is_consumable
is_consumable_iff grant_id g =
    let (id, id') = ==_iff g.id grant_id in
    let (active, active') = ==_iff g.status "active" in
    let (free, free') = unconsumed_test g.consumed_at in
    (
      λ h.
          let (scope, unspent) = and-true _ _ h in
          let (named, single) = and-true _ _ scope in
          let (same, live) = and-true _ _ named in (id same, active live, single, free unspent),
      λ (same, live, single, unspent).
          and_intro (and_intro (and_intro (id' same) (active' live)) single) (free' unspent),
    )

IsMarking-Consumes :
    (now : ℕ) (intent_id : String) (grant_id : ℕ) (before after : List DelegatedGrant)
    → IsMarking now intent_id grant_id before after
    → Consumes now intent_id grant_id before after
unfolding mark_consumed
IsMarking-Consumes now intent_id grant_id before after c =
    let s =
      update_where-IsSingle (is_consumable grant_id) (mark_consumed now intent_id) before c.one in
    let (same, live, single, free) = (is_consumable_iff grant_id s.row).0 s.met in
    record {
      front = s.front;
      grant = s.row;
      back = s.back;
      before_eq = s.before_eq;
      after_eq = c.marked ∙ s.after_eq;
      id_eq = same;
      active = live;
      one_shot = single;
      unconsumed = free;
      single = λ g m i a o n.
          true-false (sym ((is_consumable_iff grant_id g).1 (i, a, o, n)) ∙ s.unmet g m);
    }

consume_if_given-inv :
    (now : ℕ) (grant : Option ℕ) (intent_id : String) (db : Database) {db' : Database}
    → consume_if_given now grant intent_id db ≡ ok db'
    → ((grant ≡ none) × (db'.delegated_grants ≡ db.delegated_grants))
      ⊎ ((id : ℕ) × (grant ≡ some id)
          × IsMarking now intent_id id db.delegated_grants db'.delegated_grants)
unfolding consume_if_given consume_delegated_grant_in_tx
consume_if_given-inv now none intent_id db h = inl (refl, ground arith)
consume_if_given-inv now (some id) intent_id db h = inr (
  id,
  refl,
  record {
    one = ground (arith, ==_iff (count_rows (is_consumable id) db.delegated_grants) 1);
    marked = ground arith;
  },
)

with_message-grants :
    (now : ℕ) (identity : Identity) (request : MessageExecutionRequest) (db : Database)
    → (with_message now identity request db).delegated_grants ≡ db.delegated_grants
unfolding bind_reservation
with_message-grants now identity request db = refl

module _ (hash : RequestHash) (now : ℕ) (identity : Identity) (request : MessageExecutionRequest)
    (db : Database) where
  pub created-IsMarking :
      {db' : Database} {m : Message}
      → execute_message_intent hash now identity request db ≡ (db', ok (created m))
      → (((decision_on db now request).consume_grant_id ≡ none)
          × (db'.delegated_grants ≡ db.delegated_grants))
        ⊎ ((id : ℕ) × ((decision_on db now request).consume_grant_id ≡ some id)
            × IsMarking now request.intent.intent_id id db.delegated_grants db'.delegated_grants)
  created-IsMarking {db' = db'} h =
      let made = (created-steps hash now identity request db h).steps in
      let f1 = record_execution-frame _ _ _ _ made.evidence in
      let f2 = provenance-frame _ _ _ _ _ made.evidenced made.provenance in
      let same : made.proven.delegated_grants ≡ db.delegated_grants =
        ap (λ x. x.delegated_grants) f2
        ∙ ap (λ x. x.delegated_grants) f1
        ∙ with_message-grants now identity request _
        ∙ (with_nonce-SameRest now identity request db).delegated in
      subst
        (λ l.
          (((decision_on db now request).consume_grant_id ≡ none) × (db'.delegated_grants ≡ l))
          ⊎ ((id : ℕ) × ((decision_on db now request).consume_grant_id ≡ some id)
              × IsMarking now request.intent.intent_id id l db'.delegated_grants))
        same (consume_if_given-inv now _ _ made.proven made.consumption)

  -- An execution that creates a message consumes just the grant that its decision names: exactly one
  -- row was active, one-shot and unconsumed under that id, and it is marked with the intent and the
  -- time, while every other row stays as it was; if the decision names none, no delegated grant
  -- changes.
  pub created-consumption :
      {db' : Database} {m : Message}
      → execute_message_intent hash now identity request db ≡ (db', ok (created m))
      → (((decision_on db now request).consume_grant_id ≡ none)
          × (db'.delegated_grants ≡ db.delegated_grants))
        ⊎ ((id : ℕ) × ((decision_on db now request).consume_grant_id ≡ some id)
            × Consumes now request.intent.intent_id id db.delegated_grants db'.delegated_grants)
  created-consumption h = elim (created-IsMarking h) [
    | inl unasked ↦ inl unasked
    | inr (id, asked, c) ↦ inr (id, asked, IsMarking-Consumes now request.intent.intent_id id _ _ c)
  ]

  -- A consumed grant is not consumable, so an execution leaves its row alone.
  IsMarking-spent :
      (intent_id : String) (id : ℕ) (before after : List DelegatedGrant) {g : DelegatedGrant}
      → IsMarking now intent_id id before after
      → is_some g.consumed_at ≡ true
      → Memᴰ g before
      → Memᴰ g after
  unfolding update_where is_consumable
  IsMarking-spent intent_id id before after {g = g} c spent m =
      let unmarked : is_consumable id g ≡ false = ground arith in
      let there =
        Memᴰ-map (λ r. if is_consumable id r then mark_consumed now intent_id r else r) before m in
      rw c.marked (
        subst
          (λ r.
            Memᴰ r
              (map (λ s. if is_consumable id s then mark_consumed now intent_id s else s) before))
          (rw unmarked refl) there)

  execute-spent :
      {g : DelegatedGrant}
      → is_some g.consumed_at ≡ true
      → Memᴰ g db.delegated_grants
      → Memᴰ g (outcome hash now identity request db).0.delegated_grants
  execute-spent {g = g} spent m = elim (execute-cases hash now identity request db) [
    | inl same ↦ subst (λ x. Memᴰ g x.delegated_grants) (sym same) m
    | inr (inl (n, e)) ↦
        subst (Memᴰ g) (sym (execute-existing hash now identity request db e).grants) m
    | inr (inr (n, e)) ↦ elim (created-IsMarking e) [
      | inl (unasked, same) ↦ subst (Memᴰ g) (sym same) m
      | inr (id, asked, c) ↦ IsMarking-spent request.intent.intent_id id _ _ c spent m
    ]
  ]

-- A delegated grant that has been consumed keeps its row, the consuming intent and the time
-- included, through any executions.
pub Reaches-spent :
    (hash : RequestHash) {db d : Database} {g : DelegatedGrant}
    → Reaches hash db d
    → is_some g.consumed_at ≡ true
    → Memᴰ g db.delegated_grants
    → Memᴰ g d.delegated_grants
Reaches-spent hash {g = g} path spent =
    Reaches-keeps hash (λ x. Memᴰ g x.delegated_grants)
      (λ n i q x m. execute-spent hash n i q x spent m) path
