-- ===== src/Administration/Revocation.antt =====
-- The deactivation of a durable grant: no row of its scope stays active, and each row that changed
-- has its event.
use conversation_blackboard.Common.{
  ℕ, ◌≡◌, ◌≢◌, true-false, refl, sym, ap, subst, ◌∙◌, ◌⊎◌, inl, inr, true, Option, none, some, List,
  [], ◌∷◌, ◌++◌, map, leb, Memᴰ, arith, Bool-cases, Option-cases, if◌then◌else◌,
}
use conversation_blackboard.Common.Int.{ℤ, pos, leb_ℤ}
use conversation_blackboard.Common.Eq.{◌==◌, ==_iff, string_eq, int_eq}
use conversation_blackboard.Sql.{ok, select, count_rows, find, update_where, order_by}
use conversation_blackboard.Sql.Laws.{find_sound, find-none}
use conversation_blackboard.Sql.Members.{Memᴰ-map_inv}
use conversation_blackboard.Board.{DurableGrant, AdministrationEventRow, Database}
use conversation_blackboard.Administration.Types.{NormalizedActor, GrantScope}
use conversation_blackboard.Administration.Entries.{
  durable_entry, scope_of, is_revocable, IsGrantOf, is_same_grant-IsGrantOf,
}
use conversation_blackboard.Administration.Grants.{
  is_same_grant, request_of, is_live_twin, set_durable_status, by_id, record_event, durable_event,
  durable_scope, record_deactivations, deactivate_scope, deactivate_durable_grant_in_tx,
}

module _ {ℓ} {A : Type ℓ} where
  append_none : (xs : List A) → xs ++ [] ≡ xs
  append_none [] = refl
  append_none (x ∷ xs) = ap (λ l. x ∷ l) (append_none xs)

  append_one : (xs : List A) (x : A) (ys : List A) → (xs ++ x ∷ []) ++ ys ≡ xs ++ x ∷ ys
  append_one [] x ys = refl
  append_one (z ∷ zs) x ys = ap (λ l. z ∷ l) (append_one zs x ys)

-- The entries of the log for a deactivation; each pair has an entry's id and the id of its grant.
abbrev pub deactivation_entries :
    ℕ → NormalizedActor → DurableGrant → List (ℕ × ℕ) → List AdministrationEventRow
deactivation_entries now actor g = map (λ ids.
    durable_entry ids.0 now actor (scope_of g) ids.1 "deactivate" (some "active") "inactive")

-- A deactivation adds an entry for each row.
record_deactivations-log :
    (now : ℕ) (actor : NormalizedActor) (g : DurableGrant) (rows : List DurableGrant)
    (db : Database)
    → (new : List (ℕ × ℕ)) × ((record_deactivations now actor
          (durable_scope (request_of g))
          rows
          db).authorization_admin_events
        ≡ db.authorization_admin_events ++ deactivation_entries now actor g new)
      × (map (λ ids. ids.1) new ≡ map (λ (r : DurableGrant). r.id) rows)
unfolding record_deactivations record_event
record_deactivations-log now actor g [] db = ([], sym (append_none _), refl)
record_deactivations-log now actor g (r ∷ rest) db =
    let (new, log, same) = record_deactivations-log now actor g rest (
      record_event now actor
        (durable_event r.id "deactivate" (durable_scope (request_of g)) (some "active") "inactive")
        db) in
    (
      (_, r.id) ∷ new,
      log ∙ append_one db.authorization_admin_events _ (deactivation_entries now actor g new),
      ap (λ l. r.id ∷ l) same,
    )

record_deactivations-grants :
    (now : ℕ) (actor : NormalizedActor) (scope : GrantScope) (rows : List DurableGrant)
    (db : Database)
    → (record_deactivations now actor scope rows db).principal_grants ≡ db.principal_grants
unfolding record_deactivations record_event
record_deactivations-grants now actor scope [] db = refl
record_deactivations-grants now actor scope (g ∷ rest) db =
    record_deactivations-grants now actor scope rest _

-- No row of the scope is live after the UPDATE.
update-inactive :
    (now : ℕ) (g : DurableGrant) (grants : List DurableGrant) {s : DurableGrant}
    → Memᴰ s (update_where (is_live_twin g) (set_durable_status now "inactive") grants)
    → is_same_grant (request_of g) s ≡ true
    → s.status ≡ "inactive"
unfolding update_where
update-inactive now g grants {s = s} m same =
    let (r, n, e) =
      Memᴰ-map_inv (λ r. if is_live_twin g r then set_durable_status now "inactive" r else r) grants
        m in
    elim (Bool-cases (is_live_twin g r)) [
      | inl t ↦
          let is : s ≡ set_durable_status now "inactive" r = e ∙ rw t refl in ap (λ x. x.status) is
      | inr f ↦
          let is : s ≡ r = e ∙ rw f refl in
          ap (λ x. x.status) is
          ∙ (let twin = rw is at same in ground (arith, ==_iff r.status "inactive"))
    ]

-- What a deactivation of the scope of `g` leaves, with the number of rows that it returns.
pub record IsRevoked (now : ℕ) (actor : NormalizedActor) (g : DurableGrant) (rows : ℕ)
    (before after : Database) : Type 0 where
  pub none_live :
      (r : DurableGrant)
      → Memᴰ r after.principal_grants
      → IsGrantOf (scope_of g) r
      → r.status ≡ "inactive"
  pub changed : rows ≡ count_rows (is_revocable g) before.principal_grants
  pub grants :
      after.principal_grants
      ≡ update_where
          (is_revocable g)
          (λ r. record r { status = "inactive"; updated_at = now })
          before.principal_grants
  pub log :
      (new : List (ℕ × ℕ)) × (after.authorization_admin_events
        ≡ before.authorization_admin_events ++ deactivation_entries now actor g new)
      × (map (λ ids. ids.1) new
          ≡ map
              (λ (r : DurableGrant). r.id)
              (order_by (λ a b. leb a.id b.id) (select (is_revocable g) before.principal_grants)))

deactivate_scope-IsRevoked :
    (now : ℕ) (actor : NormalizedActor) (g : DurableGrant) (db : Database)
    → IsRevoked now actor g
        (deactivate_scope now actor g db).1
        db
        (deactivate_scope now actor g db).0
unfolding deactivate_scope is_same_grant
deactivate_scope-IsRevoked now actor g db =
    let active = order_by by_id (select (is_live_twin g) db.principal_grants) in
    let changed : Database = record db {
      principal_grants =
          update_where (is_live_twin g) (set_durable_status now "inactive") db.principal_grants;
    } in
    let same =
      record_deactivations-grants now actor (durable_scope (request_of g)) active changed in
    record {
      none_live = λ r m scope.
          update-inactive now g db.principal_grants (subst (Memᴰ r) same m)
            ((is_same_grant-IsGrantOf (request_of g) r).1 scope);
      changed = refl;
      grants = same;
      log = record_deactivations-log now actor g active changed;
    }

-- If a deactivation of a durable grant finds the grant, then afterwards every row of the grant's
-- scope is inactive, the number it returns is that of the rows that were not, just those were set, at
-- the time given, and for each of them, in the order of their ids, one entry was added to the log,
-- which names the row, the grant's scope, the actor and the time; if it returns none, there is no
-- such grant, and it changed nothing.
pub deactivate_durable_grant_in_tx-IsRevoked :
    (now : ℕ) (actor : NormalizedActor) (grant_id : ℤ) (db : Database) {db' : Database}
    {rows : Option ℕ}
    → deactivate_durable_grant_in_tx now actor grant_id db ≡ ok (db', rows)
    → ((rows ≡ none)
        × (db' ≡ db)
        × ((g : DurableGrant) → Memᴰ g db.principal_grants → pos g.id ≢ grant_id))
      ⊎ ((g : DurableGrant) × (n : ℕ) × (rows ≡ some n)
          × Memᴰ g db.principal_grants
          × (pos g.id ≡ grant_id)
          × IsRevoked now actor g n db db')
unfolding deactivate_durable_grant_in_tx
deactivate_durable_grant_in_tx-IsRevoked now actor grant_id db {db' = db'} {rows = rows} h =
    elim (Bool-cases (leb_ℤ grant_id (pos 0))) [
      | inl low ↦ let gone = rw (low, deactivate_durable_grant_in_tx) at h in cc
      | inr fine ↦
          elim (Option-cases
            (find (λ (g : DurableGrant). pos g.id == grant_id) db.principal_grants)) [
              | inl missing ↦
                  let done = rw (fine, missing, deactivate_durable_grant_in_tx) at h in
                  let pair : ◌≡◌ {A = Database × Option ℕ} (db, none) (db', rows) = cc in
                  inl (
                    sym (ap (λ x. x.1) pair),
                    sym (ap (λ x. x.0) pair),
                    λ g m e. true-false (
                        sym ((==_iff (pos g.id) grant_id).1 e)
                        ∙ find-none _ db.principal_grants missing m),
                  )
              | inr (g, found) ↦
                  let done = rw (fine, found, deactivate_durable_grant_in_tx) at h in
                  let (m, named) = find_sound _ db.principal_grants found in
                  let pair : ◌≡◌ {A = Database × Option ℕ}
                      (
                        (deactivate_scope now actor g db).0,
                        some (deactivate_scope now actor g db).1,
                      )
                      (db', rows) =
                    cc in
                  inr (
                    g,
                    (deactivate_scope now actor g db).1,
                    sym (ap (λ x. x.1) pair),
                    m,
                    (==_iff (pos g.id) grant_id).0 named,
                    subst (IsRevoked now actor g (deactivate_scope now actor g db).1 db)
                        (ap (λ x. x.0) pair) (deactivate_scope-IsRevoked now actor g db),
                  )
            ]
    ]
