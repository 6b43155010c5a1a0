-- ===== src/Execution/Audit/Presence.antt =====
-- The receipt and the provenance that are read for an intent are that intent's, and when the stage
-- on the provenance leaves the violations empty.
use conversation_blackboard.Common.{
  String, ◌≡◌, Option, none, some, Bool-cases, Option-cases, inl, inr, and-true, sym, ap, ◌∙◌,
  eq_of_some, arith,
}
use conversation_blackboard.Common.Eq.{◌==◌, ==_iff, string_eq, nat_eq, option_eq}
use conversation_blackboard.Sql.{count_rows, find}
use conversation_blackboard.Sql.Laws.{find_sound, find-Memᴰ, exists_row_sound}
use conversation_blackboard.Sql.Exists.{count_rows-exists}
use conversation_blackboard.Board.{Message, Database}
use conversation_blackboard.Execution.Types.{ExecutionReceipt}
use conversation_blackboard.Execution.Record.{
  is_receipt_of, is_provenance_of, AuthorizationProvenance, get_execution_receipt,
  get_authorization_provenance,
}
use conversation_blackboard.Execution.Audit.{
  Audit, check, is_blank, audit_resource, audit_provenance, audit_authorization, audit_delegation,
}
use conversation_blackboard.Execution.Audit.Conditions.{IsBoundProvenance}
use conversation_blackboard.Execution.Audit.Stages.{IsClean, violate-unclean, judge-IsClean}
use conversation_blackboard.Execution.Audit.Authority.{
  audit_principal-IsClean, audit_capability-IsClean, audit_provenance-IsClean,
  audit_delegation-IsClean,
}

pub get_execution_receipt_sound :
    (db : Database) (p i : String) {receipt : ExecutionReceipt}
    → get_execution_receipt db p i ≡ some receipt
    → (receipt.participant_id ≡ p) × (receipt.intent_id ≡ i)
unfolding get_execution_receipt
get_execution_receipt_sound db p i {receipt = receipt} h =
    elim (Option-cases (find (is_receipt_of p i) db.execution_receipts)) [
      | inl gone ↦ let stuck = rw (gone, get_execution_receipt) at h in cc
      | inr (r, found) ↦
          let (m, own) = find_sound (is_receipt_of p i) db.execution_receipts found in
          let (q, j) = and-true _ _ own in
          let same = eq_of_some (rw (found, get_execution_receipt) at h) in
          (
            ap (λ x. x.participant_id) (sym same) ∙ (==_iff r.participant_id p).0 q,
            ap (λ x. x.intent_id) (sym same) ∙ (==_iff r.intent_id i).0 j,
          )
    ]

pub get_authorization_provenance_sound :
    (db : Database) (p i : String) {auth : AuthorizationProvenance}
    → get_authorization_provenance db p i ≡ some auth
    → (auth.participant_id ≡ p) × (auth.intent_id ≡ i)
unfolding get_authorization_provenance
get_authorization_provenance_sound db p i {auth = auth} h =
    elim (Option-cases (find (is_provenance_of p i) db.execution_authorization_provenance)) [
      | inl gone ↦ let stuck = rw (gone, get_authorization_provenance) at h in cc
      | inr (r, found) ↦
          let (m, own) =
            find_sound (is_provenance_of p i) db.execution_authorization_provenance found in
          let (q, j) = and-true _ _ own in
          let same = eq_of_some (rw (found, get_authorization_provenance) at h) in
          (
            ap (λ x. x.participant_id) (sym same) ∙ (==_iff r.participant_id p).0 q,
            ap (λ x. x.intent_id) (sym same) ∙ (==_iff r.intent_id i).0 j,
          )
    ]

-- A provenance that is counted can be read.
counted-proven :
    (db : Database) (p i : String)
    → count_rows (is_provenance_of p i) db.execution_authorization_provenance ≡ 1
    → (auth : AuthorizationProvenance) × (get_authorization_provenance db p i ≡ some auth)
unfolding get_authorization_provenance
counted-proven db p i one =
    let rows = db.execution_authorization_provenance in
    let counted = count_rows-exists (is_provenance_of p i) rows in
    let (r, m, own) = exists_row_sound (is_provenance_of p i) rows (ground arith) in
    let (s, found) = find-Memᴰ (is_provenance_of p i) rows m own in
    elim (Option-cases (get_authorization_provenance db p i)) [
      | inr proven ↦ proven
      | inl missing ↦ let stuck = rw (get_authorization_provenance, found) at missing in cc
    ]

-- A stage never takes a violation back.
audit_resource-keeps :
    (expected resource : Option String) (a : Audit)
    → IsClean (audit_resource expected resource a)
    → IsClean a
unfolding audit_resource
audit_resource-keeps expected none a h = absurd (violate-unclean _ a h)
audit_resource-keeps expected (some r) a h = elim (Bool-cases (is_blank r)) [
  | inl blank ↦ absurd (violate-unclean _ a (rw (blank, audit_resource) at h))
  | inr named ↦ ((judge-IsClean _ _ _ _).0 (rw (named, audit_resource) at h)).1
]

audit_provenance-keeps :
    (p i : String) (receipt : ExecutionReceipt) (expected : Option String)
    (auth : AuthorizationProvenance) (a : Audit)
    → auth.participant_id ≡ p
    → auth.intent_id ≡ i
    → IsClean (audit_provenance p i receipt expected (some auth) a)
    → IsClean a
unfolding audit_provenance
audit_provenance-keeps p i receipt expected auth a named keyed h =
    let same_p = (==_iff auth.participant_id p).1 named in
    let same_i = (==_iff auth.intent_id i).1 keyed in
    let h1 =
      audit_resource-keeps expected auth.resource _ (rw (same_p, same_i, audit_provenance) at h) in
    let h2 = ((audit_capability-IsClean receipt auth.capability _).0 h1).1 in
    ((audit_principal-IsClean auth.principal a).0 h2).1

-- What an accepted stage on the provenance has read.
pub record IsProven (db : Database) (p i : String) : Type 0 where
  pub single : count_rows (is_provenance_of p i) db.execution_authorization_provenance ≡ 1
  pub provenance : AuthorizationProvenance
  pub proven : get_authorization_provenance db p i ≡ some provenance

module _ (db : Database) (p i : String) (receipt : ExecutionReceipt) where
  audit_authorization-IsProven_inv :
      (expected : Option String) (a : Audit)
      → IsClean (audit_authorization db p i receipt expected a)
      → (e : IsProven db p i) × IsClean (
          audit_provenance p i receipt expected
            (some e.provenance)
            (check "authorization_provenance_present" a))
  unfolding audit_authorization
  audit_authorization-IsProven_inv expected a h =
      let count = count_rows (is_provenance_of p i) db.execution_authorization_provenance in
      elim (Bool-cases (count == 0)) [
        | inl nothing ↦ absurd (violate-unclean _ a (rw (nothing, audit_authorization) at h))
        | inr some_row ↦ elim (Bool-cases (count == 1)) [
          | inr many ↦ absurd (violate-unclean _ a (rw (some_row, many, audit_authorization) at h))
          | inl one ↦
              let single = (==_iff count 1).0 one in
              let (auth, proven) = counted-proven db p i single in
              (
                record { single = single; provenance = auth; proven = proven },
                rw (some_row, one, proven, audit_authorization) at h,
              )
        ]
      ]

  pub audit_authorization-keeps :
      (expected : Option String) (a : Audit)
      → IsClean (audit_authorization db p i receipt expected a)
      → IsClean a
  audit_authorization-keeps expected a h =
      let (e, clean) = audit_authorization-IsProven_inv expected a h in
      let (named, keyed) = get_authorization_provenance_sound db p i e.proven in
      audit_provenance-keeps p i receipt expected e.provenance _ named keyed clean

  -- The stage accepts just one provenance, bound to the receipt and to the message.
  pub audit_authorization-IsProven :
      (m : Message) (a : Audit)
      → IsClean (audit_authorization db p i receipt (some m.channel) a)
      → (e : IsProven db p i) × IsBoundProvenance receipt m e.provenance × IsClean a
  audit_authorization-IsProven m a h =
      let (e, rest) = audit_authorization-IsProven_inv (some m.channel) a h in
      let (named, keyed) = get_authorization_provenance_sound db p i e.proven in
      let (bound, clean) =
        (audit_provenance-IsClean p i receipt m e.provenance _ named keyed).0 rest in
      (e, bound, clean)

  pub IsProven-audit_authorization :
      (m : Message) (a : Audit) (e : IsProven db p i)
      → IsBoundProvenance receipt m e.provenance
      → IsClean a
      → IsClean (audit_authorization db p i receipt (some m.channel) a)
  unfolding audit_authorization
  IsProven-audit_authorization m a e bound clean =
      let (named, keyed) = get_authorization_provenance_sound db p i e.proven in
      rw (e.single, e.proven)
        ((audit_provenance-IsClean p i receipt m e.provenance _ named keyed).1 (bound, clean))

  pub audit_delegation-keeps :
      (auth : Option AuthorizationProvenance) (a : Audit)
      → IsClean (audit_delegation db receipt auth a)
      → IsClean a
  unfolding audit_delegation
  audit_delegation-keeps none a h = h
  audit_delegation-keeps (some auth) a h = ((audit_delegation-IsClean db receipt auth a).0 h).1
