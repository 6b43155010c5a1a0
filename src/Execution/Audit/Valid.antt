-- ===== src/Execution/Audit/Valid.antt =====
-- The verdict of an execution audit: valid just for a committed execution with all its evidence.
use conversation_blackboard.Common.{
  String, ◌≡◌, refl, ◌↔◌, true, none, some, Option-cases, eq_of_some, inl, inr, List, [], ◌∷◌,
  subst, ap, ◌∙◌, sym,
}
use conversation_blackboard.Sql.{find}
use conversation_blackboard.Board.{Database}
use conversation_blackboard.Messages.{has_message_id}
use conversation_blackboard.Execution.Types.{ExecutionReceipt}
use conversation_blackboard.Execution.Record.{get_execution_receipt, get_authorization_provenance}
use conversation_blackboard.Execution.Execute.{RequestHash}
use conversation_blackboard.Execution.Audit.{Audit, audit_effect}
use conversation_blackboard.Execution.Audit.Ingress.{
  is_unblemished, report_of, audit_of_receipt, verify_execution_audit_integrity,
}
use conversation_blackboard.Execution.Audit.Conditions.{IsSoundEvidence}
use conversation_blackboard.Execution.Audit.Stages.{
  IsClean, violate-unclean, audit_receipt-IsClean, audit_effect-IsClean,
}
use conversation_blackboard.Execution.Audit.Authority.{audit_delegation-IsClean}
use conversation_blackboard.Execution.Audit.Scan.{audit_ingress-IsClean}
use conversation_blackboard.Execution.Audit.Navigation.{IsReserved, audit_navigation-IsClean}
use conversation_blackboard.Execution.Audit.Presence.{
  get_execution_receipt_sound, IsProven, audit_authorization-keeps, audit_authorization-IsProven,
  IsProven-audit_authorization, audit_delegation-keeps,
}

is_unblemished_iff : (vs : List String) → (is_unblemished vs ≡ true) ↔ (vs ≡ [])
is_unblemished_iff [] = (λ h. refl, λ h. refl)
is_unblemished_iff (v ∷ vs) = (λ h. cc, λ h. cc)

report_of-valid : (p i : String) (a : Audit) → ((report_of p i a).valid ≡ true) ↔ IsClean a
unfolding report_of
report_of-valid p i a = is_unblemished_iff a.violations

audit_effect-missing :
    (hash : RequestHash) (p : String) (receipt : ExecutionReceipt) (a : Audit)
    → ¬ IsClean (audit_effect hash p receipt none a)
unfolding audit_effect
audit_effect-missing hash p receipt a = violate-unclean _ a

module _ (hash : RequestHash) (db : Database) where
  abbrev audited : ExecutionReceipt → Audit
  audited receipt = audit_of_receipt hash db receipt.participant_id receipt.intent_id receipt

  -- Without the message, the stage on it fails, and no later stage takes that back.
  audited-effect :
      (receipt : ExecutionReceipt)
      → find (has_message_id receipt.message_id) db.messages ≡ none
      → ¬ IsClean (audited receipt)
  unfolding audit_of_receipt
  audited-effect receipt gone h =
      let p = receipt.participant_id in
      let i = receipt.intent_id in
      let (ingress, h1) = (audit_ingress-IsClean db p i _).0 h in
      let h2 = audit_delegation-keeps db p i receipt (get_authorization_provenance db p i) _ h1 in
      let h3 = audit_authorization-keeps db p i receipt _ _ h2 in
      let (reserved, h4) = (audit_navigation-IsClean db receipt _).0 h3 in
      audit_effect-missing hash p receipt _ (rw gone at h4)

  audited-IsSoundEvidence :
      (receipt : ExecutionReceipt) → IsClean (audited receipt) → IsSoundEvidence hash db receipt
  unfolding audit_of_receipt
  audited-IsSoundEvidence receipt h =
      let p = receipt.participant_id in
      let i = receipt.intent_id in
      elim (Option-cases (find (has_message_id receipt.message_id) db.messages)) [
        | inl gone ↦ absurd (audited-effect receipt gone h)
        | inr (m, found) ↦
            let (ingress, h1) = (audit_ingress-IsClean db p i _).0 h in
            let h2 =
              audit_delegation-keeps db p i receipt (get_authorization_provenance db p i) _ h1 in
            let (e, bound, h3) = audit_authorization-IsProven db p i receipt m _ (rw found at h2) in
            let (delegation, _) =
              (audit_delegation-IsClean db receipt e.provenance _).0 (rw e.proven at h1) in
            let (reserved, h4) = (audit_navigation-IsClean db receipt _).0 h3 in
            let (effect, h5) = (audit_effect-IsClean hash p receipt m _).0 h4 in
            let (committed, _) = (audit_receipt-IsClean p i receipt _ refl refl).0 h5 in
            record {
              committed = committed;
              message = m;
              effect = found;
              bound_effect = effect;
              reservable = reserved.reservable;
              reservation = reserved.reservation;
              reserved = reserved.reserved;
              bound_reservation = reserved.bound;
              single = e.single;
              provenance = e.provenance;
              proven = e.proven;
              bound_provenance = bound;
              bound_delegation = delegation;
              bound_ingress = ingress;
            }
      ]

  IsSoundEvidence-audited :
      (receipt : ExecutionReceipt) → IsSoundEvidence hash db receipt → IsClean (audited receipt)
  unfolding audit_of_receipt
  IsSoundEvidence-audited receipt s =
      let p = receipt.participant_id in
      let i = receipt.intent_id in
      let reserved : IsReserved db receipt = record {
        reservable = s.reservable;
        reservation = s.reservation;
        reserved = s.reserved;
        bound = s.bound_reservation;
      } in
      let e : IsProven db p i = record {
        single = s.single;
        provenance = s.provenance;
        proven = s.proven;
      } in
      rw (s.effect, s.proven)
        ((audit_ingress-IsClean db p i _).1 (
          s.bound_ingress,
          (audit_delegation-IsClean db receipt s.provenance _).1 (
            s.bound_delegation,
            IsProven-audit_authorization db p i receipt s.message _ e s.bound_provenance (
                (audit_navigation-IsClean db receipt _).1 (
                  reserved,
                  (audit_effect-IsClean hash p receipt s.message _).1 (
                    s.bound_effect,
                    (audit_receipt-IsClean p i receipt _ refl refl).1 (s.committed, refl),
                  ),
                )),
          ),
        ))

  reported :
      (p i : String) (receipt : ExecutionReceipt)
      → get_execution_receipt db p i ≡ some receipt
      → audit_of_receipt hash db p i receipt ≡ audited receipt
  reported p i receipt found =
      let (same_p, same_i) = get_execution_receipt_sound db p i found in
      ap (λ q. audit_of_receipt hash db q i receipt) (sym same_p)
      ∙ ap (λ j. audit_of_receipt hash db receipt.participant_id j receipt) (sym same_i)

  -- An audit reports an execution as valid if and only if there is a committed receipt of the intent,
  -- its message is the participant's and hashes to its hash, the intent's own reservation names both,
  -- there is just one provenance, which binds a principal, the capability and the channel, a delegated
  -- grant that it rests on is there, fits and, if one-shot, was consumed by the intent, and of the
  -- intent's deliveries none is unbound, one is the participant's, and those have no blank metadata.
  pub verify_execution_audit_integrity-valid :
      (p i : String)
      → ((verify_execution_audit_integrity hash db p i).valid ≡ true) ↔ (
          (receipt : ExecutionReceipt) × (get_execution_receipt db p i ≡ some receipt)
          × IsSoundEvidence hash db receipt)
  unfolding verify_execution_audit_integrity
  verify_execution_audit_integrity-valid p i = elim (Option-cases (get_execution_receipt db p i)) [
    | inl gone ↦ rw (verify_execution_audit_integrity, gone) (λ h. cc, λ (receipt, found, s). cc)
    | inr (r, found) ↦
        rw (verify_execution_audit_integrity, found)
          (
            λ h.
                let clean = (report_of-valid p i (audit_of_receipt hash db p i r)).0 h in
                (r, refl, audited-IsSoundEvidence r (subst IsClean (reported p i r found) clean)),
            λ (receipt, same, s). (report_of-valid p i (audit_of_receipt hash db p i r)).1 (
                subst IsClean (sym (reported p i r found)) (
                  subst (λ x. IsClean (audited x)) (sym (eq_of_some same))
                    (IsSoundEvidence-audited receipt s))),
          )
  ]
