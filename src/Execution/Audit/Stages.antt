-- ===== src/Execution/Audit/Stages.antt =====
-- When each stage of the audit leaves the violations empty.
use conversation_blackboard.Common.{
  String, ◌≡◌, refl, ◌↔◌, Bool, true, false, some, List, [], ◌∷◌, ◌++◌, arith, and-true, and_intro,
}
use conversation_blackboard.Common.Eq.{◌==◌, ==_iff, string_eq, nat_eq, option_eq}
use conversation_blackboard.Board.{Message, NavigationWrite}
use conversation_blackboard.Execution.Types.{ExecutionReceipt}
use conversation_blackboard.Execution.Execute.{RequestHash}
use conversation_blackboard.Execution.Audit.{
  Audit, violate, judge, audit_receipt, audit_effect, audit_reservation,
}
use conversation_blackboard.Execution.Audit.Conditions.{IsBoundEffect, IsBoundReservation}

-- Nothing has been found wrong.
abbrev pub IsClean : Audit → Type 0
IsClean a = a.violations ≡ []

pub append-not_nil : (vs : List String) (v : String) → ¬ (vs ++ v ∷ [] ≡ [])
append-not_nil [] v h = cc
append-not_nil (w ∷ vs) v h = cc

pub violate-unclean : (v : String) (a : Audit) → ¬ IsClean (violate v a)
violate-unclean v a = append-not_nil a.violations v

pub judge-IsClean :
    (b : Bool) (c v : String) (a : Audit) → IsClean (judge b c v a) ↔ ((b ≡ true) × IsClean a)
unfolding judge
judge-IsClean true c v a = (λ h. (refl, h), λ h. h.1)
judge-IsClean false c v a = (λ h. absurd (violate-unclean v a h), λ h. absurd (ground (arith, h.0)))

pub audit_receipt-IsClean :
    (participant_id intent_id : String) (receipt : ExecutionReceipt) (a : Audit)
    → receipt.participant_id ≡ participant_id
    → receipt.intent_id ≡ intent_id
    → IsClean (audit_receipt participant_id intent_id receipt a)
      ↔ ((receipt.status ≡ "committed") × IsClean a)
unfolding audit_receipt
audit_receipt-IsClean participant_id intent_id receipt a p i =
    let status = ==_iff receipt.status "committed" in
    let same_p = (==_iff receipt.participant_id participant_id).1 p in
    let same_i = (==_iff receipt.intent_id intent_id).1 i in
    let judged =
      judge-IsClean (receipt.status == "committed") "receipt_status_committed"
        "invalid_receipt_status" a in
    rw (same_p, same_i) (ground arith)

pub audit_effect-IsClean :
    (hash : RequestHash) (participant_id : String) (receipt : ExecutionReceipt) (m : Message)
    (a : Audit)
    → IsClean (audit_effect hash participant_id receipt (some m) a)
      ↔ (IsBoundEffect hash participant_id receipt m × IsClean a)
unfolding audit_effect
audit_effect-IsClean hash participant_id receipt m a =
    let author = ==_iff m.instance_id participant_id in
    let hashed =
      ==_iff receipt.intent_hash (hash m.channel m.kind m.body m.conversation_ref m.reply_to) in
    (
      λ h.
          let (same_hash, rest) = (judge-IsClean _ _ _ _).0 h in
          let (same_author, clean) = (judge-IsClean _ _ _ _).0 rest in
          (record { author = author.0 same_author; hashed = hashed.0 same_hash }, clean),
      λ (bound, clean).
          (judge-IsClean _ _ _ _).1
            (hashed.1 bound.hashed, (judge-IsClean _ _ _ _).1 (author.1 bound.author, clean)),
    )

pub audit_reservation-IsClean :
    (receipt : ExecutionReceipt) (n : NavigationWrite) (a : Audit)
    → n.instance_id ≡ receipt.participant_id
    → n.nonce ≡ receipt.intent_id
    → IsClean (audit_reservation receipt (some n) a) ↔ (IsBoundReservation receipt n × IsClean a)
unfolding audit_reservation
audit_reservation-IsClean receipt n a p i =
    let same_p = (==_iff n.instance_id receipt.participant_id).1 p in
    let same_i = (==_iff n.nonce receipt.intent_id).1 i in
    let names = ==_iff n.message_id receipt.message_id in
    let hashed = ==_iff n.request_hash receipt.intent_hash in
    (
      λ h.
          let (same_hash, rest) = (judge-IsClean _ _ _ _).0 h in
          let (binding, clean) = (judge-IsClean _ _ _ _).0 rest in
          (
            record { names = names.0 ((and-true _ _ binding).1); hashed = hashed.0 same_hash },
            clean,
          ),
      λ (bound, clean). (judge-IsClean _ _ _ _).1 (
        hashed.1 bound.hashed,
        (judge-IsClean _ _ _ _).1
            (and_intro (and_intro same_p same_i) (names.1 bound.names), clean),
      ),
    )

-- A reservation of another intent is never accepted.
pub audit_reservation-foreign :
    (receipt : ExecutionReceipt) (n : NavigationWrite) (a : Audit)
    → IsClean (audit_reservation receipt (some n) a)
    → (n.instance_id ≡ receipt.participant_id) × (n.nonce ≡ receipt.intent_id)
unfolding audit_reservation
audit_reservation-foreign receipt n a h =
    let (binding, clean) = (judge-IsClean _ _ _ _).0 ((judge-IsClean _ _ _ _).0 h).1 in
    let (key, named) = and-true _ _ binding in
    let (same_p, same_i) = and-true _ _ key in
    (
      (==_iff n.instance_id receipt.participant_id).0 same_p,
      (==_iff n.nonce receipt.intent_id).0 same_i,
    )
