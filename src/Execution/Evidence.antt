-- ===== src/Execution/Evidence.antt =====
-- The evidence that a recorded execution leaves: its delivery and its receipt.
use conversation_blackboard.Common.{
  ℕ, ◌≡◌, ap, ◌∙◌, inl, inr, true, some, [], ◌∷◌, ◌++◌, arith, Option-cases, and_intro,
}
use conversation_blackboard.Common.Eq.{==_refl, string_eq, nat_eq, option_eq}
use conversation_blackboard.Sql.{ok, find}
use conversation_blackboard.Sql.Laws.{find-append_last}
use conversation_blackboard.Board.{IngressRow, Database}
use conversation_blackboard.Execution.Types.{IngressProvenance, ExecutionReceipt}
use conversation_blackboard.Execution.Record.{
  is_delivery, is_same_delivery, delivery_row, record_delivery, record_receipt,
  record_execution_in_tx,
}
use conversation_blackboard.Execution.Frames.{bind-ok, record_receipt-frame}
use conversation_blackboard.Execution.Effects.{record_execution-found}
use conversation_blackboard.Execution.Settled.{Evidenced}

record_delivery-found :
    (now : ℕ) (ingress : IngressProvenance) (receipt : ExecutionReceipt) (db : Database)
    {db' : Database}
    → record_delivery now ingress receipt db ≡ ok db'
    → (r : IngressRow) × (find (is_delivery ingress.delivery_id) db'.ingress_provenance ≡ some r)
      × (is_same_delivery ingress receipt r ≡ true)
unfolding record_delivery
record_delivery-found now ingress receipt db {db' = db'} h =
    elim (Option-cases (find (is_delivery ingress.delivery_id) db.ingress_provenance)) [
      | inr (old, found) ↦
          let same : is_same_delivery ingress receipt old ≡ true = ground arith in
          let kept : db ≡ db' = ground arith in (old, rw (← kept) found, same)
      | inl new ↦
          let kept : db.ingress_provenance ++ delivery_row now ingress receipt ∷ []
              ≡ db'.ingress_provenance =
            ground arith in
          (
            delivery_row now ingress receipt,
            rw (← kept) (
                find-append_last (is_delivery ingress.delivery_id) db.ingress_provenance
                  (delivery_row now ingress receipt) new (==_refl ingress.delivery_id)),
            unfold is_same_delivery in
                and_intro
                  (and_intro
                    (and_intro
                      (and_intro
                        (and_intro (==_refl (some receipt.participant_id))
                          (==_refl ingress.intent_id))
                        (==_refl ingress.transport))
                      (==_refl ingress.external_ref))
                    (==_refl ingress.principal.provider))
                  (==_refl ingress.principal.subject),
          )
    ]

pub record_execution-Evidenced :
    (now : ℕ) (ingress : IngressProvenance) (receipt : ExecutionReceipt) (db : Database)
    {db' : Database}
    → record_execution_in_tx now ingress receipt db ≡ ok db'
    → Evidenced ingress receipt db'
unfolding record_execution_in_tx
record_execution-Evidenced now ingress receipt db h =
    let (db1, e1, e2) =
      bind-ok (record_delivery now ingress receipt db) (record_receipt now receipt) h in
    let (d, delivered, same_d) = record_delivery-found now ingress receipt db e1 in
    let frame = record_receipt-frame now receipt db1 e2 in
    let (r, receipted, same_r) = record_execution-found now ingress receipt db h in
    record {
      delivery = d;
      delivered =
          ap (λ (x : Database). find (is_delivery ingress.delivery_id) x.ingress_provenance) frame
          ∙ delivered;
      same_delivery = same_d;
      stored_receipt = r;
      receipted = receipted;
      same_receipt = same_r;
    }

-- Only two tables hold the evidence.
pub Evidenced-frame :
    (ingress : IngressProvenance) (receipt : ExecutionReceipt) (a b : Database)
    → b.ingress_provenance ≡ a.ingress_provenance
    → b.execution_receipts ≡ a.execution_receipts
    → Evidenced ingress receipt a
    → Evidenced ingress receipt b
Evidenced-frame ingress receipt a b i r e = record {
  delivery = e.delivery;
  delivered = rw i e.delivered;
  same_delivery = e.same_delivery;
  stored_receipt = e.stored_receipt;
  receipted = rw r e.receipted;
  same_receipt = e.same_receipt;
}
