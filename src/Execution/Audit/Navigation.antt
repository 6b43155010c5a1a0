-- ===== src/Execution/Audit/Navigation.antt =====
-- When the stage on the reservation leaves the violations empty: the rows that it falls back to are
-- never accepted.
use conversation_blackboard.Common.{
  ◌≡◌, ◌↔◌, Bool, true, ◌||◌, none, some, Bool-cases, Option-cases, inl, inr, List, and-true,
  and_intro, true-false, sym, ◌∙◌,
}
use conversation_blackboard.Common.Eq.{◌==◌, ==_iff, string_eq, nat_eq}
use conversation_blackboard.Sql.{select, first, find, order_by}
use conversation_blackboard.Sql.Laws.{find_sound, find-none, select_sound}
use conversation_blackboard.Sql.Order.{Memᴰ-first, Memᴰ-order_by}
use conversation_blackboard.Board.{NavigationWrite, Database, table_exists}
use conversation_blackboard.Messages.{is_reservation}
use conversation_blackboard.Execution.Types.{ExecutionReceipt}
use conversation_blackboard.Execution.Audit.{
  Audit, navigation_before, navigation_of, audit_reservation, audit_navigation,
}
use conversation_blackboard.Execution.Audit.Conditions.{IsBoundReservation}
use conversation_blackboard.Execution.Audit.Stages.{
  IsClean, violate-unclean, audit_reservation-IsClean, audit_reservation-foreign,
}

audit_reservation-missing :
    (receipt : ExecutionReceipt) (a : Audit) → ¬ IsClean (audit_reservation receipt none a)
unfolding audit_reservation
audit_reservation-missing receipt a = violate-unclean _ a

-- The reservation that an accepted stage has read.
pub record IsReserved (db : Database) (receipt : ExecutionReceipt) : Type 0 where
  pub reservable : table_exists db "navigation_writes" ≡ true
  pub reservation : NavigationWrite
  pub reserved :
      find (is_reservation receipt.participant_id receipt.intent_id) db.navigation_writes
      ≡ some reservation
  pub bound : IsBoundReservation receipt reservation

module _ (db : Database) (receipt : ExecutionReceipt) where
  abbrev of_receipt : NavigationWrite → Bool
  of_receipt = is_reservation receipt.participant_id receipt.intent_id

  abbrev fallback_rows : List NavigationWrite
  fallback_rows = order_by (navigation_before receipt.intent_id) (
      select (λ n. n.nonce == receipt.intent_id || n.message_id == receipt.message_id)
        db.navigation_writes)

  of_receipt_sound :
      (n : NavigationWrite)
      → of_receipt n ≡ true
      → (n.instance_id ≡ receipt.participant_id) × (n.nonce ≡ receipt.intent_id)
  of_receipt_sound n h =
      let (p, i) = and-true _ _ h in
      ((==_iff n.instance_id receipt.participant_id).0 p, (==_iff n.nonce receipt.intent_id).0 i)

  fallback-unclean :
      (a : Audit)
      → find of_receipt db.navigation_writes ≡ none
      → ¬ IsClean (audit_reservation receipt (first fallback_rows) a)
  fallback-unclean a gone h = elim (Option-cases (first fallback_rows)) [
    | inl empty ↦ audit_reservation-missing receipt a (rw empty at h)
    | inr (n, fallen) ↦
        let (p, i) = audit_reservation-foreign receipt n a (rw fallen at h) in
        let (m, q) =
          select_sound _ db.navigation_writes
            (Memᴰ-order_by (navigation_before receipt.intent_id) _ (Memᴰ-first _ fallen)) in
        let own : of_receipt n ≡ true =
          and_intro ((==_iff n.instance_id receipt.participant_id).1 p)
            ((==_iff n.nonce receipt.intent_id).1 i) in
        true-false (sym own ∙ find-none of_receipt db.navigation_writes gone m)
  ]

  audit_navigation-IsReserved :
      (a : Audit)
      → IsClean (audit_navigation db receipt.participant_id receipt.intent_id receipt a)
      → IsReserved db receipt × IsClean a
  unfolding audit_navigation navigation_of
  audit_navigation-IsReserved a h = elim (Bool-cases (table_exists db "navigation_writes")) [
    | inr gone ↦ absurd (violate-unclean _ a (rw (gone, audit_navigation) at h))
    | inl there ↦ elim (Option-cases (find of_receipt db.navigation_writes)) [
      | inl missing ↦
          absurd
            (fallback-unclean a missing (rw (there, missing, audit_navigation, navigation_of) at h))
      | inr (n, found) ↦
          let (m, own) = find_sound of_receipt db.navigation_writes found in
          let (p, i) = of_receipt_sound n own in
          let (bound, clean) =
            (audit_reservation-IsClean receipt n a p i).0
              (rw (there, found, audit_navigation, navigation_of) at h) in
          (record { reservable = there; reservation = n; reserved = found; bound = bound }, clean)
    ]
  ]

  pub audit_navigation-IsClean :
      (a : Audit)
      → IsClean (audit_navigation db receipt.participant_id receipt.intent_id receipt a)
        ↔ (IsReserved db receipt × IsClean a)
  unfolding audit_navigation navigation_of
  audit_navigation-IsClean a = (
    audit_navigation-IsReserved a,
    λ (r, clean).
        let (m, own) = find_sound of_receipt db.navigation_writes r.reserved in
        let (p, i) = of_receipt_sound r.reservation own in
        rw (r.reservable, navigation_of, r.reserved)
          ((audit_reservation-IsClean receipt r.reservation a p i).1 (r.bound, clean)),
  )
