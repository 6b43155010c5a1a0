-- ===== src/Execution/Audit/Scan.antt =====
-- The loop over the ingress rows, in closed form, and when the stage that it ends leaves the
-- violations empty.
use conversation_blackboard.Common.{
  suc, ◌+◌, String, ◌≡◌, ◌≢◌, refl, ◌↔◌, Bool, true, false, ◌&&◌, ◌||◌, List, [], ◌∷◌, arith, sym,
  ap, ◌∙◌, if◌then◌else◌, Memᴰ,
}
use conversation_blackboard.Common.Eq.{◌==◌, string_eq, nat_eq}
use conversation_blackboard.Sql.{count_rows, exists_row}
use conversation_blackboard.Sql.Laws.{select_sound}
use conversation_blackboard.Sql.Order.{Memᴰ-order_by}
use conversation_blackboard.Sql.Exists.{exists_row-ordered, count_rows-exists}
use conversation_blackboard.Board.{IngressRow, Database}
use conversation_blackboard.Execution.Audit.{Audit, violate}
use conversation_blackboard.Execution.Audit.Ingress.{
  IngressScan, has_blank_metadata, scan_target, scan_row, scan_ingress, conclude_ingress,
  ingress_rows, audit_ingress, delivery_before,
}
use conversation_blackboard.Execution.Audit.Conditions.{is_unbound, is_targeted, IsBoundIngress}
use conversation_blackboard.Execution.Audit.Stages.{IsClean, violate-unclean}

abbrev is_undescribed : String → IngressRow → Bool
is_undescribed participant_id r = is_targeted participant_id r && has_blank_metadata r

-- What the rows add to what was scanned before.
abbrev with_rows : String → List IngressRow → IngressScan → IngressScan
with_rows participant_id rows s = record {
  audit = s.audit;
  metadata_invalid = s.metadata_invalid || exists_row (is_undescribed participant_id) rows;
  participant_unbound = s.participant_unbound || exists_row is_unbound rows;
  target_count = s.target_count + count_rows (is_targeted participant_id) rows;
}

scan_row_lem :
    (participant_id intent_id : String) (r : IngressRow) (s : IngressScan)
    → r.intent_id == intent_id ≡ true
    → scan_row participant_id intent_id r s ≡ record {
      audit = s.audit;
      metadata_invalid = s.metadata_invalid || is_undescribed participant_id r;
      participant_unbound = s.participant_unbound || is_unbound r;
      target_count = if is_targeted participant_id r then suc s.target_count else s.target_count;
    }
unfolding scan_row scan_target
scan_row_lem participant_id intent_id r s h = ground arith

scan_ingress-with_rows :
    (participant_id intent_id : String) (rows : List IngressRow) (s : IngressScan)
    → ((r : IngressRow) → Memᴰ r rows → r.intent_id == intent_id ≡ true)
    → scan_ingress participant_id intent_id rows s ≡ with_rows participant_id rows s
unfolding scan_ingress exists_row count_rows
scan_ingress-with_rows participant_id intent_id [] s h = ground arith
scan_ingress-with_rows participant_id intent_id (r ∷ rows) s h =
    let first_row = scan_row_lem participant_id intent_id r s (h r (Memᴰ.head refl)) in
    let rest =
      scan_ingress-with_rows participant_id intent_id rows (scan_row participant_id intent_id r s)
        (λ q m. h q (Memᴰ.tail m)) in
    rest ∙ ap (with_rows participant_id rows) first_row ∙ ground arith

conclude_ingress-IsClean :
    (s : IngressScan)
    → IsClean (conclude_ingress s) ↔ (
        (s.participant_unbound ≡ false)
        × (s.target_count ≢ 0)
        × (s.metadata_invalid ≡ false)
        × IsClean s.audit)
unfolding conclude_ingress exists_row
conclude_ingress-IsClean s =
    let u : Audit = violate "ingress_participant_unbound" s.audit in
    let clean_u = violate-unclean "ingress_participant_unbound" s.audit in
    let clean_m = violate-unclean "ingress_missing" s.audit in
    let clean_um = violate-unclean "ingress_missing" u in
    let clean_i = violate-unclean "ingress_metadata_invalid" s.audit in
    let clean_ui = violate-unclean "ingress_metadata_invalid" u in
    let clean_mi = violate-unclean "ingress_metadata_invalid" (violate "ingress_missing" s.audit) in
    let clean_umi = violate-unclean "ingress_metadata_invalid" (violate "ingress_missing" u) in
    ground arith

ingress_rows-named :
    (db : Database) (intent_id : String) (r : IngressRow)
    → Memᴰ r (ingress_rows db intent_id)
    → r.intent_id == intent_id ≡ true
unfolding ingress_rows
ingress_rows-named db intent_id r m = (select_sound _ _ (Memᴰ-order_by delivery_before _ m)).1

abbrev unscanned : Audit → IngressScan
unscanned a = record {
  audit = a;
  metadata_invalid = false;
  participant_unbound = false;
  target_count = 0;
}

module _ (db : Database) (participant_id intent_id : String) where
  -- A test on the rows of the intent, as a test on the table.
  on_table :
      (q : IngressRow → Bool)
      → exists_row q (ingress_rows db intent_id)
        ≡ exists_row (λ r. r.intent_id == intent_id && q r) db.ingress_provenance
  unfolding ingress_rows
  on_table q =
      exists_row-ordered q (λ r. r.intent_id == intent_id) delivery_before db.ingress_provenance

  scanned-IsBoundIngress :
      (a : Audit)
      → IsClean
          (conclude_ingress (with_rows participant_id (ingress_rows db intent_id) (unscanned a)))
        ↔ (IsBoundIngress db participant_id intent_id × IsClean a)
  scanned-IsBoundIngress a =
      let judged =
        conclude_ingress-IsClean
          (with_rows participant_id (ingress_rows db intent_id) (unscanned a)) in
      let counted = count_rows-exists (is_targeted participant_id) (ingress_rows db intent_id) in
      let unbound = on_table is_unbound in
      let targeted = on_table (is_targeted participant_id) in
      let undescribed = on_table (is_undescribed participant_id) in
      (
        λ h.
            let (u, c, m, clean) = judged.0 h in
            (
              record {
                bound = sym unbound ∙ u;
                arrived = sym targeted ∙ ground arith;
                described = sym undescribed ∙ m;
              },
              clean,
            ),
        λ (b, clean).
            let some_row = targeted ∙ b.arrived in
            judged.1 (unbound ∙ b.bound, ground arith, undescribed ∙ b.described, clean),
      )

  pub audit_ingress-IsClean :
      (a : Audit)
      → IsClean (audit_ingress db participant_id intent_id a)
        ↔ (IsBoundIngress db participant_id intent_id × IsClean a)
  unfolding audit_ingress
  audit_ingress-IsClean a =
      rw
        (scan_ingress-with_rows participant_id intent_id (ingress_rows db intent_id) (unscanned a)
          (ingress_rows-named db intent_id))
        (scanned-IsBoundIngress a)
