-- ===== src/Execution/Audit/Swept.antt =====
-- The verdict of a sweep: every execution passes its audit, and all evidence belongs to an execution.
use conversation_blackboard.Common.{
  String, ◌≡◌, refl, sym, ap, subst, ◌∙◌, ◌↔◌, inl, inr, Bool, true, false, not, some, List, [],
  ◌∷◌, ◌++◌, map, Memᴰ, Bool-cases, Option-cases, and-true, and_intro, true-false, eq_of_some,
  arith,
}
use conversation_blackboard.Sql.{select, order_by}
use conversation_blackboard.Sql.Empty.{append-nil, order_by-nil, select-nil, map-nil}
use conversation_blackboard.Sql.Order.{order_by-Memᴰ, Memᴰ-order_by}
use conversation_blackboard.Board.{IngressRow, ReceiptRow, ProvenanceRow, NavigationWrite, Database}
use conversation_blackboard.Execution.Execute.{RequestHash}
use conversation_blackboard.Execution.Audit.{is_blank}
use conversation_blackboard.Execution.Audit.Ingress.{verify_execution_audit_integrity}
use conversation_blackboard.Execution.Audit.Sweep.{
  has_receipt, swept_receipts, invalid_reports, provenance_orphans, ingress_orphan,
  ingress_orphans_of, ingress_orphans, navigation_orphans, orphans, is_nil, receipt_before,
  delivery_before, orphan_before, sweep_execution_audit_integrity,
}

is_nil_iff : {A : Type 0} (xs : List A) → (is_nil xs ≡ true) ↔ (xs ≡ [])
is_nil_iff [] = (λ h. refl, λ h. refl)
is_nil_iff (x ∷ xs) = (λ h. cc, λ h. cc)

not-not : (b : Bool) → (not b ≡ false) ↔ (b ≡ true)
not-not b = ground arith

-- The delivery names a participant, and a receipt of it has the intent.
abbrev pub IsAttached : Database → IngressRow → Type 0
IsAttached db i =
    (p : String) × (i.participant_id ≡ some p)
    × (is_blank p ≡ false)
    × (has_receipt db p i.intent_id ≡ true)

-- Every execution passes its audit, and every row of evidence belongs to an execution.
pub record IsSwept (hash : RequestHash) (db : Database) : Type 0 where
  pub executions :
      (r : ReceiptRow)
      → Memᴰ r db.execution_receipts
      → (verify_execution_audit_integrity hash db r.participant_id r.intent_id).valid ≡ true
  pub provenance :
      (a : ProvenanceRow)
      → Memᴰ a db.execution_authorization_provenance
      → has_receipt db a.participant_id a.intent_id ≡ true
  pub deliveries : (i : IngressRow) → Memᴰ i db.ingress_provenance → IsAttached db i
  pub reservations :
      (n : NavigationWrite)
      → Memᴰ n db.navigation_writes
      → has_receipt db n.instance_id n.nonce ≡ true

module _ (hash : RequestHash) (db : Database) where
  invalid_reports-nil :
      (rs : List ReceiptRow)
      → (invalid_reports hash db rs ≡ []) ↔ (
          (r : ReceiptRow)
          → Memᴰ r rs
          → (verify_execution_audit_integrity hash db r.participant_id r.intent_id).valid ≡ true)
  unfolding invalid_reports
  invalid_reports-nil [] = (λ h r m. elim m [ ], λ h. refl)
  invalid_reports-nil (x ∷ rs) =
      let (down, up) = invalid_reports-nil rs in
      elim (Bool-cases
        ((verify_execution_audit_integrity hash db x.participant_id x.intent_id).valid)) [
          | inl valid ↦
              rw (invalid_reports, valid)
                (
                  λ h r m. elim m [
                    | Memᴰ.head e ↦
                        ap
                          (λ (y : ReceiptRow).
                            (verify_execution_audit_integrity hash db y.participant_id
                              y.intent_id).valid)
                          e
                        ∙ valid
                    | Memᴰ.tail n ↦ down h r n
                  ],
                  λ h. up (λ r m. h r (Memᴰ.tail m)),
                )
          | inr failed ↦
              rw (invalid_reports, failed)
                (λ h. cc, λ h. absurd (true-false (sym (h x (Memᴰ.head refl)) ∙ failed)))
        ]

module _ (db : Database) where
  ingress_orphan-nil : (i : IngressRow) → (ingress_orphan db i ≡ []) ↔ IsAttached db i
  unfolding ingress_orphan
  ingress_orphan-nil i = elim (Option-cases i.participant_id) [
    | inl unbound ↦ rw (ingress_orphan, unbound) (λ h. cc, λ (q, e, named, there). let is = e in cc)
    | inr (p, bound) ↦ elim (Bool-cases (is_blank p)) [
      | inl blank ↦
          rw (ingress_orphan, bound, blank)
            (
              λ h. cc,
              λ (q, e, named, there).
                  let same : p ≡ q = eq_of_some e in
                  absurd (true-false (sym blank ∙ ap is_blank same ∙ named)),
            )
      | inr named ↦ elim (Bool-cases (has_receipt db p i.intent_id)) [
        | inl there ↦
            rw (ingress_orphan, bound, named, there) (λ h. (p, refl, named, there), λ h. refl)
        | inr gone ↦
            rw (ingress_orphan, bound, named, gone)
              (
                λ h. cc,
                λ (q, e, known, there).
                    let same : p ≡ q = eq_of_some e in
                    absurd (
                      true-false
                        (sym there ∙ ap (λ x. has_receipt db x i.intent_id) (sym same) ∙ gone)),
              )
      ]
    ]
  ]

  ingress_orphans_of-nil :
      (is : List IngressRow)
      → (ingress_orphans_of db is ≡ []) ↔ ((i : IngressRow) → Memᴰ i is → IsAttached db i)
  unfolding ingress_orphans_of
  ingress_orphans_of-nil [] = (λ h i m. elim m [ ], λ h. refl)
  ingress_orphans_of-nil (x ∷ is) =
      let (down, up) = ingress_orphans_of-nil is in
      let (split, join) = append-nil (ingress_orphan db x) (ingress_orphans_of db is) in
      let (attached, unattached) = ingress_orphan-nil x in
      (
        λ h i m. elim m [
          | Memᴰ.head e ↦ subst (IsAttached db) (sym e) (attached (split h).0)
          | Memᴰ.tail n ↦ down (split h).1 i n
        ],
        λ h. join (unattached (h x (Memᴰ.head refl)), up (λ i m. h i (Memᴰ.tail m))),
      )

module _ (hash : RequestHash) (db : Database) where
  invalid_reports-swept : (invalid_reports hash db (swept_receipts db) ≡ []) ↔ (
      (r : ReceiptRow)
      → Memᴰ r db.execution_receipts
      → (verify_execution_audit_integrity hash db r.participant_id r.intent_id).valid ≡ true)
  unfolding swept_receipts
  invalid_reports-swept =
      let (down, up) = invalid_reports-nil hash db (swept_receipts db) in
      (
        λ h r m. down h r (order_by-Memᴰ receipt_before db.execution_receipts m),
        λ h. up (λ r m. h r (Memᴰ-order_by receipt_before db.execution_receipts m)),
      )

-- Rows that a query selects for having no receipt: none, if and only if all rows have one.
unreceipted-nil :
    {A B : Type 0} (f : A → B) (before : A → A → Bool) (has : A → Bool) (xs : List A)
    → (map f (order_by before (select (λ a. not (has a)) xs)) ≡ [])
      ↔ ((a : A) → Memᴰ a xs → has a ≡ true)
unreceipted-nil f before has xs =
    let (unmap, remap) = map-nil f (order_by before (select (λ a. not (has a)) xs)) in
    let (unsort, sort) = order_by-nil before (select (λ a. not (has a)) xs) in
    let (all, none_left) = select-nil (λ a. not (has a)) xs in
    (
      λ h a m. (not-not (has a)).0 (all (unsort (unmap h)) a m),
      λ h. remap (sort (none_left (λ a m. (not-not (has a)).1 (h a m)))),
    )

module _ (db : Database) where
  provenance_orphans-nil : (provenance_orphans db ≡ []) ↔ (
      (a : ProvenanceRow)
      → Memᴰ a db.execution_authorization_provenance
      → has_receipt db a.participant_id a.intent_id ≡ true)
  unfolding provenance_orphans
  provenance_orphans-nil =
      unreceipted-nil _ _ (λ a. has_receipt db a.participant_id a.intent_id)
        db.execution_authorization_provenance

  navigation_orphans-nil : (navigation_orphans db ≡ []) ↔ (
      (n : NavigationWrite)
      → Memᴰ n db.navigation_writes
      → has_receipt db n.instance_id n.nonce ≡ true)
  unfolding navigation_orphans
  navigation_orphans-nil =
      unreceipted-nil _ _ (λ n. has_receipt db n.instance_id n.nonce) db.navigation_writes

  ingress_orphans-nil :
      (ingress_orphans db ≡ [])
      ↔ ((i : IngressRow) → Memᴰ i db.ingress_provenance → IsAttached db i)
  unfolding ingress_orphans
  ingress_orphans-nil =
      let (down, up) = ingress_orphans_of-nil db (order_by delivery_before db.ingress_provenance) in
      (
        λ h i m. down h i (order_by-Memᴰ delivery_before db.ingress_provenance m),
        λ h. up (λ i m. h i (Memᴰ-order_by delivery_before db.ingress_provenance m)),
      )

  orphans-nil :
      (orphans db ≡ [])
      ↔ (((provenance_orphans db ≡ []) × (ingress_orphans db ≡ [])) × (navigation_orphans db ≡ []))
  unfolding orphans
  orphans-nil =
      let (unsort, sort) =
        order_by-nil orphan_before
          ((provenance_orphans db ++ ingress_orphans db) ++ navigation_orphans db) in
      let (outer, join_outer) =
        append-nil (provenance_orphans db ++ ingress_orphans db) (navigation_orphans db) in
      let (inner, join_inner) = append-nil (provenance_orphans db) (ingress_orphans db) in
      (
        λ h. let parts = outer (unsort h) in (inner parts.0, parts.1),
        λ h. sort (join_outer (join_inner h.0, h.1)),
      )

-- A sweep is valid if and only if every stored receipt's execution passes its audit, each provenance
-- and each reservation has a receipt, and each delivery names a participant, not a blank one, with a
-- receipt of the intent.
pub sweep_execution_audit_integrity-valid :
    (hash : RequestHash) (db : Database)
    → ((sweep_execution_audit_integrity hash db).valid ≡ true) ↔ IsSwept hash db
unfolding sweep_execution_audit_integrity
sweep_execution_audit_integrity-valid hash db =
    let (sound, sounds) = invalid_reports-swept hash db in
    let (owned, owns) = orphans-nil db in
    let (provenance, provenances) = provenance_orphans-nil db in
    let (delivery, deliveries) = ingress_orphans-nil db in
    let (reservation, reservations) = navigation_orphans-nil db in
    let (no_report, reports) = is_nil_iff (invalid_reports hash db (swept_receipts db)) in
    let (no_orphan, orphaned) = is_nil_iff (orphans db) in
    (
      λ h.
          let (fine, owners) = and-true _ _ h in
          let parts = owned (no_orphan owners) in
          record {
            executions = sound (no_report fine);
            provenance = provenance parts.0.0;
            deliveries = delivery parts.0.1;
            reservations = reservation parts.1;
          },
      λ s. and_intro (reports (sounds s.executions)) (
          orphaned (
            owns
              ((provenances s.provenance, deliveries s.deliveries), reservations s.reservations))),
    )
