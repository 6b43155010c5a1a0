-- ===== src/Messages/Repetition.antt =====
-- A second append under the nonce of a first.
use conversation_blackboard.Common.{
  ℕ, String, ◌≡◌, ap, ◌∙◌, inl, inr, Option, some, arith, Bool-cases, if◌then◌else◌,
}
use conversation_blackboard.Common.Eq.{◌==◌, string_eq}
use conversation_blackboard.Sql.{ok, find}
use conversation_blackboard.Sql.Laws.{find-append_numbered, exists_row-find}
use conversation_blackboard.Board.{Identity, Message, NavigationWrite, Database}
use conversation_blackboard.Transaction.{in_tx}
use conversation_blackboard.Messages.{
  message_by_id, has_message_id, find_reservation, is_reservation, NavigationMessageInput, created,
  existing, nonce_conflict, existing_navigation, append_navigation_message_with_conversation,
}
use conversation_blackboard.Messages.Append.{
  reservation_of, ready, ready-frame, append-old, append-IsAppended,
}

-- A nonce whose message is there: the append answers from the reservation and rolls back.
existing_navigation-bound :
    (identity : Identity) (input : NavigationMessageInput) (db d : Database)
    (stored : NavigationWrite) (m : Message)
    → find (is_reservation identity.instance_id input.nonce) d.navigation_writes ≡ some stored
    → find (has_message_id stored.message_id) d.messages ≡ some m
    → in_tx db (existing_navigation identity input d)
      ≡ (db, ok (if stored.request_hash == input.request_hash then existing m else nonce_conflict))
unfolding existing_navigation find_reservation message_by_id in_tx
existing_navigation-bound identity input db d stored m reserved found =
    elim (Bool-cases (stored.request_hash == input.request_hash)) [
      | inl t ↦ let same = t in ground arith
      | inr f ↦ let differs = f in ground arith
    ]

-- After an append that created `m`, an append by the same participant identity with the same nonce, at
-- any time, changes nothing: it returns `m` as existing if it has the same request hash, and a nonce
-- conflict if not.
pub append-append :
    (now : ℕ) (identity : Identity) (input : NavigationMessageInput)
    (conversation_ref : Option String) (db : Database) {db' : Database} {m : Message}
    → append_navigation_message_with_conversation now identity input conversation_ref db
      ≡ (db', ok (created m))
    → (later : ℕ) (again : NavigationMessageInput) (other_ref : Option String)
    → again.nonce ≡ input.nonce
    → append_navigation_message_with_conversation later identity again other_ref db'
      ≡ (db', ok (if input.request_hash == again.request_hash then existing m else nonce_conflict))
append-append now identity input conversation_ref db {db' = db'} {m = m} h later again other_ref
      same =
    let made = append-IsAppended now identity input conversation_ref db h in
    let frame = ready-frame later identity again other_ref db' in
    let reserved =
      ap (find (is_reservation identity.instance_id again.nonce)) frame.0
      ∙ ap (λ k. find (is_reservation identity.instance_id k) db'.navigation_writes) same
      ∙ made.reservation in
    let found =
      ap (find (has_message_id m.id)) (frame.1 ∙ made.log)
      ∙ find-append_numbered (λ (x : Message). x.id) db.messages m (ap (λ x. x.id) made.content) in
    append-old later identity again other_ref db' (exists_row-find _ _ reserved)
    ∙ existing_navigation-bound identity again db' (ready later identity again other_ref db')
        (reservation_of now identity input conversation_ref m.id) m reserved found
