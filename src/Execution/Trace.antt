-- ===== src/Execution/Trace.antt =====
-- Any sequence of executions: what one of them has bound stays bound, so that an intent creates at
-- most one message and a spent grant stays with the intent that spent it.
use conversation_blackboard.Common.{
  ℕ, String, ◌≡◌, refl, ap, ◌∙◌, inl, inr, Bool, false, some, [], ◌∷◌, ◌++◌, Bool-cases,
  if◌then◌else◌,
}
use conversation_blackboard.Sql.{find, exists_row, update_where}
use conversation_blackboard.Sql.Laws.{find_sound, find-append, find-map, exists_row-Memᴰ}
use conversation_blackboard.Board.{Identity, Message, NavigationWrite, Database}
use conversation_blackboard.Messages.{is_reservation, set_message_id}
use conversation_blackboard.Execution.Types.{MessageExecutionRequest}
use conversation_blackboard.Execution.Execute.{RequestHash, execute_message_intent}
use conversation_blackboard.Execution.Creation.{execute-created}
use conversation_blackboard.Execution.Reserving.{reservation_row}
use conversation_blackboard.Execution.Repetition.{execute-existing}
use conversation_blackboard.Execution.Accepted.{created-reservations, execute-cases, outcome}

-- The databases that executions lead to, each of any request by any identity at any time.
pub data Reaches (hash : RequestHash) (db : Database) : Database → Type 0 where
  here : Reaches hash db db
  step :
      {d : Database}
      → Reaches hash db d
      → (now : ℕ) (identity : Identity) (request : MessageExecutionRequest)
      → Reaches hash db (execute_message_intent hash now identity request d).0

-- A property that every execution keeps is kept on the way.
pub Reaches-keeps :
    (hash : RequestHash) {db d : Database} (P : Database → Type 0)
    → ((now : ℕ) (identity : Identity) (request : MessageExecutionRequest) (x : Database)
        → P x
        → P (execute_message_intent hash now identity request x).0)
    → Reaches hash db d
    → P db
    → P d
Reaches-keeps hash P keeps Reaches.here p = p
Reaches-keeps hash P keeps (Reaches.step before now identity request) p =
    keeps now identity request _ (Reaches-keeps hash P keeps before p)

module _ (hash : RequestHash) (now : ℕ) (identity : Identity) (request : MessageExecutionRequest)
    (db : Database) where
  -- A message that can be found stays.
  pub execute-message :
      (p : Message → Bool) {m : Message}
      → find p db.messages ≡ some m
      → find p (outcome hash now identity request db).0.messages ≡ some m
  execute-message p found = elim (execute-cases hash now identity request db) [
    | inl same ↦ ap (λ x. find p x.messages) same ∙ found
    | inr (inl (m, e)) ↦ ap (find p) (execute-existing hash now identity request db e).log ∙ found
    | inr (inr (m, e)) ↦
        ap (find p) (execute-created hash now identity request db e).log
        ∙ find-append p db.messages (m ∷ []) found
  ]

  -- The reservation of a nonce that was reserved is not the one a first execution binds.
  other_reservation :
      (instance_id nonce : String) (id : ℕ) {w : NavigationWrite}
      → exists_row
          (is_reservation identity.instance_id request.intent.intent_id)
          db.navigation_writes
        ≡ false
      → find (is_reservation instance_id nonce) db.navigation_writes ≡ some w
      → find (is_reservation instance_id nonce) (
          update_where
            (is_reservation identity.instance_id request.intent.intent_id)
            (set_message_id id)
            (db.navigation_writes ++ reservation_row now identity request 0 ∷ []))
        ≡ some w
  unfolding update_where
  other_reservation instance_id nonce id {w = w} fresh found =
      let key = is_reservation identity.instance_id request.intent.intent_id in
      let p = is_reservation instance_id nonce in
      let (member, named) = find_sound p db.navigation_writes found in
      find-map p (λ n. if key n then set_message_id id n else n)
        (db.navigation_writes ++ reservation_row now identity request 0 ∷ [])
        (λ n. elim (Bool-cases (key n)) [ inl t ↦ rw t refl | inr f ↦ rw f refl ])
        (find-append p db.navigation_writes (reservation_row now identity request 0 ∷ []) found)
      ∙ elim (Bool-cases (key w)) [
        | inl t ↦ let there = exists_row-Memᴰ key db.navigation_writes member t in cc
        | inr f ↦ rw f refl
      ]

  -- A reservation that can be found stays as it is.
  pub execute-reservation :
      (instance_id nonce : String) {w : NavigationWrite}
      → find (is_reservation instance_id nonce) db.navigation_writes ≡ some w
      → find
          (is_reservation instance_id nonce)
          (outcome hash now identity request db).0.navigation_writes
        ≡ some w
  execute-reservation instance_id nonce found =
      let p = is_reservation instance_id nonce in
      elim (execute-cases hash now identity request db) [
        | inl same ↦ ap (λ x. find p x.navigation_writes) same ∙ found
        | inr (inl (m, e)) ↦
            ap (find p) (execute-existing hash now identity request db e).reservations ∙ found
        | inr (inr (m, e)) ↦
            let (id, rows) = created-reservations hash now identity request db e in
            ap (find p) rows
            ∙ other_reservation instance_id nonce id
                (execute-created hash now identity request db e).unreserved found
      ]
