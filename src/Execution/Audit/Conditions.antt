-- ===== src/Execution/Audit/Conditions.antt =====
-- What a sound execution audit amounts to, said apart from the stages of execution.rs.
use conversation_blackboard.Common.{
  ℕ, String, ◌≡◌, Bool, true, false, ◌&&◌, Option, none, some, is_some, if◌then◌else◌,
}
use conversation_blackboard.Common.Eq.{◌==◌, string_eq, nat_eq}
use conversation_blackboard.Sql.{count_rows, find, exists_row}
use conversation_blackboard.Board.{
  Principal, Message, DelegatedGrant, IngressRow, NavigationWrite, Database, table_exists,
}
use conversation_blackboard.Text.{is_empty}
use conversation_blackboard.Messages.{has_message_id, is_reservation}
use conversation_blackboard.Execution.Types.{ExecutionReceipt}
use conversation_blackboard.Execution.Record.{
  is_provenance_of, AuthorizationProvenance, get_authorization_provenance,
}
use conversation_blackboard.Execution.Execute.{RequestHash}
use conversation_blackboard.Execution.Audit.{is_blank}
use conversation_blackboard.Execution.Audit.Ingress.{has_blank_metadata}

-- The message that the receipt names is the participant's, and it hashes to the receipt's hash.
pub record IsBoundEffect (hash : RequestHash) (participant_id : String) (receipt : ExecutionReceipt)
    (m : Message) : Type 0 where
  pub author : m.instance_id ≡ participant_id
  pub hashed : receipt.intent_hash ≡ hash m.channel m.kind m.body m.conversation_ref m.reply_to

-- The reservation under the intent names the receipt's message and hash.
pub record IsBoundReservation (receipt : ExecutionReceipt) (n : NavigationWrite) : Type 0 where
  pub names : n.message_id ≡ receipt.message_id
  pub hashed : n.request_hash ≡ receipt.intent_hash

pub record IsBoundProvenance (receipt : ExecutionReceipt) (m : Message)
    (auth : AuthorizationProvenance) : Type 0 where
  pub principal : Principal
  pub bound : auth.principal ≡ some principal
  pub provider : is_blank principal.provider ≡ false
  pub subject : is_blank principal.subject ≡ false
  pub capability : auth.capability ≡ some receipt.capability
  pub resource : auth.resource ≡ some m.channel
  pub named : is_blank m.channel ≡ false

-- A one-shot grant was consumed by this intent.
pub record IsBoundGrant (receipt : ExecutionReceipt) (g : DelegatedGrant) : Type 0 where
  pub participant : g.participant_id ≡ receipt.participant_id
  pub capability : g.capability ≡ receipt.capability
  pub consumed :
      g.one_shot ≡ true
      → (is_some g.consumed_at ≡ true) × (g.consumed_intent_id ≡ some receipt.intent_id)

-- The provenance names a stored grant that fits.
pub record IsBoundReference (db : Database) (receipt : ExecutionReceipt) (grant_id : Option ℕ)
    : Type 0 where
  pub id : ℕ
  pub grant : DelegatedGrant
  pub named : grant_id ≡ some id
  pub storable : table_exists db "delegated_grants" ≡ true
  pub found : find (λ g. g.id == id) db.delegated_grants ≡ some grant
  pub bound : IsBoundGrant receipt grant

abbrev pub IsBoundDelegation : Database → ExecutionReceipt → AuthorizationProvenance → Type 0
IsBoundDelegation db receipt auth =
    auth.source ≡ "delegated_grants" → IsBoundReference db receipt auth.grant_id

-- The ingress row names no participant.
abbrev pub is_unbound : IngressRow → Bool
is_unbound r = elim r.participant_id [ none ↦ true | some bound ↦ is_empty bound ]

abbrev pub is_targeted : String → IngressRow → Bool
is_targeted participant_id r = elim r.participant_id [
  | none ↦ false
  | some bound ↦ if is_empty bound then false else bound == participant_id
]

pub record IsBoundIngress (db : Database) (participant_id intent_id : String) : Type 0 where
  pub bound :
      exists_row (λ r. r.intent_id == intent_id && is_unbound r) db.ingress_provenance ≡ false
  pub arrived :
      exists_row
        (λ r. r.intent_id == intent_id && is_targeted participant_id r)
        db.ingress_provenance
      ≡ true
  pub described :
      exists_row
        (λ r. r.intent_id == intent_id && (is_targeted participant_id r && has_blank_metadata r))
        db.ingress_provenance
      ≡ false

-- The receipt is committed, and all the other evidence of its intent agrees with it.
pub record IsSoundEvidence (hash : RequestHash) (db : Database) (receipt : ExecutionReceipt)
    : Type 0 where
  pub committed : receipt.status ≡ "committed"
  pub message : Message
  pub effect : find (has_message_id receipt.message_id) db.messages ≡ some message
  pub bound_effect : IsBoundEffect hash receipt.participant_id receipt message
  pub reservable : table_exists db "navigation_writes" ≡ true
  pub reservation : NavigationWrite
  pub reserved :
      find (is_reservation receipt.participant_id receipt.intent_id) db.navigation_writes
      ≡ some reservation
  pub bound_reservation : IsBoundReservation receipt reservation
  pub single :
      count_rows
        (is_provenance_of receipt.participant_id receipt.intent_id)
        db.execution_authorization_provenance
      ≡ 1
  pub provenance : AuthorizationProvenance
  pub proven :
      get_authorization_provenance db receipt.participant_id receipt.intent_id ≡ some provenance
  pub bound_provenance : IsBoundProvenance receipt message provenance
  pub bound_delegation : IsBoundDelegation db receipt provenance
  pub bound_ingress : IsBoundIngress db receipt.participant_id receipt.intent_id
