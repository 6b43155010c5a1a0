-- ===== src/Execution/Types.antt =====
-- The values that execution.rs passes around.
use conversation_blackboard.Common.{ℕ, String, Option}
use conversation_blackboard.Common.Int.{ℤ}
use conversation_blackboard.Board.{Principal, Message}

pub record AuthorityContext : Type 0 where
  pub principal : Principal
  pub mechanism : String

pub record IntentEnvelope : Type 0 where
  pub intent_id : String
  pub participant_id : String
  pub conversation_ref : Option String
  pub capability : String
  pub resource : String
  pub request_hash : String

pub record IngressProvenance : Type 0 where
  pub delivery_id : String
  pub intent_id : String
  pub transport : String
  pub external_ref : String
  pub principal : Principal

pub record ExecutionReceipt : Type 0 where
  pub participant_id : String
  pub intent_id : String
  pub intent_hash : String
  pub capability : String
  pub message_id : ℕ
  pub status : String

pub record MessageExecutionRequest : Type 0 where
  pub authority : AuthorityContext
  pub ingress : IngressProvenance
  pub intent : IntentEnvelope
  pub channel : String
  pub kind : String
  pub body : String
  pub reply_to : Option ℤ

pub data MessageExecutionResult : Type 0 where
  created : Message → MessageExecutionResult
  existing : Message → MessageExecutionResult
  intent_conflict : MessageExecutionResult
  reply_target_not_found : MessageExecutionResult
  channel_archived : MessageExecutionResult
  authorization_denied : MessageExecutionResult
