-- ===== src/Authorization/Capability.antt =====
-- The capabilities and fixed resources of authorization.rs, and the decision that an evaluation
-- returns.
use conversation_blackboard.Common.{
  ℕ, String, Bool, true, false, Option, none, List, [], ◌∷◌, is_some,
}
use conversation_blackboard.Common.Eq.{◌==◌, string_eq}
use conversation_blackboard.Sql.{exists_row}

abbrev pub read_messages : String
read_messages = "read_messages"

abbrev pub post_message : String
post_message = "post_message"

abbrev pub reply : String
reply = "reply"

abbrev pub read_execution_receipt : String
read_execution_receipt = "read_execution_receipt"

abbrev pub read_execution_audit : String
read_execution_audit = "read_execution_audit"

abbrev pub read_execution_audit_sweep : String
read_execution_audit_sweep = "read_execution_audit_sweep"

abbrev pub execution_audit_sweep_resource : String
execution_audit_sweep_resource = "execution-audit-sweep"

abbrev pub read_authorization_policy_integrity : String
read_authorization_policy_integrity = "read_authorization_policy_integrity"

abbrev pub authorization_policy_integrity_resource : String
authorization_policy_integrity_resource = "authorization-policy-integrity"

abbrev pub read_authorization_policy : String
read_authorization_policy = "read_authorization_policy"

abbrev pub authorization_policy_resource : String
authorization_policy_resource = "authorization-policy"

abbrev pub read_authorization_decision : String
read_authorization_decision = "read_authorization_decision"

abbrev pub authorization_decision_resource : String
authorization_decision_resource = "authorization-decision"

abbrev pub manage_authorization_policy : String
manage_authorization_policy = "manage_authorization_policy"

abbrev pub authorization_policy_admin_resource : String
authorization_policy_admin_resource = "authorization-policy-administration"

abbrev pub read_authorization_administration_history : String
read_authorization_administration_history = "read_authorization_administration_history"

abbrev pub authorization_administration_history_resource : String
authorization_administration_history_resource = "authorization-administration-history"

abbrev pub manage_channels : String
manage_channels = "manage_channels"

abbrev pub known_capabilities : List String
known_capabilities =
    read_messages ∷ post_message ∷ reply ∷ read_execution_receipt ∷ read_execution_audit
    ∷ read_execution_audit_sweep ∷ read_authorization_policy_integrity ∷ read_authorization_policy
    ∷ read_authorization_decision ∷ manage_authorization_policy
    ∷ read_authorization_administration_history ∷ manage_channels ∷ []

unfoldable pub is_known_capability : String → Bool
is_known_capability capability = exists_row (λ known. known == capability) known_capabilities

pub record AuthorizationDecision : Type 0 where
  pub allowed : Bool
  pub source : String
  pub reason : String
  pub grant_id : Option ℕ
  pub consume_grant_id : Option ℕ

unfoldable pub allow : String → String → Option ℕ → Option ℕ → AuthorizationDecision
allow source reason grant_id consume_grant_id = record {
  allowed = true;
  source = source;
  reason = reason;
  grant_id = grant_id;
  consume_grant_id = consume_grant_id;
}

unfoldable pub deny : String → String → Option ℕ → AuthorizationDecision
deny source reason grant_id = record {
  allowed = false;
  source = source;
  reason = reason;
  grant_id = grant_id;
  consume_grant_id = none;
}

-- What an explanation shows of a decision: not which grant a commit would consume.
pub record AuthorizationDecisionExplanation : Type 0 where
  pub allowed : Bool
  pub source : String
  pub reason : String
  pub grant_id : Option ℕ
  pub consume_on_commit : Bool

unfoldable pub explanation_from : AuthorizationDecision → AuthorizationDecisionExplanation
explanation_from decision = record {
  allowed = decision.allowed;
  source = decision.source;
  reason = decision.reason;
  grant_id = decision.grant_id;
  consume_on_commit = is_some decision.consume_grant_id;
}
