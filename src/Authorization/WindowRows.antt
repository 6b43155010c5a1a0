-- ===== src/Authorization/WindowRows.antt =====
-- What is shown of a grant: the columns of its row, but for the times of a delegated grant.
use conversation_blackboard.Board.{DurableGrant, DelegatedGrant}
use conversation_blackboard.Authorization.Window.{DurableGrantSnapshot, DelegatedGrantSnapshot}

abbrev pub shown_durable : DurableGrant → DurableGrantSnapshot
shown_durable g = record {
  id = g.id;
  principal_provider = g.principal_provider;
  principal_subject = g.principal_subject;
  participant_id = g.participant_id;
  capability = g.capability;
  resource = g.resource;
  status = g.status;
  created_at = g.created_at;
  updated_at = g.updated_at;
}

abbrev pub shown_delegated : DelegatedGrant → DelegatedGrantSnapshot
shown_delegated g = record {
  id = g.id;
  principal_provider = g.principal_provider;
  principal_subject = g.principal_subject;
  participant_id = g.participant_id;
  capability = g.capability;
  resource = g.resource;
  intent_id = g.intent_id;
  expires_at = g.expires_at;
  one_shot = g.one_shot;
  consumed_at = g.consumed_at;
  consumed_intent_id = g.consumed_intent_id;
  status = g.status;
}
