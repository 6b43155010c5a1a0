-- ===== src/Execution/Audit/Delivered.antt =====
-- The deliveries of an intent after its first execution, as the audit sees them.
use conversation_blackboard.Common.{ℕ, ◌≡◌, ap, ◌∙◌, Bool, true, false, ◌&&◌, arith, and-true}
use conversation_blackboard.Common.Eq.{◌==◌, ==_iff, ==_refl, string_eq, nat_eq, option_eq}
use conversation_blackboard.Sql.{exists_row}
use conversation_blackboard.Sql.Exists.{exists_row-append_last, exists_row-narrow}
use conversation_blackboard.Board.{Identity, Message, IngressRow, Database}
use conversation_blackboard.Text.{is_empty}
use conversation_blackboard.Execution.Types.{ExecutionReceipt, MessageExecutionRequest}
use conversation_blackboard.Execution.Record.{delivery_row}
use conversation_blackboard.Execution.Execute.{RequestHash, is_bound_request, receipt_for}
use conversation_blackboard.Execution.Audit.{is_blank}
use conversation_blackboard.Execution.Audit.Ingress.{has_blank_metadata}
use conversation_blackboard.Execution.Audit.Conditions.{IsBoundIngress, is_unbound, is_targeted}
use conversation_blackboard.Execution.Audit.Added.{IsUnheard, IsAdded}

-- No text that the audit looks for is blank.
pub record IsDescribed (request : MessageExecutionRequest) : Type 0 where
  pub delivery : is_blank request.ingress.delivery_id ≡ false
  pub transport : is_blank request.ingress.transport ≡ false
  pub reference : is_blank request.ingress.external_ref ≡ false
  pub provider : is_blank request.ingress.principal.provider ≡ false
  pub subject : is_blank request.ingress.principal.subject ≡ false
  pub channel : is_blank request.channel ≡ false
  pub participant : is_empty request.intent.participant_id ≡ false

-- What the guard in front of an execution has compared.
pub record IsBoundRequest (hash : RequestHash) (identity : Identity)
    (request : MessageExecutionRequest) : Type 0 where
  pub provider : request.authority.principal.provider ≡ request.ingress.principal.provider
  pub subject : request.authority.principal.subject ≡ request.ingress.principal.subject
  pub intent : request.ingress.intent_id ≡ request.intent.intent_id
  pub participant : identity.instance_id ≡ request.intent.participant_id
  pub resource : request.intent.resource ≡ request.channel
  pub hashed :
      request.intent.request_hash
      ≡ hash request.channel request.kind request.body request.intent.conversation_ref
          request.reply_to

pub is_bound_request-IsBoundRequest :
    (hash : RequestHash) (identity : Identity) (request : MessageExecutionRequest)
    → is_bound_request hash identity request ≡ true
    → IsBoundRequest hash identity request
unfolding is_bound_request
is_bound_request-IsBoundRequest hash identity request h =
    let (h1, hashed) = and-true _ _ h in
    let (h2, resource) = and-true _ _ h1 in
    let (h3, capability) = and-true _ _ h2 in
    let (h4, participant) = and-true _ _ h3 in
    let (principals, intent) = and-true _ _ h4 in
    let (provider, subject) = and-true _ _ principals in
    record {
      provider = (==_iff request.authority.principal.provider _).0 provider;
      subject = (==_iff request.authority.principal.subject _).0 subject;
      intent = (==_iff request.ingress.intent_id _).0 intent;
      participant = (==_iff identity.instance_id _).0 participant;
      resource = (==_iff request.intent.resource _).0 resource;
      hashed = (==_iff request.intent.request_hash _).0 hashed;
    }

and_false : (a b : Bool) → b ≡ false → a && b ≡ false
and_false a b h = ground arith

module _ (now : ℕ) (request : MessageExecutionRequest) (m : Message) where
  abbrev receipt : ExecutionReceipt
  receipt = receipt_for request m.id

  abbrev own_delivery : IngressRow
  own_delivery = delivery_row now request.ingress receipt

  own_delivery-described : IsDescribed request → has_blank_metadata own_delivery ≡ false
  unfolding has_blank_metadata
  own_delivery-described d =
      let h1 = d.delivery in
      let h2 = d.transport in
      let h3 = d.reference in let h4 = d.provider in let h5 = d.subject in ground arith

  own_delivery-targeted :
      IsDescribed request
      → (is_unbound own_delivery ≡ false)
        × (is_targeted request.intent.participant_id own_delivery ≡ true)
  unfolding receipt_for
  own_delivery-targeted d =
      let named = d.participant in
      let same = ==_refl request.intent.participant_id in (named, rw named same)

  -- The deliveries of the intent are the one that the execution recorded.
  on_own_delivery :
      (db db' : Database)
      → IsUnheard db request.intent.intent_id
      → request.ingress.intent_id ≡ request.intent.intent_id
      → IsAdded now request db db' m
      → (q : IngressRow → Bool)
      → exists_row (λ r. r.intent_id == request.intent.intent_id && q r) db'.ingress_provenance
        ≡ q own_delivery
  on_own_delivery db db' unheard intent added q =
      let i = request.intent.intent_id in
      let own : own_delivery.intent_id == i ≡ true =
        (==_iff request.ingress.intent_id i).1 intent in
      let before = exists_row-narrow (λ r. r.intent_id == i) q db.ingress_provenance unheard in
      ap (exists_row (λ r. r.intent_id == i && q r)) added.deliveries
      ∙ exists_row-append_last (λ r. r.intent_id == i && q r) db.ingress_provenance own_delivery
      ∙ ground arith

  pub IsAdded-IsBoundIngress :
      (db db' : Database)
      → IsDescribed request
      → IsUnheard db request.intent.intent_id
      → request.ingress.intent_id ≡ request.intent.intent_id
      → IsAdded now request db db' m
      → IsBoundIngress db' request.intent.participant_id request.intent.intent_id
  IsAdded-IsBoundIngress db db' d unheard intent added =
      let p = request.intent.participant_id in
      let (bound, targeted) = own_delivery-targeted d in
      let described = own_delivery-described d in
      let on_own = on_own_delivery db db' unheard intent added in
      record {
        bound = on_own is_unbound ∙ bound;
        arrived = on_own (is_targeted p) ∙ targeted;
        described = on_own (λ r. is_targeted p r && has_blank_metadata r) ∙ and_false _ _ described;
      }
