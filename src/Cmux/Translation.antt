-- ===== src/Cmux/Translation.antt =====
-- `submit_ack_receipt` of plugins/cmux/yatagarasu_cmux/receipt_translation.py. `repr` is Python's.
use yatagarasu.Prelude.{
  String, ◌<>◌, false, not, Option, none, some, ◌==◌, string_eq, if◌then◌else◌,
}
use yatagarasu.Types.{Delivery, Receipt, transport_submit_ack}
use yatagarasu.Cmux.Calls.{Answer, returned, raised, value_error}
use yatagarasu.Cmux.Outcome.{SubmitResult, is_proven}

-- PROOF_METHOD
abbrev pub submit_proof_method : String
submit_proof_method = "cmux.transport.submit_ack"

-- The parameters that the caller gives beside the result and the delivery.
pub record Claim : Type 0 where
  pub evidence_provider_id : String
  pub observed_at : String
  pub receipt_id : String
  pub source_event_id : Option String

abbrev pub acknowledgement : Delivery → Claim → String → Receipt
acknowledgement delivery claim binding_id = record {
  receipt_id = claim.receipt_id;
  event_id = delivery.event_id;
  delivery_id = delivery.delivery_id;
  attempt_id = delivery.attempt_id;
  binding_id = binding_id;
  evidence_provider_id = claim.evidence_provider_id;
  evidence_class = transport_submit_ack;
  proof_method = submit_proof_method;
  observed_at = claim.observed_at;
  source_event_id = claim.source_event_id;
  platform_principal_id = none;
  platform_message_id = none;
  disposition = none;
  authored_by_provider = false;
  infrastructure_event = false;
  proof = none;
}

module _ (repr : String → String) where
  abbrev pub bound_receipt : Delivery → Claim → Option String → Answer (Option Receipt)
  bound_receipt delivery claim none = raised (
      value_error (
        "delivery "
        <> repr delivery.delivery_id
        <> " has no binding; a receipt without a binding cannot be correlated to a session and the reducer would reject it on shape rather than on substance"))
  bound_receipt delivery claim (some binding_id) =
      returned (some (acknowledgement delivery claim binding_id))

  unfoldable pub submit_ack_receipt : SubmitResult → Delivery → Claim → Answer (Option Receipt)
  submit_ack_receipt result delivery claim =
      if not (is_proven result)
      then returned none
      else if not (result.delivery_id == delivery.delivery_id)
      then raised (
          value_error (
            "submit result is for delivery "
            <> repr result.delivery_id
            <> " but was given delivery "
            <> repr delivery.delivery_id
            <> "; correlating these would attribute one delivery's evidence to another"))
      else bound_receipt delivery claim delivery.binding_id
