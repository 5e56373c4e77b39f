-- ===== src/Receipts/Transition.antt =====
-- `_validate_keys`, `_canonical_disposition` and `_transition` of
-- core/yatagarasu_core/receipts.py.
use yatagarasu.Prelude.{
  Bool, true, not, ◌||◌, Option, none, some, ◌∷◌, [], ◌==◌, string_eq, option_eq, contains,
  is_empty,
}
use yatagarasu.Types.{
  Delivery, Receipt, DeliveryMode, session_bound, channel_native, delivery_mode_eq, DeliveryState,
  dispatching, transport_submitted, in_session, processed, delivery_state_eq, Disposition,
  completed, answered, acknowledged, held, disposition_eq, EvidenceClass, transport_submit_ack,
  harness_prompt_accepted, harness_turn_started, harness_turn_completed, participant_reply_authored,
  participant_reaction_authored, ProviderKind, session_transport, comms_view, provider_kind_eq,
}
use yatagarasu.Reasons
use yatagarasu.Reasons.{Check, ok, refuse, refuse_if, ◌>>=◌, ◌>>◌}
use yatagarasu.Store.Tables.{Store}
use yatagarasu.Store.Providers.{message_binding_matches}

unfoldable pub validate_keys : Receipt → Delivery → Check (Unit {0})
validate_keys receipt delivery = do
  refuse_if (not (receipt.event_id == delivery.event_id)) Reasons.event_mismatch
  refuse_if (not (receipt.attempt_id == delivery.attempt_id)) Reasons.attempt_mismatch
  refuse_if (not (some receipt.binding_id == delivery.binding_id)) Reasons.binding_mismatch

abbrev pub implied_disposition : EvidenceClass → Option Disposition
implied_disposition participant_reply_authored = some answered
implied_disposition harness_turn_completed = some completed
implied_disposition _ = none

abbrev pub explicit_or : Option Disposition → Option Disposition → Option Disposition
explicit_or (some d) implied = some d
explicit_or none implied = implied

unfoldable pub canonical_disposition : Receipt → Option Disposition
canonical_disposition receipt =
    explicit_or receipt.disposition (implied_disposition receipt.evidence_class)

-- `not receipt.platform_message_id or not store.message_binding_matches(...)`
unfoldable pub message_unbound : Receipt → Delivery → Store → Bool
message_unbound receipt delivery s = elim receipt.platform_message_id [
  | none ↦ true
  | some message_id ↦
      is_empty message_id
      || not (message_binding_matches receipt.evidence_provider_id message_id delivery s)
]

abbrev pub Step : Type 0
Step = DeliveryState × Option Disposition

-- the guards of a submit acknowledgement that depend on the delivery's mode
unfoldable pub check_submit_mode :
    DeliveryMode → Receipt → Delivery → ProviderKind → Store → Check (Unit {0})
check_submit_mode channel_native receipt delivery kind s = do
  refuse_if (not (kind == comms_view)) Reasons.provider_kind_not_comms_view
  refuse_if (message_unbound receipt delivery s) Reasons.platform_message_binding_mismatch
check_submit_mode session_bound receipt delivery kind s =
    refuse_if (not (kind == session_transport)) Reasons.provider_kind_not_session_transport

unfoldable pub submit_step : Receipt → Delivery → ProviderKind → Store → Check Step
unfolding check_submit_mode
submit_step receipt delivery kind s = do
  refuse_if (not (delivery.state == dispatching)) Reasons.invalid_transition
  refuse_if (not (receipt.disposition == none)) Reasons.disposition_not_allowed
  check_submit_mode delivery.delivery_mode receipt delivery kind s
  ok (transport_submitted, none)

unfoldable pub entry_step : Receipt → Delivery → ProviderKind → Check Step
entry_step receipt delivery kind = do
  refuse_if (not (delivery.delivery_mode == session_bound))
      Reasons.evidence_class_wrong_delivery_mode
  refuse_if (not (kind == session_transport)) Reasons.provider_kind_not_session_transport
  refuse_if (not (delivery.state == transport_submitted)) Reasons.invalid_transition
  refuse_if (not (receipt.disposition == none)) Reasons.disposition_not_allowed
  ok (in_session, none)

unfoldable pub completion_step : Receipt → Delivery → ProviderKind → Check Step
completion_step receipt delivery kind = do
  refuse_if (not (delivery.delivery_mode == session_bound))
      Reasons.evidence_class_wrong_delivery_mode
  refuse_if (not (kind == session_transport)) Reasons.provider_kind_not_session_transport
  refuse_if (not (delivery.state == in_session)) Reasons.invalid_transition
  refuse_if (not (contains (none ∷ some completed ∷ []) receipt.disposition))
      Reasons.disposition_overclaim
  ok (processed, some completed)

unfoldable pub reply_step : Receipt → Check Step
reply_step receipt = do
  refuse_if (not (contains (none ∷ some answered ∷ []) receipt.disposition))
      Reasons.disposition_overclaim
  ok (processed, some answered)

unfoldable pub reaction_step : Receipt → Check Step
reaction_step receipt = do
  refuse_if (not (contains (some acknowledged ∷ some held ∷ []) receipt.disposition))
      Reasons.reaction_disposition_invalid
  ok (processed, receipt.disposition)

abbrev pub transition_of : EvidenceClass → Receipt → Delivery → ProviderKind → Store → Check Step
transition_of transport_submit_ack receipt delivery kind s = submit_step receipt delivery kind s
transition_of harness_prompt_accepted receipt delivery kind s = entry_step receipt delivery kind
transition_of harness_turn_started receipt delivery kind s = entry_step receipt delivery kind
transition_of harness_turn_completed receipt delivery kind s = completion_step receipt delivery kind
transition_of participant_reply_authored receipt delivery kind s = reply_step receipt
transition_of participant_reaction_authored receipt delivery kind s = reaction_step receipt
transition_of _ receipt delivery kind s = refuse Reasons.unsupported_evidence_class

unfoldable pub transition : Receipt → Delivery → ProviderKind → Store → Check Step
unfolding submit_step entry_step completion_step reply_step reaction_step
transition receipt delivery kind s = transition_of receipt.evidence_class receipt delivery kind s
