-- ===== src/Receipts/Participant.antt =====
-- `_validate_participant` of core/yatagarasu_core/receipts.py, and the guard on the delivery's mode.
use yatagarasu.Prelude.{
  Bool, true, not, ◌||◌, ◌&&◌, none, some, ◌∷◌, [], ◌==◌, contains, is_empty, is_blank,
}
use yatagarasu.Types.{
  Delivery, Receipt, channel_native, delivery_mode_eq, transport_submitted, delivery_state_eq,
  EvidenceClass, transport_submit_ack, participant_reply_authored, participant_reaction_authored,
  evidence_class_eq, ProviderKind, comms_view, provider_kind_eq,
}
use yatagarasu.Reasons
use yatagarasu.Reasons.{Check, refuse_if, ◌>>=◌, ◌>>◌}
use yatagarasu.Store.Tables.{Store}
use yatagarasu.Store.Providers.{principal_matches}
use yatagarasu.Store.Receipts.{source_seen}
use yatagarasu.Receipts.Transition.{message_unbound}

-- PARTICIPANT_EVIDENCE
abbrev pub is_participant : EvidenceClass → Bool
is_participant evidence =
    contains (participant_reply_authored ∷ participant_reaction_authored ∷ []) evidence

-- `receipt.source_event_id and store.source_seen(...)`
unfoldable pub replayed : Receipt → Store → Bool
replayed receipt s = elim receipt.source_event_id [
  | none ↦ Bool.false
  | some source ↦ not (is_empty source) && source_seen receipt.evidence_provider_id source s
]

-- `not receipt.platform_principal_id or not store.principal_matches(...)`
unfoldable pub principal_unbound : Receipt → Delivery → Store → Bool
principal_unbound receipt delivery s = elim receipt.platform_principal_id [
  | none ↦ true
  | some principal_id ↦
      is_empty principal_id
      || not (principal_matches receipt.evidence_provider_id principal_id delivery.recipient_id s)
]

unfoldable pub validate_participant : Receipt → Delivery → ProviderKind → Store → Check (Unit {0})
unfolding replayed principal_unbound message_unbound
validate_participant receipt delivery kind s = do
  refuse_if (not (delivery.delivery_mode == channel_native))
      Reasons.evidence_class_wrong_delivery_mode
  refuse_if (not (kind == comms_view)) Reasons.provider_kind_not_comms_view
  refuse_if (not (delivery.state == transport_submitted)) Reasons.invalid_transition
  refuse_if (receipt.authored_by_provider || receipt.infrastructure_event)
      Reasons.self_echo_or_infrastructure_event
  refuse_if (is_blank receipt.source_event_id) Reasons.source_event_id_required
  refuse_if (replayed receipt s) Reasons.source_event_replayed
  refuse_if (principal_unbound receipt delivery s) Reasons.principal_mismatch
  refuse_if (message_unbound receipt delivery s) Reasons.platform_message_binding_mismatch

-- the `if ... elif` of `submit` before the transition
unfoldable pub validate_mode : Receipt → Delivery → ProviderKind → Store → Check (Unit {0})
validate_mode receipt delivery kind s = elim (is_participant receipt.evidence_class) [
  | true ↦ validate_participant receipt delivery kind s
  | Bool.false ↦
      refuse_if
        (delivery.delivery_mode == channel_native
          && not (receipt.evidence_class == transport_submit_ack))
        Reasons.evidence_class_wrong_delivery_mode
]
