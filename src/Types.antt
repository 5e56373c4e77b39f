-- ===== src/Types.antt =====
-- core/yatagarasu_core/types.py: the enums, with their equality, and the frozen records.
mod Enums
mod Records
pub use Enums.{
  DeliveryMode, session_bound, channel_native, DeliveryState, queued, dispatching,
  transport_submitted, in_session, processed, Disposition, completed, answered, acknowledged, held,
  declined, EvidenceClass, transport_submit_ack, harness_prompt_accepted, harness_turn_started,
  harness_turn_completed, session_reply_authored, session_reaction_authored,
  session_disposition_authored, participant_reply_authored, participant_reaction_authored,
  ProviderKind, session_transport, comms_view, SourceKind, direct_hook, event_bus, CorrelationRule,
  cmux_harness_chain, BindingState, active, revoked, superseded,
}
unfoldable pub use Enums.{
  delivery_mode_eq, delivery_state_eq, disposition_eq, evidence_class_eq, provider_kind_eq,
  source_kind_eq, correlation_rule_eq, binding_state_eq,
}
pub use Records.*
