-- ===== src/Types/Enums.antt =====
-- The string enums of core/yatagarasu_core/types.py. A member stands for its text, and the texts
-- of one enum are pairwise different, so a column that holds the text is read as the member.
use yatagarasu.Prelude.{Eq}

pub data DeliveryMode : Type 0 where
  session_bound channel_native : DeliveryMode

pub data DeliveryState : Type 0 where
  queued dispatching transport_submitted in_session processed : DeliveryState

pub data Disposition : Type 0 where
  completed answered acknowledged held declined : Disposition

pub data EvidenceClass : Type 0 where
  transport_submit_ack harness_prompt_accepted harness_turn_started : EvidenceClass
  harness_turn_completed session_reply_authored session_reaction_authored : EvidenceClass
  session_disposition_authored participant_reply_authored : EvidenceClass
  participant_reaction_authored : EvidenceClass

pub data ProviderKind : Type 0 where
  session_transport comms_view : ProviderKind

pub data SourceKind : Type 0 where
  direct_hook event_bus : SourceKind

pub data CorrelationRule : Type 0 where
  cmux_harness_chain : CorrelationRule

pub data BindingState : Type 0 where
  active revoked superseded : BindingState

DeliveryMode-discrete : Discrete DeliveryMode
DeliveryMode-discrete = hlevel

DeliveryState-discrete : Discrete DeliveryState
DeliveryState-discrete = hlevel

Disposition-discrete : Discrete Disposition
Disposition-discrete = hlevel

EvidenceClass-discrete : Discrete EvidenceClass
EvidenceClass-discrete = hlevel

ProviderKind-discrete : Discrete ProviderKind
ProviderKind-discrete = hlevel

SourceKind-discrete : Discrete SourceKind
SourceKind-discrete = hlevel

CorrelationRule-discrete : Discrete CorrelationRule
CorrelationRule-discrete = hlevel

BindingState-discrete : Discrete BindingState
BindingState-discrete = hlevel

instance unfoldable pub delivery_mode_eq : Eq DeliveryMode
unfolding DeliveryMode-discrete
delivery_mode_eq = record { dec = DeliveryMode-discrete }

instance unfoldable pub delivery_state_eq : Eq DeliveryState
unfolding DeliveryState-discrete
delivery_state_eq = record { dec = DeliveryState-discrete }

instance unfoldable pub disposition_eq : Eq Disposition
unfolding Disposition-discrete
disposition_eq = record { dec = Disposition-discrete }

instance unfoldable pub evidence_class_eq : Eq EvidenceClass
unfolding EvidenceClass-discrete
evidence_class_eq = record { dec = EvidenceClass-discrete }

instance unfoldable pub provider_kind_eq : Eq ProviderKind
unfolding ProviderKind-discrete
provider_kind_eq = record { dec = ProviderKind-discrete }

instance unfoldable pub source_kind_eq : Eq SourceKind
unfolding SourceKind-discrete
source_kind_eq = record { dec = SourceKind-discrete }

instance unfoldable pub correlation_rule_eq : Eq CorrelationRule
unfolding CorrelationRule-discrete
correlation_rule_eq = record { dec = CorrelationRule-discrete }

instance unfoldable pub binding_state_eq : Eq BindingState
unfolding BindingState-discrete
binding_state_eq = record { dec = BindingState-discrete }
