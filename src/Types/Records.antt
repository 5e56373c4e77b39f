-- ===== src/Types/Records.antt =====
-- The frozen records of core/yatagarasu_core/types.py. A tuple and a frozen set are lists here.
use yatagarasu.Prelude.{ℕ, String, Bool, Option, List}
use yatagarasu.Prelude.Int.{ℤ}
use yatagarasu.Types.Enums.{
  DeliveryMode, DeliveryState, Disposition, EvidenceClass, SourceKind, CorrelationRule,
  BindingState,
}

pub record ProofMethodRegistration : Type 0 where
  pub proof_method : String
  pub source_kind : SourceKind
  pub source_instance_id : String
  pub correlation_rule : CorrelationRule
  pub evidence_classes : List EvidenceClass

pub record SessionBinding : Type 0 where
  pub binding_id : String
  pub recipient_id : String
  pub provider_id : String
  pub adapter_instance_id : String
  pub harness : String
  pub session_id : String
  pub established_at : String
  pub expires_at : String
  pub proof_methods : List ProofMethodRegistration
  pub state : BindingState

pub record DeliveryMarker : Type 0 where
  pub schema_version : ℤ
  pub event_id : String
  pub delivery_id : String
  pub attempt_id : String
  pub binding_id : String
  pub authority_scope : String
  pub issued_at : String
  pub expires_at : String
  pub signature : String

pub record SourceEventRef : Type 0 where
  pub source_instance_id : String
  pub boot_id : String
  pub seq : ℤ
  pub source_event_id : String
  pub event_name : String
  pub session_id : Option String
  pub binding_id : Option String
  pub marker_signature : Option String

pub record SessionProof : Type 0 where
  pub session_id : String
  pub marker : DeliveryMarker
  pub source_events : List SourceEventRef
  pub turn_id : Option String

pub record Delivery : Type 0 where
  pub event_id : String
  pub delivery_id : String
  pub attempt_id : String
  pub binding_id : Option String
  pub recipient_id : String
  pub delivery_mode : DeliveryMode
  pub state : DeliveryState
  pub disposition : Option Disposition

pub record Receipt : Type 0 where
  pub receipt_id : String
  pub event_id : String
  pub delivery_id : String
  pub attempt_id : String
  pub binding_id : String
  pub evidence_provider_id : String
  pub evidence_class : EvidenceClass
  pub proof_method : String
  pub observed_at : String
  pub source_event_id : Option String
  pub platform_principal_id : Option String
  pub platform_message_id : Option String
  pub disposition : Option Disposition
  pub authored_by_provider : Bool
  pub infrastructure_event : Bool
  pub proof : Option SessionProof

pub record BroadcastOutcome : Type 0 where
  pub recipient_id : String
  pub delivery_id : String
  pub binding_id : Option String
  pub state : DeliveryState
  pub disposition : Option Disposition
  pub unavailable_reason : Option String

pub record BroadcastResult : Type 0 where
  pub broadcast_id : String
  pub event_id : String
  pub room_id : String
  pub roster_snapshot_size : ℕ
  pub outcomes : List BroadcastOutcome
  pub all_delivered : Bool
