-- ===== src/Store/Tables.antt =====
-- The schema of core/yatagarasu_core/store.py: a table is the list of its rows in `rowid` order.
-- An AUTOINCREMENT key is the position of its row. `in_transaction` tells whether the connection
-- holds an open transaction; what stands in the tables then is not committed yet.
use yatagarasu.Prelude.{ℕ, String, Bool, false, Option, List, []}
use yatagarasu.Types.{
  DeliveryMode, DeliveryState, Disposition, EvidenceClass, ProviderKind, BindingState, Delivery,
  ProofMethodRegistration,
}
use yatagarasu.Reasons.{Reason}

pub data Health : Type 0 where
  healthy degraded : Health

pub record Provider : Type 0 where
  pub provider_id : String
  pub kind : ProviderKind
  pub health : Health

pub record ProviderEvidence : Type 0 where
  pub provider_id : String
  pub evidence_class : EvidenceClass

pub record PrincipalBinding : Type 0 where
  pub provider_id : String
  pub platform_principal_id : String
  pub recipient_id : String

pub record PlatformMessageBinding : Type 0 where
  pub provider_id : String
  pub platform_message_id : String
  pub event_id : String
  pub delivery_id : String
  pub attempt_id : String

pub record ReceiptRow : Type 0 where
  pub receipt_id : String
  pub provider_id : String
  pub source_event_id : Option String
  pub event_id : String
  pub delivery_id : String
  pub attempt_id : String
  pub binding_id : String
  pub evidence_class : EvidenceClass
  pub proof_method : String
  pub observed_at : String
  pub disposition : Option Disposition
  pub platform_principal_id : Option String
  pub platform_message_id : Option String
  pub authored_by_provider : Bool
  pub infrastructure_event : Bool
  pub session_id : Option String
  pub marker_signature : Option String
  pub source_event_chain : String
  pub turn_id : Option String

pub record SessionBindingRow : Type 0 where
  pub binding_id : String
  pub recipient_id : String
  pub provider_id : String
  pub adapter_instance_id : String
  pub harness : String
  pub session_id : String
  pub established_at : String
  pub expires_at : String
  pub state : BindingState

-- The column `evidence_classes` joins the members' texts, which hold no comma, by commas.
pub record ProofMethodRow : Type 0 where
  pub binding_id : String
  pub method : ProofMethodRegistration

pub data SessionEntry : Type 0 where
  applicable not_applicable : SessionEntry

pub record AuditRow : Type 0 where
  pub receipt_id : String
  pub delivery_id : String
  pub from_state : DeliveryState
  pub to_state : DeliveryState
  pub disposition : Option Disposition
  pub delivery_mode : DeliveryMode
  pub session_entry : SessionEntry
  pub evidence_class : EvidenceClass
  pub proof_method : String

pub record RejectionRow : Type 0 where
  pub receipt_id : String
  pub delivery_id : String
  pub provider_id : String
  pub evidence_class : EvidenceClass
  pub proof_method : String
  pub observed_at : String
  pub reason : Reason

pub record RoomMember : Type 0 where
  pub room_id : String
  pub recipient_id : String
  pub roster_ordinal : ℕ

pub record CanonicalEvent : Type 0 where
  pub event_id : String
  pub actor_id : String
  pub room_id : String
  pub content : String
  pub accepted_at : String
  pub authority_scope : String

pub record BroadcastRow : Type 0 where
  pub broadcast_id : String
  pub event_id : String
  pub room_id : String
  pub roster_snapshot_size : ℕ

pub record BroadcastRecipient : Type 0 where
  pub broadcast_id : String
  pub recipient_id : String
  pub roster_ordinal : ℕ
  pub binding_id : Option String
  pub delivery_id : String

pub record BroadcastAudit : Type 0 where
  pub broadcast_id : String
  pub event_id : String
  pub roster_snapshot_size : ℕ

pub record Store : Type 0 where
  pub deliveries : List Delivery
  pub providers : List Provider
  pub provider_evidence : List ProviderEvidence
  pub principal_bindings : List PrincipalBinding
  pub platform_message_bindings : List PlatformMessageBinding
  pub receipts : List ReceiptRow
  pub session_bindings : List SessionBindingRow
  pub binding_proof_methods : List ProofMethodRow
  pub audit_log : List AuditRow
  pub receipt_rejections : List RejectionRow
  pub rooms : List String
  pub room_members : List RoomMember
  pub canonical_events : List CanonicalEvent
  pub broadcasts : List BroadcastRow
  pub broadcast_recipients : List BroadcastRecipient
  pub broadcast_audits : List BroadcastAudit
  pub in_transaction : Bool

-- A store that `_migrate` has just made.
abbrev pub empty : Store
empty = record {
  deliveries = [];
  providers = [];
  provider_evidence = [];
  principal_bindings = [];
  platform_message_bindings = [];
  receipts = [];
  session_bindings = [];
  binding_proof_methods = [];
  audit_log = [];
  receipt_rejections = [];
  rooms = [];
  room_members = [];
  canonical_events = [];
  broadcasts = [];
  broadcast_recipients = [];
  broadcast_audits = [];
  in_transaction = false;
}
