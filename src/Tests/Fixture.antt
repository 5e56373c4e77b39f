-- ===== src/Tests/Fixture.antt =====
-- A concrete environment, and a store with a session transport, a comms view, a binding and two
-- deliveries, after core/tests/test_session_proofs.py.
use yatagarasu.Prelude.{
  ℕ, String, ◌<>◌, true, false, Option, none, some, [], ◌∷◌, ◌==◌, string_eq, if◌then◌else◌,
}
use yatagarasu.Prelude.Int.{pos}
use yatagarasu.Environment.{Environment, Datetime}
use yatagarasu.Types.{
  Delivery, session_bound, channel_native, transport_submitted, DeliveryState, Receipt,
  transport_submit_ack, harness_prompt_accepted, harness_turn_completed, participant_reply_authored,
  session_transport, comms_view, event_bus, cmux_harness_chain, active, SessionProof,
  SourceEventRef, DeliveryMarker, ProofMethodRegistration,
}
use yatagarasu.Proofs.Markers.{MarkerAuthority}
use yatagarasu.Proofs.Chain.{input_sent, prompt_submitted, user_prompt_submit}
use yatagarasu.Store.Tables.{Store, empty, healthy}

-- Instants by name, as `datetime.fromisoformat` would read them.
abbrev pub read_instant : String → Option ℕ
read_instant s =
    if s == "2026-07-19T00:00:00+00:00"
    then some 1000000000
    else if s == "2026-07-19T00:01:00+00:00"
    then some 1060000000
    else if s == "2026-07-19T00:02:00+00:00"
    then some 1120000000
    else if s == "2026-07-19T00:03:00+00:00"
    then some 1180000000
    else none

abbrev pub as_datetime : Option ℕ → Option Datetime
as_datetime none = none
as_datetime (some n) = some (record { instant = n; aware = true })

abbrev pub env : Environment
env = record {
  fromisoformat = λ s. as_datetime (read_instant s);
  dumps = λ _. "{}";
  hmac_sha256 = λ key payload. key <> payload;
}

abbrev pub authority : MarkerAuthority
authority = record { signing_key = "key"; max_lifetime = 300000000 }

abbrev pub session_delivery : DeliveryState → Delivery
session_delivery st = record {
  event_id = "event-1";
  delivery_id = "delivery-1";
  attempt_id = "attempt-1";
  binding_id = some "binding-1";
  recipient_id = "tama";
  delivery_mode = session_bound;
  state = st;
  disposition = none;
}

abbrev pub channel_delivery : DeliveryState → Delivery
channel_delivery st = record {
  event_id = "event-2";
  delivery_id = "delivery-2";
  attempt_id = "attempt-2";
  binding_id = some "binding-2";
  recipient_id = "eric";
  delivery_mode = channel_native;
  state = st;
  disposition = none;
}

abbrev pub registration : ProofMethodRegistration
registration = record {
  proof_method = "cmux-chain";
  source_kind = event_bus;
  source_instance_id = "bus-1";
  correlation_rule = cmux_harness_chain;
  evidence_classes = harness_prompt_accepted ∷ harness_turn_completed ∷ [];
}

abbrev pub store : DeliveryState → Store
store st = record empty {
  deliveries = session_delivery st ∷ channel_delivery transport_submitted ∷ [];
  providers =
      record { provider_id = "cmux"; kind = session_transport; health = healthy }
      ∷ record { provider_id = "discord"; kind = comms_view; health = healthy }
      ∷ [];
  provider_evidence =
      record { provider_id = "cmux"; evidence_class = transport_submit_ack }
      ∷ record { provider_id = "cmux"; evidence_class = harness_prompt_accepted }
      ∷ record { provider_id = "cmux"; evidence_class = harness_turn_completed }
      ∷ record { provider_id = "discord"; evidence_class = participant_reply_authored }
      ∷ [];
  principal_bindings =
      record { provider_id = "discord"; platform_principal_id = "user-9"; recipient_id = "eric" }
      ∷ [];
  platform_message_bindings =
      record {
        provider_id = "discord";
        platform_message_id = "message-9";
        event_id = "event-2";
        delivery_id = "delivery-2";
        attempt_id = "attempt-2";
      }
      ∷ [];
  session_bindings =
      record {
        binding_id = "binding-1";
        recipient_id = "tama";
        provider_id = "cmux";
        adapter_instance_id = "adapter-1";
        harness = "claude-code";
        session_id = "session-1";
        established_at = "2026-07-19T00:00:00Z";
        expires_at = "2026-07-19T00:03:00Z";
        state = active;
      }
      ∷ [];
  binding_proof_methods = record { binding_id = "binding-1"; method = registration } ∷ [];
}

abbrev pub marker : DeliveryMarker
marker = record {
  schema_version = pos 1;
  event_id = "event-1";
  delivery_id = "delivery-1";
  attempt_id = "attempt-1";
  binding_id = "binding-1";
  authority_scope = "conversation";
  issued_at = "2026-07-19T00:00:00Z";
  expires_at = "2026-07-19T00:02:00Z";
  signature = "key{}";
}

abbrev pub event : ℕ → String → String → SourceEventRef
event seq id name = record {
  source_instance_id = "bus-1";
  boot_id = "boot-1";
  seq = pos seq;
  source_event_id = id;
  event_name = name;
  session_id = some "session-1";
  binding_id = some "binding-1";
  marker_signature = some "key{}";
}

abbrev pub proof : SessionProof
proof = record {
  session_id = "session-1";
  marker = marker;
  source_events =
      event 10 "e-10" input_sent
      ∷ event 11 "e-11" prompt_submitted
      ∷ event 12 "e-12" user_prompt_submit
      ∷ [];
  turn_id = none;
}

abbrev pub prompt_receipt : Receipt
prompt_receipt = record {
  receipt_id = "receipt-1";
  event_id = "event-1";
  delivery_id = "delivery-1";
  attempt_id = "attempt-1";
  binding_id = "binding-1";
  evidence_provider_id = "cmux";
  evidence_class = harness_prompt_accepted;
  proof_method = "cmux-chain";
  observed_at = "2026-07-19T00:01:00Z";
  source_event_id = some "e-12";
  platform_principal_id = none;
  platform_message_id = none;
  disposition = none;
  authored_by_provider = false;
  infrastructure_event = false;
  proof = some proof;
}
