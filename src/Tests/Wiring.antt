-- ===== src/Tests/Wiring.antt =====
-- A concrete wire, a delivery that is looked up, and the four events of a turn in one workspace.
use yatagarasu.Prelude.{ℕ, String, false, none, some, List, [], ◌∷◌, ◌==◌, string_eq, if◌then◌else◌}
use yatagarasu.Prelude.Int.{pos}
use yatagarasu.Types.{DeliveryMarker, transport_submitted}
use yatagarasu.Cmux.Json.{Value, Fields, integer, text, object, field, no_fields, Wire}
use yatagarasu.Cmux.Marker.{marker_fields}
use yatagarasu.Cmux.Outbox.{DerivedEvent}
use yatagarasu.Cmux.Emitter.{Collaborators}
use yatagarasu.Tests.Fixture.{session_delivery}

-- 32 bytes that are zero, in hexadecimal digits
abbrev pub digest_text : String
digest_text = "0000000000000000000000000000000000000000000000000000000000000000"

abbrev pub short_token : String
short_token = "ygr1s.delivery-1.binding-1.AAAAAAAAAAAAAAAAAAAAAAAAAAAAAAAAAAAAAAAAAAA"

abbrev pub marker : DeliveryMarker
marker = record {
  schema_version = pos 1;
  event_id = "event-1";
  delivery_id = "delivery-1";
  attempt_id = "attempt-1";
  binding_id = "binding-1";
  authority_scope = "scope-1";
  issued_at = "2026-07-19T00:00:00+00:00";
  expires_at = "2026-07-19T00:03:00+00:00";
  signature = digest_text;
}

abbrev pub event_of : ℕ → String → String → DerivedEvent
event_of n id name = record {
  source_instance_id = "cmux-1";
  boot_id = "boot-1";
  seq = pos n;
  source_event_id = id;
  event_name = name;
  event_json = id;
}

abbrev pub input_event : DerivedEvent
input_event = event_of 1 "input" "surface.input_sent"

abbrev pub prompt_event : DerivedEvent
prompt_event = event_of 2 "prompt" "workspace.prompt.submitted"

abbrev pub hook_event : DerivedEvent
hook_event = event_of 3 "hook" "agent.hook.UserPromptSubmit"

abbrev pub stop_event : DerivedEvent
stop_event = event_of 4 "stop" "agent.hook.Stop"

-- what `event_json` of such an event stands for
abbrev pub stored_value : DerivedEvent → Fields → Value
stored_value event payload = object (
    field "boot_id" (text event.boot_id) (
      field "event_id" (text event.source_event_id) (
        field "name" (text event.event_name) (
          field "seq" (integer event.seq) (
            field "occurred_at" (text "2026-07-19T00:01:00+00:00")
              (field "payload" (object payload) (field "workspace_id" (text "main") no_fields)))))))

abbrev pub in_session : Fields
in_session = field "session_id" (text "session-1") no_fields

abbrev pub previewed : Fields
previewed = field "message_preview" (text short_token) no_fields

-- 32 bytes
abbrev pub digest_bytes : List ℕ
digest_bytes =
    0 ∷ 0 ∷ 0 ∷ 0 ∷ 0 ∷ 0 ∷ 0 ∷ 0 ∷ 0 ∷ 0 ∷ 0 ∷ 0 ∷ 0 ∷ 0 ∷ 0 ∷ 0 ∷ 0 ∷ 0 ∷ 0 ∷ 0 ∷ 0 ∷ 0 ∷ 0 ∷ 0
    ∷ 0 ∷ 0 ∷ 0 ∷ 0 ∷ 0 ∷ 0 ∷ 0 ∷ 0 ∷ []

abbrev pub wire : Wire
wire = record {
  dumps = λ value. "{}";
  loads = λ s.
      if s == "input"
      then some (stored_value input_event no_fields)
      else if s == "prompt"
      then some (stored_value prompt_event previewed)
      else if s == "hook"
      then some (stored_value hook_event in_session)
      else if s == "stop"
      then some (stored_value stop_event in_session)
      else none;
  integral = λ x. none;
  urlsafe_b64encode = λ bytes. "AAAAAAAAAAAAAAAAAAAAAAAAAAAAAAAAAAAAAAAAAAA=";
  urlsafe_b64decode = λ s. some digest_bytes;
  hex = λ bytes. digest_text;
  fromhex = λ s. digest_bytes;
  encode_utf8 = λ s. digest_bytes;
  loads_bytes = λ bytes. some (object (marker_fields marker));
}

abbrev pub given : Collaborators
given = record {
  wire = wire;
  core_raises = λ sent receipt. false;
  provider_id = "cmux-provider";
  delivery_lookup = λ id.
      if id == "delivery-1" then some (session_delivery transport_submitted, marker) else none;
}
