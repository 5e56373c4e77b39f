-- ===== src/Cmux/Protocol.antt =====
-- plugins/cmux/yatagarasu_cmux/stream_protocol.py: the stream's acknowledgement, and the projection of
-- an event to what is stored of it.
pub mod Acks
pub mod Privacy
use yatagarasu.Prelude.{
  String, Bool, true, false, not, ◌&&◌, ◌||◌, Option, none, some, List, [], ◌∷◌, ◌==◌, string_eq,
  contains, is_empty, if◌then◌else◌,
}
use yatagarasu.Prelude.Int.{ℤ, pos, negsuc, int_eq, is_negative}
use yatagarasu.Cmux.Calls.{Answer, returned, raised, protocol_error}
use yatagarasu.Cmux.Json.{
  Value, Values, Fields, null, boolean, integer, float, text, list, object, end, item, no_fields,
  field, get, as_text, as_integer, as_object, is_text, equals_integer, Wire,
}
use yatagarasu.Cmux.Marker.{WireMarker, extract, marker_text}
use yatagarasu.Cmux.Outbox.{DerivedEvent}

-- a frame of the given type in the supported protocol
abbrev pub is_supported : Wire → String → Fields → Bool
is_supported wire kind frame =
    is_text kind (get "type" frame)
    && is_text "cmux-events" (get "protocol" frame)
    && equals_integer wire.integral (pos 1) (get "version" frame)

pub record ResumeMetadata : Type 0 where
  pub requested_after_seq : Option ℤ
  pub oldest_seq : ℤ
  pub latest_seq : ℤ
  pub next_seq : ℤ
  pub gap : Bool

pub record StreamAck : Type 0 where
  pub boot_id : String
  pub replay_count : ℤ
  pub resume : ResumeMetadata

abbrev malformed_ack : Answer StreamAck
malformed_ack = raised (protocol_error "stream ack identity is malformed")

abbrev malformed_resume : Answer StreamAck
malformed_resume = raised (protocol_error "resume metadata is malformed")

-- None, an int, or neither
abbrev pub requested_of : Value → Option (Option ℤ)
requested_of null = some none
requested_of (integer n) = some (some n)
requested_of _ = none

abbrev pub as_boolean : Value → Option Bool
as_boolean (boolean b) = some b
as_boolean _ = none

abbrev pub finish_ack :
    String → ℤ → Option ℤ → Option ℤ → Option ℤ → Option ℤ → Option Bool → Answer StreamAck
finish_ack boot_id replay_count requested (some oldest) (some latest) (some next_seq) (some gap) =
    if is_negative oldest || is_negative latest || is_negative next_seq
    then malformed_resume
    else returned (record {
      boot_id = boot_id;
      replay_count = replay_count;
      resume = record {
        requested_after_seq = requested;
        oldest_seq = oldest;
        latest_seq = latest;
        next_seq = next_seq;
        gap = gap;
      };
    })
finish_ack boot_id replay_count requested _ _ _ _ = malformed_resume

abbrev pub parse_resume : String → ℤ → Fields → Option (Option ℤ) → Answer StreamAck
parse_resume boot_id replay_count resume none =
    raised (protocol_error "resume requested cursor is malformed")
parse_resume boot_id replay_count resume (some requested) =
    finish_ack boot_id replay_count requested (as_integer (get "oldest_seq" resume))
      (as_integer (get "latest_seq" resume)) (as_integer (get "next_seq" resume))
      (as_boolean (get "gap" resume))

abbrev pub parse_identity : Option String → Option ℤ → Option Fields → Answer StreamAck
parse_identity (some boot_id) (some replay_count) (some resume) =
    if is_empty boot_id || is_negative replay_count
    then malformed_ack
    else parse_resume boot_id replay_count resume (requested_of (get "requested_after_seq" resume))
parse_identity _ _ _ = malformed_ack

-- `StreamAck.parse`
unfoldable pub parse_ack : Wire → Fields → Answer StreamAck
parse_ack wire frame =
    if is_supported wire "ack" frame
    then parse_identity (as_text (get "boot_id" frame)) (as_integer (get "replay_count" frame))
        (as_object (get "resume" frame))
    else raised (protocol_error "first frame is not a supported stream ack")

abbrev pub safe_payload_keys : List String
safe_payload_keys =
    "_opencode_request_id" ∷ "_source" ∷ "decision" ∷ "hook_event_name" ∷ "message_length"
    ∷ "payload_truncated" ∷ "phase" ∷ "redacted_fields" ∷ "request_id" ∷ "session_id" ∷ "status"
    ∷ "tool_name" ∷ "workspace_id" ∷ []

abbrev is_scalar : Value → Bool
is_scalar (list values) = false
is_scalar (object _) = false
is_scalar _ = true

all_scalar : Values → Bool
all_scalar end = true
all_scalar (item value values) = is_scalar value && all_scalar values

unfoldable pub is_safe_payload_value : Value → Bool
unfolding all_scalar
is_safe_payload_value (list values) = all_scalar values
is_safe_payload_value value = is_scalar value

abbrev pub is_safe_field : String → Value → Bool
is_safe_field key value = contains safe_payload_keys key && is_safe_payload_value value

unfoldable pub safe_fields : Fields → Fields
safe_fields no_fields = no_fields
safe_fields (field key value rest) =
    let others = safe_fields rest in
    if is_safe_field key value then field key value others else others

unfoldable pub append_field : String → Value → Fields → Fields
append_field key value no_fields = field key value no_fields
append_field key value (field k v rest) = field k v (append_field key value rest)

module _ (wire : Wire) where
  -- the marker of the preview, if the payload has one
  unfoldable pub preview_marker : Value → Option WireMarker
  preview_marker (text preview) = extract wire preview
  preview_marker _ = none

  abbrev pub with_marker : Option WireMarker → Fields → Fields
  with_marker none safe = safe
  with_marker (some marker) safe =
      append_field "message_preview" (text (marker_text wire marker)) safe

  unfoldable pub safe_payload : Value → Fields
  safe_payload (object payload) =
      with_marker (preview_marker (get "message_preview" payload)) (safe_fields payload)
  safe_payload _ = no_fields

  -- the fields in the order of their keys
  abbrev pub projected : Fields → String → ℤ → String → String → Value
  projected frame boot_id seq event_id name = object (
      field "boot_id" (text boot_id) (
        field "category" (get "category" frame) (
          field "event_id" (text event_id) (
            field "name" (text name) (
              field "occurred_at" (get "occurred_at" frame) (
                field "pane_id" (get "pane_id" frame) (
                  field "payload" (object (safe_payload (get "payload" frame))) (
                    field "seq" (integer seq) (
                      field "source" (get "source" frame) (
                        field "surface_id" (get "surface_id" frame) (
                          field "window_id" (get "window_id" frame)
                            (field "workspace_id" (get "workspace_id" frame) no_fields))))))))))))

  abbrev pub project_identity :
      String → Fields → String → Option ℤ → Option String → Option String → Answer DerivedEvent
  project_identity source frame boot_id (some seq) (some event_id) (some name) =
      if is_negative seq || is_empty event_id || is_empty name
      then raised (protocol_error "event identity is malformed")
      else returned (record {
        source_instance_id = source;
        boot_id = boot_id;
        seq = seq;
        source_event_id = event_id;
        event_name = name;
        event_json = wire.dumps (projected frame boot_id seq event_id name);
      })
  project_identity source frame boot_id _ _ _ =
      raised (protocol_error "event identity is malformed")

  -- `EventProjector.project`; the expected boot is a text, so that an equal boot is one
  unfoldable pub project : String → Fields → String → Answer DerivedEvent
  project source frame expected_boot_id =
      if not (is_supported wire "event" frame)
      then raised (protocol_error "frame is not a supported CMUX event")
      else if not (is_text expected_boot_id (get "boot_id" frame))
      then raised (protocol_error "event boot ID differs from stream ack")
      else project_identity source frame expected_boot_id (as_integer (get "seq" frame))
          (as_text (get "id" frame)) (as_text (get "name" frame))
