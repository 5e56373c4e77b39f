-- ===== src/Tests/ProtocolExamples.antt =====
-- The theorems on the stream protocol at an acknowledgement and at two events.
use yatagarasu.Prelude.{
  String, false, none, ◌==◌, string_eq, contains, any, nat_eq, ◌≡◌, ◌≢◌, ◌↔◌, refl, arith,
}
use native.Mathlib.Decide.{ℕ_discrete}
use yatagarasu.Prelude.Int.{pos, int_eq}
use yatagarasu.Cmux.Calls.{returned}
use yatagarasu.Cmux.Json.{Fields, text, integer, object, boolean, null, field, no_fields, get}
use yatagarasu.Cmux.Protocol.{StreamAck, parse_ack, project, safe_payload_keys}
use yatagarasu.Cmux.Protocol.Acks.{IsAck, parse_ack_iff}
use yatagarasu.Cmux.Protocol.Privacy.{
  AgreeOutside, SameSafe, project-private, unsafe_field-SameSafe,
}
use yatagarasu.Tests.Wiring.{wire, in_session}

abbrev pub header : String → Fields → Fields
header kind rest = field "type" (text kind) (
    field "protocol" (text "cmux-events")
      (field "version" (integer (pos 1)) (field "boot_id" (text "boot-1") rest)))

abbrev pub ack_frame : Fields
ack_frame = header "ack" (
    field "replay_count" (integer (pos 0)) (
      field "resume"
        (object (
          field "requested_after_seq" null (
            field "oldest_seq" (integer (pos 1)) (
              field "latest_seq" (integer (pos 4))
                (field "next_seq" (integer (pos 5)) (field "gap" (boolean false) no_fields))))))
        no_fields))

abbrev pub acknowledged : StreamAck
acknowledged = record {
  boot_id = "boot-1";
  replay_count = pos 0;
  resume = record {
    requested_after_seq = none;
    oldest_seq = pos 1;
    latest_seq = pos 4;
    next_seq = pos 5;
    gap = false;
  };
}

parse_ack_iff_example :
    (parse_ack wire ack_frame ≡ returned acknowledged) ↔ IsAck wire ack_frame acknowledged
parse_ack_iff_example = parse_ack_iff wire ack_frame acknowledged

parsed : parse_ack wire ack_frame ≡ returned acknowledged
unfolding parse_ack get string_eq nat_eq ℕ_discrete int_eq
parsed = refl

abbrev pub event_frame : Fields → Fields
event_frame payload = header "event" (
    field "seq" (integer (pos 1)) (
      field "id" (text "input")
        (field "name" (text "surface.input_sent") (field "payload" (object payload) no_fields))))

abbrev unsafe_payload : Fields
unsafe_payload = field "prompt" (text "the content of a prompt") in_session

unsafe : contains safe_payload_keys "prompt" ≡ false
unfolding any string_eq
unsafe = refl

different : ◌==◌ {A = String} "prompt" "message_preview" ≡ false
unfolding string_eq
different = refl

other : ◌≢◌ {A = String} "prompt" "message_preview"
other e = ground (arith, different)

unsafe_payload-SameSafe : SameSafe wire in_session unsafe_payload
unsafe_payload-SameSafe =
    unsafe_field-SameSafe wire "prompt" (text "the content of a prompt") in_session unsafe other

agree : AgreeOutside (event_frame in_session) (event_frame unsafe_payload)
unfolding get
agree key other = ground arith

project-private_example :
    project wire "cmux-1" (event_frame unsafe_payload) "boot-1"
    ≡ project wire "cmux-1" (event_frame in_session) "boot-1"
unfolding get string_eq
project-private_example =
    project-private wire "cmux-1" (event_frame in_session) (event_frame unsafe_payload) in_session
      unsafe_payload "boot-1" agree refl refl unsafe_payload-SameSafe
