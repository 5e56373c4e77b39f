-- ===== src/Tests/ResidentExamples.antt =====
-- The theorems on the resident at a stream of one event.
use yatagarasu.Prelude.{
  false, none, some, [], ◌∷◌, ◌≡◌, refl, string_eq, nat_eq, find, any, update, filter,
}
use native.Mathlib.Decide.{ℕ_discrete}
use yatagarasu.Prelude.Int.{pos, int_eq}
use yatagarasu.Cmux.Calls.{returned, raised, producer_error}
use yatagarasu.Cmux.Json.{get, object, no_fields}
use yatagarasu.Cmux.Outbox.{
  DerivedEvent, cursor, commit_event, validate_event, commit_body, commit_new, check_cursor,
  insert_event, upsert_cursor, record_reconnect_replay, insert_audit, outbox_events,
}
use yatagarasu.Cmux.Protocol.{parse_ack, project}
use yatagarasu.Cmux.Emitter.{Collaborators}
use yatagarasu.Cmux.Producer
use yatagarasu.Cmux.Producer.{translate_derived_event}
use yatagarasu.Cmux.Producer.Chains.{new_producer}
use yatagarasu.Cmux.Resident.{
  Resident, Client, new_tally, feed, on_event, note_replay, resnapshot, consume, after_ack, connect,
  connect_times, run,
}
use yatagarasu.Cmux.Resident.Trail.{Trail}
use yatagarasu.Cmux.Resident.Plane.{on_event-uncommitted}
use yatagarasu.Tests.Wiring.{wire, given, in_session}
use yatagarasu.Tests.ProtocolExamples.{ack_frame, acknowledged, event_frame}

abbrev client : Client
client = record {
  open_stream = λ n after. returned ack_frame ∷ returned (event_frame in_session) ∷ [];
  snapshots = λ n. returned [];
  describe = λ value. "None";
}

abbrev resident : Resident
resident = record {
  outbox = record { cursors = []; events = []; audits = []; baselines = [] };
  producer = some new_producer;
  tally = new_tally;
}

-- with no producer, and every text read as an object: the first connection commits the event, and
-- the second, which resumes from it, finds it again
abbrev reading : Collaborators
reading = record given { wire = record wire { loads = λ s. some (object no_fields) } }

abbrev alone : Resident
alone = record resident { producer = none }

abbrev after_run : Resident
after_run = (run reading client "cmux-1" 2 alone).1

-- the text of the event is not one that `loads` reads
abbrev event : DerivedEvent
event = record {
  source_instance_id = "cmux-1";
  boot_id = "boot-1";
  seq = pos 1;
  source_event_id = "input";
  event_name = "surface.input_sent";
  event_json = "{}";
}

committed :
    (after_run.outbox.events ≡ event ∷ [])
    × (after_run.tally.inserted_count ≡ 1)
    × (after_run.tally.duplicate_count ≡ 1)
unfolding run connect_times connect after_ack consume on_event note_replay resnapshot parse_ack
    project cursor find any update get string_eq nat_eq ℕ_discrete int_eq commit_event
    validate_event commit_body commit_new check_cursor insert_event upsert_cursor
    record_reconnect_replay insert_audit outbox_events filter
committed = (refl, refl, refl)

projects : project wire "cmux-1" (event_frame in_session) "boot-1" ≡ returned event
unfolding project get string_eq nat_eq ℕ_discrete int_eq
projects = refl

failed :
    feed given client "cmux-1" (some new_producer) event
    ≡ (raised (producer_error "derived event JSON is malformed"), some new_producer)
unfolding Producer.observe translate_derived_event string_eq
failed = refl

on_event-uncommitted_example :
    on_event given client "cmux-1" acknowledged false (event_frame in_session) resident
    ≡ (raised (producer_error "derived event JSON is malformed"), resident)
on_event-uncommitted_example =
    on_event-uncommitted given client "cmux-1" acknowledged false (event_frame in_session) event
      (producer_error "derived event JSON is malformed") (some new_producer) resident projects
      failed
