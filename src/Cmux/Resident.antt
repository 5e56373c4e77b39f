-- ===== src/Cmux/Resident.antt =====
-- `EventStreamResident` of plugins/cmux/yatagarasu_cmux/resident.py. The socket client is a parameter:
-- what the n-th connection yields when it is opened at a cursor, and what the n-th call of
-- `snapshots` answers.
pub mod Connection
pub mod Plane
pub mod Trail
use yatagarasu.Prelude.{
  ℕ, zero, suc, ◌+◌, ◌-◌, String, ◌<>◌, Bool, true, false, not, ◌&&◌, ◌||◌, Option, none, some,
  List, [], ◌∷◌, ◌++◌, map, ◌==◌, string_eq, nat_eq, if◌then◌else◌,
}
use yatagarasu.Prelude.Int.{ℤ, pos, negsuc, int_eq, is_negative}
use yatagarasu.Cmux.Calls.{
  Action, Answer, Error, returned, raised, protocol_error, value_error, pure, lift, continue, ◌>>=◌,
  ◌>>◌,
}
use yatagarasu.Cmux.Json.{Value, Fields, null, object, text, get, as_integer, is_text, Wire}
use yatagarasu.Cmux.Outbox.{
  Outbox, DerivedEvent, EventCursor, SnapshotBaseline, ReplayCounts, CommitDisposition, inserted,
  duplicate, cursor, commit_event, record_resnapshot, record_reconnect_replay, outbox_events,
}
use yatagarasu.Cmux.Protocol.{StreamAck, parse_ack, project}
use yatagarasu.Cmux.Emitter.{Collaborators}
use yatagarasu.Cmux.Producer.{Producer}
use yatagarasu.Cmux.Producer

-- The local variables of `run`.
pub record Tally : Type 0 where
  pub connections : ℕ
  pub snapshot_calls : ℕ
  pub reconnect_after_seq : List (Option ℤ)
  pub slow_consumer : Bool
  pub disconnect_at_seq : Option ℤ
  pub replay_count : ℕ
  pub inserted_count : ℕ
  pub duplicate_count : ℕ
  pub snapshot_commands : List String
  pub remaining_replay : ℕ
  pub replay_seen : ℕ

abbrev pub new_tally : Tally
new_tally = record {
  connections = 0;
  snapshot_calls = 0;
  reconnect_after_seq = [];
  slow_consumer = false;
  disconnect_at_seq = none;
  replay_count = 0;
  inserted_count = 0;
  duplicate_count = 0;
  snapshot_commands = [];
  remaining_replay = 0;
  replay_seen = 0;
}

pub record Resident : Type 0 where
  pub outbox : Outbox
  pub producer : Option Producer
  pub tally : Tally

pub record Client : Type 0 where
  pub open_stream : ℕ → Option ℤ → List (Answer Fields)
  pub snapshots : ℕ → Answer (List SnapshotBaseline)
  -- Python's str of a value
  pub describe : Value → String

abbrev pub in_outbox {ℓ} : {A : Type ℓ} → Action Outbox A → Action Resident A
in_outbox m s = let (answer, outbox) = m s.outbox in (answer, record s { outbox = outbox })

abbrev pub keep_tally : (Tally → Tally) → Action Resident (Unit {0})
keep_tally f s = (returned tt, record s { tally = f s.tally })

-- the values of a count that was read as a non-negative int
abbrev pub count_of : ℤ → ℕ
count_of (pos n) = n
count_of (negsuc n) = 0

module _ (given : Collaborators) (client : Client) (source : String) where
  abbrev wire : Wire
  wire = given.wire

  abbrev pub feed : Option Producer → DerivedEvent → Answer (Unit {0}) × Option Producer
  feed none event = (returned tt, none)
  feed (some producer) event =
      let (answer, after) = Producer.observe given event producer in (answer, some after)

  abbrev pub in_producer :
      (Option Producer → Answer (Unit {0}) × Option Producer) → Action Resident (Unit {0})
  in_producer m s =
      let (answer, producer) = m s.producer in (answer, record s { producer = producer })

  abbrev pub recover_producer :
      List DerivedEvent → Option Producer → Answer (Unit {0}) × Option Producer
  recover_producer events none = (returned tt, none)
  recover_producer events (some producer) =
      let (answer, after) = Producer.recover given events producer in (answer, some after)

  -- `_resnapshot`, and its commands added to those of the run
  unfoldable pub resnapshot : StreamAck → ℤ → ℕ → Action Resident (Unit {0})
  resnapshot ack cursor_seq replay_count s =
      (do
        commands ← lift (client.snapshots s.tally.snapshot_calls)
        in_outbox (
            record_resnapshot given.wire
              (record { source_instance_id = source; boot_id = ack.boot_id; seq = cursor_seq })
              commands (pos replay_count))
        keep_tally (λ t. record t {
          snapshot_calls = t.snapshot_calls + 1;
          snapshot_commands = t.snapshot_commands ++ map (λ snapshot. snapshot.method) commands;
        }))
        s

  abbrev pub counted : CommitDisposition → Tally → Tally
  counted inserted t = record t { inserted_count = t.inserted_count + 1 }
  counted duplicate t = record t { duplicate_count = t.duplicate_count + 1 }

  abbrev pub noted_replay : StreamAck → Bool → DerivedEvent → ℕ → Action Resident (Unit {0})
  noted_replay ack gap event zero s = (returned tt, s)
  noted_replay ack gap event (suc remaining) s =
      let seen = s.tally.replay_seen + 1 in
      let noted : Resident = record s {
        tally = record s.tally {
          remaining_replay = remaining;
          replay_seen = seen;
          replay_count = s.tally.replay_count + 1;
        };
      } in
      let snapped = resnapshot ack event.seq seen noted in
      if remaining == 0 && gap then snapped else (returned tt, noted)

  -- `if remaining_replay > 0`
  unfoldable pub note_replay : StreamAck → Bool → DerivedEvent → Action Resident (Unit {0})
  note_replay ack gap event s = noted_replay ack gap event s.tally.remaining_replay s

  -- The receipts first, then the cursor.
  unfoldable pub on_event : StreamAck → Bool → Fields → Action Resident (Unit {0})
  on_event ack gap frame = do
    event ← lift (project given.wire source frame ack.boot_id)
    in_producer (λ producer. feed producer event)
    disposition ← in_outbox (commit_event given.wire event gap)
    keep_tally (counted disposition)
    note_replay ack gap event

  abbrev pub slow_at : Option ℤ → Action Resident (Unit {0})
  slow_at none s = (
    raised (protocol_error "slow_consumer latest sequence is malformed"),
    record s { tally = record s.tally { slow_consumer = true } },
  )
  slow_at (some latest) s =
      if is_negative latest
      then (
        raised (protocol_error "slow_consumer latest sequence is malformed"),
        record s { tally = record s.tally { slow_consumer = true } },
      )
      else (
        returned tt,
        record s {
          tally = record s.tally { slow_consumer = true; disconnect_at_seq = some latest };
        },
      )

  abbrev pub stream_error : Value → Action Resident (Unit {0})
  stream_error code s = (raised (protocol_error ("CMUX stream error: " <> client.describe code)), s)

  -- an error frame: only that of a slow consumer ends the connection without an exception
  abbrev pub on_error : Value → Action Resident (Unit {0})
  on_error (object error) s =
      if is_text "slow_consumer" (get "code" error)
      then slow_at (as_integer (get "latest_seq" error)) s
      else stream_error (get "code" error) s
  on_error _ s = stream_error null s

  abbrev pub on_frame :
      StreamAck → Bool → Fields → Action Resident (Unit {0}) → Action Resident (Unit {0})
  on_frame ack gap frame rest s =
      if is_text "heartbeat" (get "type" frame)
      then rest s
      else if is_text "error" (get "type" frame)
      then on_error (get "error" frame) s
      else if is_text "event" (get "type" frame)
      then (do on_event ack gap frame; rest) s
      else (raised (protocol_error "unexpected CMUX stream frame type"), s)

  -- the loop over the frames after the acknowledgement
  unfoldable pub consume : StreamAck → Bool → List (Answer Fields) → Action Resident (Unit {0})
  consume ack gap [] = pure tt
  consume ack gap (raised e ∷ frames) = lift (raised e)
  consume ack gap (returned frame ∷ frames) =
      let rest = consume ack gap frames in on_frame ack gap frame rest

  -- the audit of a connection that had a cursor to resume from
  abbrev pub account : Option EventCursor → ℕ → ℕ → Option EventCursor → Action Resident (Unit {0})
  account none inserted_before duplicates_before after s = (returned tt, s)
  account (some before) inserted_before duplicates_before none s =
      (raised (protocol_error "reconnect lost the durable cursor"), s)
  account (some before) inserted_before duplicates_before (some after) s =
      in_outbox
        (record_reconnect_replay given.wire after (record {
          requested_after_seq = before.seq;
          replay_count = pos s.tally.replay_seen;
          inserted_count = pos (s.tally.inserted_count - inserted_before);
          duplicate_count = pos (s.tally.duplicate_count - duplicates_before);
          disconnect_at_seq = s.tally.disconnect_at_seq;
        }))
        s

  abbrev pub boot_changed : Option EventCursor → String → Bool
  boot_changed none boot_id = false
  boot_changed (some c) boot_id = not (c.boot_id == boot_id)

  -- a gap with nothing to replay is closed at once
  abbrev pub first_snapshots : StreamAck → Bool → Action Resident (Unit {0})
  first_snapshots ack gap s =
      let snapped = resnapshot ack ack.resume.latest_seq 0 s in
      if gap && count_of ack.replay_count == 0 then snapped else (returned tt, s)

  abbrev pub completed_replay : Action Resident (Unit {0})
  completed_replay s =
      if s.tally.remaining_replay == 0
      then (returned tt, s)
      else (raised (protocol_error "stream ended before declared replay completed"), s)

  unfoldable pub after_ack :
      Option EventCursor → StreamAck → List (Answer Fields) → Action Resident (Unit {0})
  after_ack durable ack frames s =
      let gap = ack.resume.gap || boot_changed durable ack.boot_id in
      let started : Resident = record s {
        tally = record s.tally { remaining_replay = count_of ack.replay_count; replay_seen = 0 };
      } in
      (do
        first_snapshots ack gap
        consume ack gap frames
        completed_replay
        λ u.
            account durable s.tally.inserted_count s.tally.duplicate_count (cursor source u.outbox)
              u)
        started

  abbrev pub first_frame : Option EventCursor → List (Answer Fields) → Action Resident (Unit {0})
  first_frame durable [] s = (raised (protocol_error "CMUX stream closed before ack"), s)
  first_frame durable (raised e ∷ frames) s = (raised e, s)
  first_frame durable (returned frame ∷ frames) s =
      (do ack ← lift (parse_ack given.wire frame); after_ack durable ack frames) s

  abbrev pub seq_of : Option EventCursor → Option ℤ
  seq_of none = none
  seq_of (some c) = some c.seq

  unfoldable pub connect : Action Resident (Unit {0})
  connect s =
      let durable = cursor source s.outbox in
      first_frame durable (client.open_stream s.tally.connections (seq_of durable)) (record s {
        tally = record s.tally {
          connections = s.tally.connections + 1;
          reconnect_after_seq = s.tally.reconnect_after_seq ++ seq_of durable ∷ [];
        };
      })

  unfoldable pub connect_times : ℕ → Action Resident (Unit {0})
  connect_times zero = pure tt
  connect_times (suc n) = let rest = connect_times n in (do connect; rest)

  unfoldable pub run : ℕ → Action Resident (Unit {0})
  run zero s = (raised (value_error "max_connections must be positive"), s)
  run (suc n) s =
      (do in_producer (recover_producer (outbox_events source s.outbox)); connect_times (suc n))
        (record s { tally = new_tally })
