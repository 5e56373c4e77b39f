-- ===== src/Cmux/Outbox.antt =====
-- `EventOutbox` of plugins/cmux/yatagarasu_cmux/event_outbox.py: the durable events, the cursor for
-- each source, the audit and the snapshot baselines. `captured_at`, the database's clock, is left out.
pub mod Checks
pub mod Commits
pub mod Cursors
pub mod Forward
pub mod Keys
pub mod Repeats
pub mod Resnapshots
pub mod Steps
pub mod Unique
use yatagarasu.Prelude.{
  ℕ, String, Bool, true, false, not, ◌&&◌, ◌||◌, Option, none, some, List, [], ◌∷◌, ◌++◌, map, ◌==◌,
  string_eq, option_eq, bool_eq, find, filter, any, distinct, update, is_empty, if◌then◌else◌,
}
use yatagarasu.Prelude.Int.{ℤ, int_eq, is_negative, lt_int, le_int}
use yatagarasu.Cmux.Calls.{
  Action, Answer, Error, returned, raised, outbox_error, sqlite_integrity_error, refuse_if,
  and_then, pure, lift, transaction, for_each, ◌>>=◌, ◌>>◌,
}
use yatagarasu.Cmux.Json.{
  Value, Wire, text, integer, null, list, object, Values, end, item, field, no_fields,
}

pub data CommitDisposition : Type 0 where
  inserted duplicate : CommitDisposition

pub record EventCursor : Type 0 where
  pub source_instance_id : String
  pub boot_id : String
  pub seq : ℤ

pub record DerivedEvent : Type 0 where
  pub source_instance_id : String
  pub boot_id : String
  pub seq : ℤ
  pub source_event_id : String
  pub event_name : String
  pub event_json : String

abbrev pub cursor_of : DerivedEvent → EventCursor
cursor_of event = record {
  source_instance_id = event.source_instance_id;
  boot_id = event.boot_id;
  seq = event.seq;
}

pub record SnapshotBaseline : Type 0 where
  pub method : String
  pub snapshot_json : String

pub record StreamAudit : Type 0 where
  pub source_instance_id : String
  pub kind : String
  pub boot_id : String
  pub seq : ℤ
  pub detail_json : String

pub record StoredBaseline : Type 0 where
  pub source_instance_id : String
  pub method : String
  pub boot_id : String
  pub seq : ℤ
  pub snapshot_json : String

pub record Outbox : Type 0 where
  pub cursors : List EventCursor
  pub events : List DerivedEvent
  pub audits : List StreamAudit
  pub baselines : List StoredBaseline

unfoldable pub cursor : String → Outbox → Option EventCursor
cursor source s = find (λ c. c.source_instance_id == source) s.cursors

-- the primary key of source_event_outbox, and its UNIQUE columns
abbrev pub same_triple : DerivedEvent → DerivedEvent → Bool
same_triple a b =
    b.source_instance_id == a.source_instance_id && b.boot_id == a.boot_id && b.seq == a.seq

abbrev pub same_id : DerivedEvent → DerivedEvent → Bool
same_id a b = b.source_instance_id == a.source_instance_id && b.source_event_id == a.source_event_id

-- `_same_event`
abbrev pub same_event : DerivedEvent → DerivedEvent → Bool
same_event row event =
    row.source_event_id == event.source_event_id
    && row.event_name == event.event_name
    && row.event_json == event.event_json

abbrev check_object : Option Value → Answer (Unit {0})
check_object none = raised (outbox_error "derived event is not valid JSON")
check_object (some (object _)) = returned tt
check_object (some _) = raised (outbox_error "derived event must be a JSON object")

abbrev pub incomplete : DerivedEvent → Bool
incomplete event =
    is_empty event.source_instance_id
    || is_empty event.boot_id
    || is_negative event.seq
    || is_empty event.source_event_id
    || is_empty event.event_name

unfoldable pub validate_event : Wire → DerivedEvent → Answer (Unit {0})
validate_event wire event =
    if incomplete event
    then raised (outbox_error "source event identity is incomplete")
    else check_object (wire.loads event.event_json)

abbrev pub same_source : EventCursor → EventCursor → Bool
same_source a b = b.source_instance_id == a.source_instance_id

-- INSERT … ON CONFLICT(source_instance_id) DO UPDATE, with the CHECK on seq
unfoldable pub upsert_cursor : EventCursor → Action Outbox (Unit {0})
upsert_cursor c s = if is_negative c.seq then (raised sqlite_integrity_error, s) else (
  returned tt,
  record s {
    cursors =
        if any (same_source c) s.cursors
        then update (same_source c) (λ row. record row { boot_id = c.boot_id; seq = c.seq })
            s.cursors
        else s.cursors ++ c ∷ [];
  },
)

unfoldable pub insert_event : DerivedEvent → Action Outbox (Unit {0})
insert_event event s =
    if any (same_triple event) s.events || any (same_id event) s.events || is_negative event.seq
    then (raised sqlite_integrity_error, s)
    else (returned tt, record s { events = s.events ++ event ∷ [] })

-- the tests of the durable cursor
unfoldable pub check_cursor : DerivedEvent → Bool → Option EventCursor → Answer (Unit {0})
check_cursor event permit_boot_change none = returned tt
check_cursor event permit_boot_change (some c) =
    if not (c.boot_id == event.boot_id) && not permit_boot_change
    then raised (outbox_error "boot changed without a declared resume gap")
    else if c.boot_id == event.boot_id && le_int event.seq c.seq
    then raised (outbox_error "unseen event does not advance the durable cursor")
    else returned tt

unfoldable pub commit_new : DerivedEvent → Bool → Action Outbox CommitDisposition
commit_new event permit_boot_change s =
    (do
      lift (
          refuse_if (any (same_id event) s.events)
            (outbox_error "source event ID was replayed under a new cursor"))
      lift (check_cursor event permit_boot_change (cursor event.source_instance_id s))
      insert_event event
      upsert_cursor (cursor_of event)
      pure inserted)
      s

unfoldable pub commit_body : DerivedEvent → Bool → Action Outbox CommitDisposition
commit_body event permit_boot_change s = elim (find (same_triple event) s.events) [
  | none ↦ commit_new event permit_boot_change s
  | some row ↦
      (do
        lift (
            refuse_if (not (same_event row event))
              (outbox_error "cursor triple already names different evidence"))
        pure duplicate)
        s
]

unfoldable pub commit_event : Wire → DerivedEvent → Bool → Action Outbox CommitDisposition
commit_event wire event permit_boot_change = do
  lift (validate_event wire event)
  transaction (commit_body event permit_boot_change)

unfoldable pub check_snapshots : Wire → List SnapshotBaseline → Answer (Unit {0})
check_snapshots wire [] = returned tt
check_snapshots wire (snapshot ∷ snapshots) =
    let rest = check_snapshots wire snapshots in
    if is_empty snapshot.method
    then raised (outbox_error "gap recovery snapshot method is empty")
    else elim (wire.loads snapshot.snapshot_json) [
      | none ↦ raised (outbox_error "gap recovery snapshot is not valid JSON")
      | some value ↦ rest
    ]

abbrev is_nil : List SnapshotBaseline → Bool
is_nil [] = true
is_nil (x ∷ xs) = false

abbrev pub regresses : EventCursor → Option EventCursor → Bool
regresses c none = false
regresses c (some current) = current.boot_id == c.boot_id && lt_int c.seq current.seq

abbrev pub same_baseline : StoredBaseline → StoredBaseline → Bool
same_baseline a b = b.source_instance_id == a.source_instance_id && b.method == a.method

unfoldable pub upsert_baseline : StoredBaseline → Action Outbox (Unit {0})
upsert_baseline row s = if is_negative row.seq then (raised sqlite_integrity_error, s) else (
  returned tt,
  record s {
    baselines =
        if any (same_baseline row) s.baselines
        then update (same_baseline row)
            (λ old. record old {
              boot_id = row.boot_id;
              seq = row.seq;
              snapshot_json = row.snapshot_json;
            })
            s.baselines
        else s.baselines ++ row ∷ [];
  },
)

unfoldable pub insert_audit : StreamAudit → Action Outbox (Unit {0})
insert_audit row s =
    if is_negative row.seq
    then (raised sqlite_integrity_error, s)
    else (returned tt, record s { audits = s.audits ++ row ∷ [] })

abbrev pub baseline_row : EventCursor → SnapshotBaseline → StoredBaseline
baseline_row c snapshot = record {
  source_instance_id = c.source_instance_id;
  method = snapshot.method;
  boot_id = c.boot_id;
  seq = c.seq;
  snapshot_json = snapshot.snapshot_json;
}

text_values : List String → Values
text_values [] = end
text_values (s ∷ ss) = item (text s) (text_values ss)

unfoldable pub resnapshot_detail : Wire → List SnapshotBaseline → ℤ → String
unfolding text_values
resnapshot_detail wire snapshots replay_count = wire.dumps (
    object (
      field "commands" (list (text_values (map (λ snapshot. snapshot.method) snapshots)))
        (field "replay_count" (integer replay_count) no_fields)))

unfoldable pub write_resnapshot :
    EventCursor → List SnapshotBaseline → String → Action Outbox (Unit {0})
write_resnapshot c snapshots detail = do
  for_each (λ snapshot. upsert_baseline (baseline_row c snapshot)) snapshots
  insert_audit (record {
    source_instance_id = c.source_instance_id;
    kind = "gap_resnapshot";
    boot_id = c.boot_id;
    seq = c.seq;
    detail_json = detail;
  })
  upsert_cursor c

-- the tests before the transaction, at the durable cursor
unfoldable pub check_resnapshot :
    Wire → EventCursor → List SnapshotBaseline → Option EventCursor → Answer (Unit {0})
check_resnapshot wire c snapshots current =
    if is_nil snapshots
    then raised (outbox_error "gap recovery requires literal snapshot commands")
    else if not (distinct (map (λ snapshot. snapshot.method) snapshots))
    then raised (outbox_error "gap recovery snapshot commands must be unique")
    else and_then (check_snapshots wire snapshots) (
        refuse_if (regresses c current)
          (outbox_error "gap snapshot cannot regress the durable cursor"))

unfoldable pub record_resnapshot :
    Wire → EventCursor → List SnapshotBaseline → ℤ → Action Outbox (Unit {0})
record_resnapshot wire c snapshots replay_count s =
    (do
      lift (check_resnapshot wire c snapshots (cursor c.source_instance_id s))
      transaction (write_resnapshot c snapshots (resnapshot_detail wire snapshots replay_count)))
      s

pub record ReplayCounts : Type 0 where
  pub requested_after_seq : ℤ
  pub replay_count : ℤ
  pub inserted_count : ℤ
  pub duplicate_count : ℤ
  pub disconnect_at_seq : Option ℤ

abbrev optional_integer : Option ℤ → Value
optional_integer none = null
optional_integer (some n) = integer n

unfoldable pub replay_detail : Wire → ReplayCounts → String
replay_detail wire counts = wire.dumps (
    object (
      field "duplicate_count" (integer counts.duplicate_count) (
        field "inserted_count" (integer counts.inserted_count) (
          field "replay_count" (integer counts.replay_count) (
            field "requested_after_seq" (integer counts.requested_after_seq)
              (field "disconnect_at_seq" (optional_integer counts.disconnect_at_seq) no_fields))))))

abbrev pub is_durable : EventCursor → Option EventCursor → Bool
is_durable c none = false
is_durable c (some current) =
    current.source_instance_id == c.source_instance_id
    && current.boot_id == c.boot_id
    && current.seq == c.seq

unfoldable pub record_reconnect_replay :
    Wire → EventCursor → ReplayCounts → Action Outbox (Unit {0})
record_reconnect_replay wire c counts s =
    (do
      lift (
          refuse_if (not (is_durable c (cursor c.source_instance_id s)))
            (outbox_error "reconnect audit cursor is not the durable winner"))
      transaction (
          insert_audit (record {
            source_instance_id = c.source_instance_id;
            kind = "reconnect_replay";
            boot_id = c.boot_id;
            seq = c.seq;
            detail_json = replay_detail wire counts;
          })))
      s

-- the rows in rowid order
unfoldable pub outbox_events : String → Outbox → List DerivedEvent
outbox_events source s = filter (λ event. event.source_instance_id == source) s.events

unfoldable pub audit_rows : String → Outbox → List StreamAudit
audit_rows source s = filter (λ row. row.source_instance_id == source) s.audits
