-- ===== src/Cmux/Resident/Trail.antt =====
-- What a run of the resident of plugins/cmux/yatagarasu_cmux/resident.py may do to the outbox, step
-- by step, and from where each step takes its arguments.
use yatagarasu.Prelude.{
  ℕ, Bool, true, ◌||◌, String, Option, some, List, [], ◌∷◌, ◌≡◌, ◌⊎◌, any, string_eq,
}
use yatagarasu.Prelude.Int.{ℤ, pos, int_eq}
use yatagarasu.Cmux.Calls.{Answer, Error, returned, raised}
use yatagarasu.Cmux.Json.{Fields}
use yatagarasu.Cmux.Outbox.{
  DerivedEvent, EventCursor, SnapshotBaseline, ReplayCounts, cursor, same_triple, commit_event,
  record_resnapshot, record_reconnect_replay,
}
use yatagarasu.Cmux.Protocol.{StreamAck, parse_ack, project}
use yatagarasu.Cmux.Emitter.{Collaborators}
use yatagarasu.Cmux.Resident.{Resident, Client, count_of, feed, boot_changed, seq_of}

-- the stream has yielded the frame
abbrev pub Yielded : Fields → List (Answer Fields) → Type 0
Yielded frame [] = ⊥
Yielded frame (f ∷ fs) = (f ≡ returned frame) ⊎ Yielded frame fs

module _ (given : Collaborators) (client : Client) (source : String) where
  -- the frame is one of the stream, and is projected to the event under the stream's boot
  pub record IsEvent (stream : List (Answer Fields)) (ack : StreamAck) (event : DerivedEvent)
      : Type 0 where
    pub frame : Fields
    pub yielded : Yielded frame stream
    pub projected : project given.wire source frame ack.boot_id ≡ returned event

  -- the position of a snapshot: the acknowledgement's latest if nothing is replayed, or that of an
  -- event that has completed the replay and is stored
  abbrev pub IsPosition : List (Answer Fields) → StreamAck → Resident → ℤ → Type 0
  IsPosition stream ack s seq =
      ((count_of ack.replay_count ≡ 0) × (seq ≡ ack.resume.latest_seq))
      ⊎ ((event : DerivedEvent) × IsEvent stream ack event
          × (seq ≡ event.seq)
          × (any (same_triple event) s.outbox.events ≡ true)
          × (s.tally.remaining_replay ≡ 0))

  -- The steps within one connection, which began at the durable cursor.
  pub data Within (durable : Option EventCursor) (stream : List (Answer Fields)) (ack : StreamAck)
      (gap : Bool) : Resident → Resident → Type 0 where
    -- neither the outbox nor the producer changes
    idle :
        (s t : Resident)
        → t.outbox ≡ s.outbox
        → t.producer ≡ s.producer
        → Within durable stream ack gap s t
    -- the producer does not take an event, and the outbox stays as it was
    refused :
        (event : DerivedEvent) (e : Error) (s t : Resident)
        → IsEvent stream ack event
        → feed given client source s.producer event ≡ (raised e, t.producer)
        → t.outbox ≡ s.outbox
        → Within durable stream ack gap s t
    -- the producer takes an event, and then it is committed
    observed :
        (event : DerivedEvent) (s t : Resident)
        → IsEvent stream ack event
        → feed given client source s.producer event ≡ (returned tt, t.producer)
        → t.outbox ≡ (commit_event given.wire event gap s.outbox).1
        → Within durable stream ack gap s t
    -- snapshots are recorded, in a gap only
    snapped :
        (n k : ℕ) (commands : List SnapshotBaseline) (c : EventCursor) (s t : Resident)
        → gap ≡ true
        → client.snapshots n ≡ returned commands
        → c.source_instance_id ≡ source
        → c.boot_id ≡ ack.boot_id
        → IsPosition stream ack s c.seq
        → t.producer ≡ s.producer
        → t.outbox ≡ (record_resnapshot given.wire c commands (pos k) s.outbox).1
        → Within durable stream ack gap s t
    -- the replay is accounted for at the durable cursor, if there was one to resume from
    accounted :
        (before after : EventCursor) (counts : ReplayCounts) (s t : Resident)
        → durable ≡ some before
        → cursor source s.outbox ≡ some after
        → counts.requested_after_seq ≡ before.seq
        → t.producer ≡ s.producer
        → t.outbox ≡ (record_reconnect_replay given.wire after counts s.outbox).1
        → Within durable stream ack gap s t
    further :
        (s t u : Resident)
        → Within durable stream ack gap s t
        → Within durable stream ack gap t u
        → Within durable stream ack gap s u

  -- The steps of a run: work that leaves the outbox as it is, and connections that are opened at
  -- the durable cursor. A change of boot is permitted if the acknowledgement declares a gap, or
  -- has another boot than that cursor.
  pub data Trail : Resident → Resident → Type 0 where
    quiet : (s t : Resident) → t.outbox ≡ s.outbox → Trail s t
    connected :
        (n : ℕ) (first : Fields) (frames : List (Answer Fields)) (ack : StreamAck)
        (s before t : Resident)
        → before.outbox ≡ s.outbox
        → client.open_stream n (seq_of given client source (cursor source s.outbox))
          ≡ returned first ∷ frames
        → parse_ack given.wire first ≡ returned ack
        → Within
            (cursor source s.outbox)
            frames
            ack
            (ack.resume.gap
              || boot_changed given client source (cursor source s.outbox) ack.boot_id)
            before
            t
        → Trail s t
    onward : (s t u : Resident) → Trail s t → Trail t u → Trail s u
