-- ===== src/Cmux/Resident/Connection.antt =====
-- One connection of the resident of plugins/cmux/yatagarasu_cmux/resident.py: its loop over frames.
use yatagarasu.Prelude.{
  ℕ, zero, suc, ◌+◌, String, Bool, true, ◌&&◌, ◌||◌, any, Option, none, some, List, [], ◌∷◌, ◌==◌,
  string_eq, nat_eq, ◌≡◌, refl, ap, ◌∙◌, inl, inr, Bool-cases, if◌then◌else◌, arith,
}
use yatagarasu.Prelude.Int.{ℤ, pos, int_eq, is_negative}
use yatagarasu.Cmux.Calls.{Action, Answer, returned, raised, continue, ◌>>=◌, ◌>>◌}
use yatagarasu.Cmux.Calls.Laws.{whole_answer}
use yatagarasu.Cmux.Calls.Related
use yatagarasu.Cmux.Calls.Related.{IsRelated, Relates}
use yatagarasu.Cmux.Json.{
  Value, Fields, null, boolean, integer, float, text, list, object, get, as_integer, is_text, Wire,
}
use yatagarasu.Prelude.Rows.{any-append, any_of_find}
use yatagarasu.Cmux.Outbox.{
  Outbox, CommitDisposition, DerivedEvent, EventCursor, SnapshotBaseline, cursor, same_triple,
  commit_event, record_resnapshot,
}
use yatagarasu.Cmux.Outbox.Commits.{commit_event-cases}
use yatagarasu.Cmux.Protocol.{StreamAck, project}
use yatagarasu.Cmux.Emitter.{Collaborators}
use yatagarasu.Cmux.Producer.{Producer}
use yatagarasu.Cmux.Resident.{
  Resident, Client, in_outbox, in_producer, keep_tally, count_of, feed, resnapshot, counted,
  noted_replay, note_replay, on_event, on_error, on_frame, consume, account, first_snapshots,
  completed_replay, slow_at,
}
use yatagarasu.Cmux.Resident.Trail.{
  Yielded, IsEvent, IsPosition, Within, idle, refused, observed, snapped, accounted, further,
}

any_last : (event : DerivedEvent) (b : Bool) → (b || any (same_triple event) (event ∷ [])) ≡ true
unfolding any
any_last event b = ground arith

-- An event that `commit_event` answers for is stored: the event itself, or a row of its triple.
commit_event-stores :
    (wire : Wire) (event : DerivedEvent) (permit : Bool) (s : Outbox) {d : CommitDisposition}
    {t : Outbox}
    → commit_event wire event permit s ≡ (returned d, t)
    → any (same_triple event) t.events ≡ true
commit_event-stores wire event permit s h = elim (commit_event-cases wire event permit s h).1 [
  | inl (_, new) ↦
      ap (λ x. any (same_triple event) x.events) new.after
      ∙ any-append (same_triple event) s.events (event ∷ [])
      ∙ any_last event (any (same_triple event) s.events)
  | inr (_, known) ↦
      ap (λ x. any (same_triple event) x.events) known.unchanged
      ∙ any_of_find (same_triple event) s.events known.row known.found
]

module _ (given : Collaborators) (client : Client) (source : String) (durable : Option EventCursor)
    (stream : List (Answer Fields)) (ack : StreamAck) (gap : Bool) where
  abbrev pub Here : Resident → Resident → Type 0
  Here = Within given client source durable stream ack gap

  abbrev pub IsHere : (A : Type 0) → Resident → Answer A × Resident → Type 0
  IsHere A s p = IsRelated Here A s p

  abbrev pub StaysHere : {A : Type 0} → Action Resident A → Type 0
  StaysHere m = Relates Here m

  pub still : (s : Resident) → Here s s
  still s = idle s s refl refl

  pub continue-IsHere :
      {A B : Type 0} {s : Resident} (f : A → Action Resident B) (r : Answer A) (t : Resident)
      → Here s t
      → ((a : A) → IsHere B t (f a t))
      → IsHere B s (continue r f t)
  continue-IsHere f r t first rest = Related.continue-IsRelated Here further f r t first rest

  pub bind_IsHere :
      {A B : Type 0} (m : Action Resident A) (f : A → Action Resident B) (s : Resident)
      → StaysHere m
      → ((a : A) → StaysHere (f a))
      → IsHere B s ((m >>= f) s)
  bind_IsHere m f s first rest = Related.bind_IsRelated Here further m f s first rest

  if_IsHere :
      {A : Type 0} {s : Resident} (b : Bool) (x y : Answer A × Resident)
      → IsHere A s x
      → IsHere A s y
      → IsHere A s (if b then x else y)
  if_IsHere b x y p q = Related.if-IsRelated Here b x y p q

  -- `_resnapshot`, in a gap and at a position that the connection has reached
  resnapshot-commands :
      (seq : ℤ) (n : ℕ) (s : Resident)
      → gap ≡ true
      → IsPosition given client source stream ack s seq
      → (answer : Answer (List SnapshotBaseline)) → client.snapshots s.tally.snapshot_calls ≡ answer
      → Here s (resnapshot given client source ack seq n s).1
  unfolding resnapshot
  resnapshot-commands seq n s open_gap position (raised e) asked = rw (resnapshot, asked) (still s)
  resnapshot-commands seq n s open_gap position (returned commands) asked =
      let c : EventCursor = record {
        source_instance_id = source;
        boot_id = ack.boot_id;
        seq = seq;
      } in
      let recorded = in_outbox (record_resnapshot given.wire c commands (pos n)) s in
      rw (resnapshot, asked)
        (continue-IsHere {B = Unit {0}} _ recorded.0 recorded.1
          (snapped s.tally.snapshot_calls n commands c s recorded.1 open_gap asked refl refl
            position refl refl)
          (λ _. record { related = idle recorded.1 _ refl refl })).related

  pub resnapshot-IsHere :
      (seq : ℤ) (n : ℕ) (s : Resident)
      → gap ≡ true
      → IsPosition given client source stream ack s seq
      → IsHere (Unit {0}) s (resnapshot given client source ack seq n s)
  resnapshot-IsHere seq n s open_gap position = record {
    related = resnapshot-commands seq n s open_gap position _ refl;
  }

  onwards :
      {A : Type 0} (s t : Resident) (p : Answer A × Resident)
      → Here s t
      → IsHere A t p
      → IsHere A s p
  onwards s t p first rest = record { related = further s t p.1 first rest.related }

  abbrev IsStored : DerivedEvent → Resident → Type 0
  IsStored event s = any (same_triple event) s.outbox.events ≡ true

  noted_replay-IsHere :
      (event : DerivedEvent) (n : ℕ) (s : Resident)
      → IsEvent given client source stream ack event
      → IsStored event s
      → IsHere (Unit {0}) s (noted_replay given client source ack gap event n s)
  noted_replay-IsHere event zero s is stored = record { related = still s }
  noted_replay-IsHere event (suc n) s is stored =
      let seen = s.tally.replay_seen + 1 in
      let noted : Resident = record s {
        tally = record s.tally {
          remaining_replay = n;
          replay_seen = seen;
          replay_count = s.tally.replay_count + 1;
        };
      } in
      elim (Bool-cases (n == 0 && gap)) [
        | inl last ↦ rw last (
            onwards s noted _ (idle s noted refl refl) (
              resnapshot-IsHere event.seq seen noted (ground arith)
                (inr (event, is, refl, stored, ground arith))))
        | inr more ↦ rw more (record { related = idle s noted refl refl })
      ]

  note_replay-IsHere :
      (event : DerivedEvent) (s : Resident)
      → IsEvent given client source stream ack event
      → IsStored event s
      → IsHere (Unit {0}) s (note_replay given client source ack gap event s)
  unfolding note_replay
  note_replay-IsHere event s is stored =
      noted_replay-IsHere event s.tally.remaining_replay s is stored

  -- what follows the projection of an event
  abbrev receipts_then_cursor : DerivedEvent → Action Resident (Unit {0})
  receipts_then_cursor event = do
    in_producer given client source (λ producer. feed given client source producer event)
    disposition ← in_outbox (commit_event given.wire event gap)
    keep_tally (counted given client source disposition)
    note_replay given client source ack gap event

  abbrev cursor_after : DerivedEvent → Action Resident (Unit {0})
  cursor_after event = do
    disposition ← in_outbox (commit_event given.wire event gap)
    keep_tally (counted given client source disposition)
    note_replay given client source ack gap event

  module _ (event : DerivedEvent) (is : IsEvent given client source stream ack event) where
    abbrev count_then_note : CommitDisposition → Action Resident (Unit {0})
    count_then_note disposition = do
      keep_tally (counted given client source disposition)
      note_replay given client source ack gap event

    committed-IsHere :
        (answer : Answer CommitDisposition) (s t : Resident)
        → Here s t
        → ((d : CommitDisposition) → answer ≡ returned d → IsStored event t)
        → IsHere (Unit {0}) s (continue answer count_then_note t)
    committed-IsHere (raised e) s t first stored = record { related = first }
    committed-IsHere (returned d) s t first stored =
        let tallied : Resident = record t { tally = counted given client source d t.tally } in
        onwards s tallied _ (further s t tallied first (idle t tallied refl refl))
          (note_replay-IsHere event tallied is (stored d refl))

    fed-IsHere :
        (answer : Answer (Unit {0})) (after : Option Producer) (s : Resident)
        → feed given client source s.producer event ≡ (answer, after)
        → IsHere
            (Unit {0})
            s
            (continue answer (λ _. cursor_after event) (record s { producer = after }))
    fed-IsHere (raised e) after s answered = record {
      related = refused event e s (record s { producer = after }) is answered refl;
    }
    fed-IsHere (returned _) after s answered =
        let fed : Resident = record s { producer = after } in
        let committed = in_outbox (commit_event given.wire event gap) fed in
        committed-IsHere committed.0 s committed.1 (observed event s committed.1 is answered refl)
          (λ d e.
            commit_event-stores given.wire event gap s.outbox
              (whole_answer (commit_event given.wire event gap s.outbox) e))

    receipts_then_cursor-StaysHere : StaysHere (receipts_then_cursor event)
    receipts_then_cursor-StaysHere s =
        fed-IsHere (feed given client source s.producer event).0
          (feed given client source s.producer event).1 s refl

  projected-IsHere :
      (frame : Fields) (s : Resident)
      → Yielded frame stream
      → (answer : Answer DerivedEvent) → project given.wire source frame ack.boot_id ≡ answer
      → IsHere (Unit {0}) s (continue answer receipts_then_cursor s)
  projected-IsHere frame s yielded (raised e) projected = record { related = still s }
  projected-IsHere frame s yielded (returned event) projected =
      receipts_then_cursor-StaysHere event
        (record { frame = frame; yielded = yielded; projected = projected }) s

  on_event-StaysHere :
      (frame : Fields)
      → Yielded frame stream
      → StaysHere (on_event given client source ack gap frame)
  unfolding on_event
  on_event-StaysHere frame yielded s =
      projected-IsHere frame s yielded (project given.wire source frame ack.boot_id) refl

  slow_at-StaysHere : (latest : Option ℤ) → StaysHere (slow_at given client source latest)
  slow_at-StaysHere none s = record { related = idle s _ refl refl }
  slow_at-StaysHere (some latest) s =
      if_IsHere (is_negative latest) _ _ (record { related = idle s _ refl refl })
        (record { related = idle s _ refl refl })

  on_error-StaysHere : (error : Value) → StaysHere (on_error given client source error)
  on_error-StaysHere (object error) s =
      if_IsHere (is_text "slow_consumer" (get "code" error)) _ _
        (slow_at-StaysHere (as_integer (get "latest_seq" error)) s) (record { related = still s })
  on_error-StaysHere null s = record { related = still s }
  on_error-StaysHere (boolean b) s = record { related = still s }
  on_error-StaysHere (integer n) s = record { related = still s }
  on_error-StaysHere (float x) s = record { related = still s }
  on_error-StaysHere (text t) s = record { related = still s }
  on_error-StaysHere (list xs) s = record { related = still s }

  on_frame-StaysHere :
      (frame : Fields) (rest : Action Resident (Unit {0}))
      → Yielded frame stream
      → StaysHere rest
      → StaysHere (on_frame given client source ack gap frame rest)
  on_frame-StaysHere frame rest yielded stays s =
      if_IsHere (is_text "heartbeat" (get "type" frame)) _ _ (stays s) (
        if_IsHere (is_text "error" (get "type" frame)) _ _
          (on_error-StaysHere (get "error" frame) s)
          (if_IsHere (is_text "event" (get "type" frame)) _ _
            (bind_IsHere (on_event given client source ack gap frame) _ s
              (on_event-StaysHere frame yielded) (λ _. stays))
            (record { related = still s })))

  -- the loop over frames of the stream
  pub consume-StaysHere :
      (frames : List (Answer Fields))
      → ((frame : Fields) → Yielded frame frames → Yielded frame stream)
      → StaysHere (consume given client source ack gap frames)
  unfolding consume
  consume-StaysHere [] part s = record { related = still s }
  consume-StaysHere (raised e ∷ frames) part s = record { related = still s }
  consume-StaysHere (returned frame ∷ frames) part s =
      on_frame-StaysHere frame (consume given client source ack gap frames) (part frame (inl refl))
        (consume-StaysHere frames (λ f yielded. part f (inr yielded))) s

  pub account-IsHere :
      (before after : Option EventCursor) (n m : ℕ) (s : Resident)
      → durable ≡ before
      → cursor source s.outbox ≡ after
      → IsHere (Unit {0}) s (account given client source before n m after s)
  account-IsHere none after n m s began ended = record { related = still s }
  account-IsHere (some before) none n m s began ended = record { related = still s }
  account-IsHere (some before) (some after) n m s began ended = record {
    related = accounted before after _ s _ began ended refl refl refl;
  }

  pub first_snapshots-StaysHere : StaysHere (first_snapshots given client source ack gap)
  first_snapshots-StaysHere s = elim (Bool-cases (gap && count_of ack.replay_count == 0)) [
    | inl at_once ↦
        rw at_once
          (resnapshot-IsHere ack.resume.latest_seq 0 s (ground arith) (inl (ground arith, refl)))
    | inr later ↦ rw later (record { related = still s })
  ]

  pub completed_replay-StaysHere : StaysHere (completed_replay given client source)
  completed_replay-StaysHere s =
      if_IsHere (s.tally.remaining_replay == 0) _ _ (record { related = still s })
        (record { related = still s })
