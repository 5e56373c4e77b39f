-- ===== src/Cmux/Outbox/Commits.antt =====
-- `commit_event` of plugins/cmux/yatagarasu_cmux/event_outbox.py, by what it answers.
use yatagarasu.Prelude.{
  Bool, true, false, none, some, List, [], ◌∷◌, ◌++◌, string_eq, find, any, update, ◌≡◌, ◌≢◌, ◌⊎◌,
  inl, inr, Option-cases, arith, if◌then◌else◌,
}
use yatagarasu.Prelude.Int.{int_eq, is_negative}
use yatagarasu.Prelude.Rows.{any_of_none}
use yatagarasu.Cmux.Calls.{Error, returned, raised, sqlite_integrity_error}
use yatagarasu.Cmux.Calls.Laws.{Answer-cases, transaction-eq-raised, transaction-eq-returned}
use yatagarasu.Cmux.Json.{Wire}
use yatagarasu.Cmux.Outbox.{
  Outbox, DerivedEvent, EventCursor, CommitDisposition, inserted, duplicate, cursor, cursor_of,
  same_triple, same_id, same_event, same_source, validate_event, check_cursor, commit_new,
  commit_body, commit_event, insert_event, upsert_cursor,
}

-- the cursors after an upsert
abbrev pub set_cursor : EventCursor → List EventCursor → List EventCursor
set_cursor c cursors =
    if any (same_source c) cursors
    then update (same_source c) (λ row. record row { boot_id = c.boot_id; seq = c.seq }) cursors
    else cursors ++ c ∷ []

-- The event is new, in triple and in ID, and the cursor lets it in.
pub record Inserted (event : DerivedEvent) (permit : Bool) (s t : Outbox) : Type 0 where
  pub new_triple : any (same_triple event) s.events ≡ false
  pub new_id : any (same_id event) s.events ≡ false
  pub permitted : check_cursor event permit (cursor event.source_instance_id s) ≡ returned tt
  pub not_negative : is_negative event.seq ≡ false
  pub after : t ≡ record s {
    events = s.events ++ event ∷ [];
    cursors = set_cursor (cursor_of event) s.cursors;
  }

pub record Known (event : DerivedEvent) (s t : Outbox) : Type 0 where
  pub row : DerivedEvent
  pub found : find (same_triple event) s.events ≡ some row
  pub same : same_event row event ≡ true
  pub unchanged : t ≡ s

module _ (event : DerivedEvent) (permit : Bool) (s : Outbox) where
  commit_new-Inserted :
      {d : CommitDisposition} {t : Outbox}
      → commit_new event permit s ≡ (returned d, t)
      → (d ≡ inserted) × Inserted event permit s t
  unfolding commit_new insert_event upsert_cursor
  commit_new-Inserted h = (
    ground arith,
    record {
      new_triple = ground arith;
      new_id = ground arith;
      permitted = ground arith;
      not_negative = ground arith;
      after = ground arith;
    },
  )

  commit_new-not_integrity :
      {t : Outbox}
      → find (same_triple event) s.events ≡ none
      → is_negative event.seq ≡ false
      → commit_new event permit s ≢ (raised sqlite_integrity_error, t)
  unfolding commit_new insert_event upsert_cursor check_cursor
  commit_new-not_integrity absent positive h =
      ground (arith, any_of_none (same_triple event) s.events absent)

  commit_body-cases :
      {d : CommitDisposition} {t : Outbox}
      → commit_body event permit s ≡ (returned d, t)
      → ((d ≡ inserted) × Inserted event permit s t) ⊎ ((d ≡ duplicate) × Known event s t)
  unfolding commit_body
  commit_body-cases h = elim (Option-cases (find (same_triple event) s.events)) [
    | inl absent ↦ inl (commit_new-Inserted (rw (commit_body, absent) at h))
    | inr (row, found) ↦ inr (
      ground arith,
      record { row = row; found = found; same = ground arith; unchanged = ground arith },
    )
  ]

  commit_body-not_integrity :
      {t : Outbox}
      → is_negative event.seq ≡ false
      → commit_body event permit s ≢ (raised sqlite_integrity_error, t)
  unfolding commit_body
  commit_body-not_integrity positive h = elim (Option-cases (find (same_triple event) s.events)) [
    | inl absent ↦ commit_new-not_integrity absent positive (rw (commit_body, absent) at h)
    | inr (row, found) ↦ ground arith
  ]

validate_event-positive :
    (wire : Wire) (event : DerivedEvent)
    → validate_event wire event ≡ returned tt
    → is_negative event.seq ≡ false
unfolding validate_event
validate_event-positive wire event h = ground arith

validate_event-not_integrity :
    (wire : Wire) (event : DerivedEvent) → validate_event wire event ≢ raised sqlite_integrity_error
unfolding validate_event
validate_event-not_integrity wire event h = ground arith

module _ (wire : Wire) (event : DerivedEvent) (permit : Bool) (s : Outbox) where
  -- When `commit_event` returns, the event is valid, and either it was new in its triple and in its
  -- ID and let in by the cursor, and then it stands at the end of the outbox and the cursor of its
  -- source stands at it; or a row with its triple already held the same event, and nothing changed.
  pub commit_event-cases :
      {d : CommitDisposition} {t : Outbox}
      → commit_event wire event permit s ≡ (returned d, t)
      → (validate_event wire event ≡ returned tt)
        × (((d ≡ inserted) × Inserted event permit s t) ⊎ ((d ≡ duplicate) × Known event s t))
  unfolding commit_event
  commit_event-cases h = elim (Answer-cases (validate_event wire event)) [
    | inl (_, valid) ↦
        let ran =
          transaction-eq-returned (commit_body event permit) s (rw (commit_event, valid) at h) in
        (valid, commit_body-cases event permit s ran)
    | inr (e, invalid) ↦ absurd (ground arith)
  ]

  -- When `commit_event` raises, the outbox is as it was, and the exception is never one of
  -- SQLite's constraints: the tests before the INSERT have excluded it.
  pub commit_event-raised :
      {e : Error} {t : Outbox}
      → commit_event wire event permit s ≡ (raised e, t)
      → (t ≡ s) × (e ≢ sqlite_integrity_error)
  unfolding commit_event
  commit_event-raised h = elim (Answer-cases (validate_event wire event)) [
    | inl (_, valid) ↦
        let (u, ran, kept) =
          transaction-eq-raised (commit_body event permit) s (rw (commit_event, valid) at h) in
        let positive = validate_event-positive wire event valid in
        (kept, λ e. commit_body-not_integrity event permit s positive (rw e at ran))
    | inr (e', invalid) ↦ (ground arith, ground (arith, validate_event-not_integrity wire event))
  ]
