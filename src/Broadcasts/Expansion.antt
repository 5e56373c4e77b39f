-- ===== src/Broadcasts/Expansion.antt =====
-- `BroadcastKernel.broadcast` of core/yatagarasu_core/broadcasts.py up to its commit: one event, one
-- frozen roster, one delivery for each seat.
pub mod Committed
pub mod Effects
pub mod Pending
use yatagarasu.Prelude.{
  ℕ, suc, ◌+◌, String, Bool, true, false, not, ◌&&◌, ◌||◌, Option, none, some, List, [], ◌∷◌, ◌++◌,
  map, ◌==◌, string_eq, nat_eq, any, filter, distinct, length, is_empty, if◌then◌else◌,
}
use yatagarasu.Environment.{Environment}
use yatagarasu.Types.{Delivery, session_bound, queued}
use yatagarasu.Proofs.Timestamps.{parse_timestamp}
use yatagarasu.Proofs.Markers.{authority_scope_text}
use yatagarasu.Store.Tables.{
  Store, CanonicalEvent, BroadcastRow, BroadcastRecipient, BroadcastAudit, SessionBindingRow,
}
use yatagarasu.Store.Exec.{
  Exec, Result, ok, err, Error, value_error, integrity_error, operational_error,
  broadcast_conflict_error, insert, transaction, raise_if, raise, pure, lift, for_each, ◌>>=◌, ◌>>◌,
}
use yatagarasu.Store.Deliveries.{has_id, insert_delivery}
use yatagarasu.Store.Bindings.{active_session_binding_for}
use yatagarasu.Store.Rooms.{room_roster}

-- BEGIN IMMEDIATE: an error while a transaction is open
unfoldable pub begin_immediate : Exec (Unit {0})
begin_immediate s =
    if s.in_transaction
    then (err operational_error, s)
    else (ok tt, record s { in_transaction = true })

-- What the fan-out has drawn up for one recipient.
pub record Seat : Type 0 where
  pub recipient_id : String
  pub delivery_id : String
  pub attempt_id : String
  pub binding_id : Option String

abbrev binding_id_of : Option SessionBindingRow → Option String
binding_id_of none = none
binding_id_of (some row) = some row.binding_id

-- `id_factory kind n` is the answer of the factory to the n-th call.
abbrev pub IdFactory : Type 0
IdFactory = String → ℕ → String

module _ (env : Environment) (id_factory : IdFactory) where
  -- the loop over the roster, from call `n` of the factory on
  unfoldable pub draw_seats : String → ℕ → List String → Store → Result (List Seat)
  draw_seats accepted_at n [] s = ok []
  draw_seats accepted_at n (recipient_id ∷ roster) s =
      let rest = draw_seats accepted_at (n + 2) roster s in
      elim (active_session_binding_for env recipient_id (some accepted_at) s) [
        | err e ↦ err e
        | ok binding ↦ elim rest [
          | err e ↦ err e
          | ok seats ↦ ok (
              record {
                recipient_id = recipient_id;
                delivery_id = id_factory "delivery" n;
                attempt_id = id_factory "attempt" (n + 1);
                binding_id = binding_id_of binding;
              }
              ∷ seats)
        ]
      ]

  unfoldable pub insert_event : CanonicalEvent → Exec (Unit {0})
  insert_event event =
      insert
        (λ s.
          not (any (λ e. e.event_id == event.event_id) s.canonical_events)
          && any (λ r. r == event.room_id) s.rooms
          && event.authority_scope == authority_scope_text)
        (λ s. record s { canonical_events = s.canonical_events ++ event ∷ [] })

  unfoldable pub insert_broadcast : BroadcastRow → Exec (Unit {0})
  insert_broadcast row =
      insert
        (λ s.
          not (any (λ b. b.broadcast_id == row.broadcast_id) s.broadcasts)
          && not (any (λ b. b.event_id == row.event_id) s.broadcasts)
          && any (λ e. e.event_id == row.event_id) s.canonical_events
          && any (λ r. r == row.room_id) s.rooms)
        (λ s. record s { broadcasts = s.broadcasts ++ row ∷ [] })

  unfoldable pub insert_recipient : BroadcastRecipient → Exec (Unit {0})
  insert_recipient row =
      insert
        (λ s.
          any (λ b. b.broadcast_id == row.broadcast_id) s.broadcasts
          && any (has_id row.delivery_id) s.deliveries
          && not (any (λ r. r.delivery_id == row.delivery_id) s.broadcast_recipients)
          && not (
              any (λ r. r.broadcast_id == row.broadcast_id && r.recipient_id == row.recipient_id)
                s.broadcast_recipients)
          && not (
              any
                (λ r. r.broadcast_id == row.broadcast_id && r.roster_ordinal == row.roster_ordinal)
                s.broadcast_recipients))
        (λ s. record s { broadcast_recipients = s.broadcast_recipients ++ row ∷ [] })

  unfoldable pub insert_broadcast_audit : BroadcastAudit → Exec (Unit {0})
  insert_broadcast_audit row =
      insert
        (λ s.
          not (any (λ a. a.broadcast_id == row.broadcast_id) s.broadcast_audits)
          && any (λ b. b.broadcast_id == row.broadcast_id) s.broadcasts)
        (λ s. record s { broadcast_audits = s.broadcast_audits ++ row ∷ [] })

  abbrev pub seat_delivery : String → Seat → Delivery
  seat_delivery event_id seat = record {
    event_id = event_id;
    delivery_id = seat.delivery_id;
    attempt_id = seat.attempt_id;
    binding_id = seat.binding_id;
    recipient_id = seat.recipient_id;
    delivery_mode = session_bound;
    state = queued;
    disposition = none;
  }

  abbrev pub seat_recipient : String → ℕ → Seat → BroadcastRecipient
  seat_recipient broadcast_id ordinal seat = record {
    broadcast_id = broadcast_id;
    recipient_id = seat.recipient_id;
    roster_ordinal = ordinal;
    binding_id = seat.binding_id;
    delivery_id = seat.delivery_id;
  }

  -- `for ordinal, (recipient_id, row) in enumerate(zip(roster, rows))`, from `ordinal` on
  unfoldable pub insert_seats : String → String → ℕ → List Seat → Exec (Unit {0})
  insert_seats broadcast_id event_id ordinal [] = pure tt
  insert_seats broadcast_id event_id ordinal (seat ∷ seats) =
      let rest = insert_seats broadcast_id event_id (suc ordinal) seats in
      (do
        insert_delivery (seat_delivery event_id seat)
        insert_recipient (seat_recipient broadcast_id ordinal seat)
        rest)

  abbrev pub is_nil : List String → Bool
  is_nil [] = true
  is_nil (x ∷ xs) = false

  unfoldable pub roster_of : String → String → Store → List String
  roster_of actor_id room_id s =
      filter (λ recipient. not (recipient == actor_id)) (room_roster room_id s)

  module _ (actor_id room_id content accepted_at broadcast_id event_id : String) where
    -- the four kinds of INSERT, in the order of the source
    unfoldable pub write_broadcast : List Seat → ℕ → Exec (Unit {0})
    write_broadcast seats size = do
      insert_event (record {
        event_id = event_id;
        actor_id = actor_id;
        room_id = room_id;
        content = content;
        accepted_at = accepted_at;
        authority_scope = authority_scope_text;
      })
      insert_broadcast (record {
        broadcast_id = broadcast_id;
        event_id = event_id;
        room_id = room_id;
        roster_snapshot_size = size;
      })
      insert_seats broadcast_id event_id 0 seats
      insert_broadcast_audit
          (record { broadcast_id = broadcast_id; event_id = event_id; roster_snapshot_size = size })

    -- The body of the `with` block. The factory has been called `n` times.
    unfoldable pub fan_out : ℕ → Exec (Unit {0})
    fan_out n = do
      begin_immediate
      λ s.
          (do
            raise_if (is_nil (roster_of actor_id room_id s))
                (value_error "broadcast roster is empty")
            seats ← lift (draw_seats accepted_at n (roster_of actor_id room_id s) s)
            raise_if (not (distinct (map (λ seat. seat.delivery_id) seats)))
                (broadcast_conflict_error "delivery ID collision during fan-out")
            write_broadcast seats (length (roster_of actor_id room_id s)))
            s

  -- except sqlite3.IntegrityError
  abbrev pub translate_integrity : Result (Unit {0}) × Store → Result (Unit {0}) × Store
  translate_integrity (err integrity_error, s) =
      (err (broadcast_conflict_error "broadcast expansion was rolled back"), s)
  translate_integrity (r, s) = (r, s)

  check_accepted : Option ℕ → Exec (Unit {0})
  check_accepted none = raise (value_error "timestamp")
  check_accepted (some instant) = pure tt

  -- `broadcast` until the transaction is over; it returns the broadcast's ID.
  unfoldable pub expand : String → String → String → String → ℕ → Exec String
  unfolding check_accepted
  expand actor_id room_id content accepted_at n = do
    raise_if (is_empty actor_id || is_empty room_id || is_empty content)
        (value_error "actor, room, and content must not be empty")
    check_accepted (parse_timestamp env accepted_at)
    λ s. translate_integrity (
        transaction
          (fan_out actor_id room_id content accepted_at (id_factory "broadcast" n)
            (id_factory "event" (n + 1)) (n + 2))
          s)
    pure (id_factory "broadcast" n)
