-- ===== src/Broadcasts/Expansion/Effects.antt =====
-- What the statements of a broadcast write, from core/yatagarasu_core/broadcasts.py.
use mathlib.Core.List.{append-nil, append_assoc}
use yatagarasu.Prelude.{
  ℕ, suc, ◌+◌, String, ◌≡◌, Bool, true, List, [], ◌∷◌, ◌++◌, map, string_eq, arith,
}
use yatagarasu.Environment.{Environment}
use yatagarasu.Types.{Delivery}
use yatagarasu.Proofs.Markers.{authority_scope_text}
use yatagarasu.Store.Tables.{
  Store, BroadcastRecipient, CanonicalEvent, BroadcastRow, BroadcastAudit,
}
use yatagarasu.Store.Exec.{ok}
use yatagarasu.Store.Exec.Laws.{both_return}
use yatagarasu.Store.Deliveries.{insert_delivery}
use yatagarasu.Broadcasts.Expansion.{
  IdFactory, Seat, draw_seats, seat_delivery, seat_recipient, insert_recipient, insert_seats,
  insert_event, insert_broadcast, insert_broadcast_audit, write_broadcast,
}

module _ (env : Environment) (id_factory : IdFactory) where
  -- enumerate, from `ordinal` on
  abbrev pub seat_rows : String → ℕ → List Seat → List BroadcastRecipient
  seat_rows broadcast_id ordinal [] = []
  seat_rows broadcast_id ordinal (seat ∷ seats) =
      seat_recipient env id_factory broadcast_id ordinal seat
      ∷ seat_rows broadcast_id (suc ordinal) seats

  pub draw_seats-recipients :
      (accepted_at : String) (n : ℕ) (roster : List String) (s : Store) (seats : List Seat)
      → draw_seats env id_factory accepted_at n roster s ≡ ok seats
      → map (λ seat. seat.recipient_id) seats ≡ roster
  unfolding draw_seats
  draw_seats-recipients accepted_at n [] s seats h = ground arith
  draw_seats-recipients accepted_at n (r ∷ roster) s [] h = ground arith
  draw_seats-recipients accepted_at n (r ∷ roster) s (seat ∷ seats) h =
      ground (arith, draw_seats-recipients accepted_at (n + 2) roster s seats)

  insert_delivery-eq-ok :
      (row : Delivery) (s : Store) {t : Store}
      → insert_delivery row s ≡ (ok tt, t)
      → t ≡ record s { deliveries = s.deliveries ++ row ∷ []; in_transaction = true }
  unfolding insert_delivery
  insert_delivery-eq-ok row s h = ground arith

  insert_recipient-eq-ok :
      (row : BroadcastRecipient) (s : Store) {t : Store}
      → insert_recipient env id_factory row s ≡ (ok tt, t)
      → t ≡ record s {
        broadcast_recipients = s.broadcast_recipients ++ row ∷ [];
        in_transaction = true;
      }
  unfolding insert_recipient
  insert_recipient-eq-ok row s h = ground arith

  insert_event-eq-ok :
      (row : CanonicalEvent) (s : Store) {t : Store}
      → insert_event env id_factory row s ≡ (ok tt, t)
      → t ≡ record s { canonical_events = s.canonical_events ++ row ∷ []; in_transaction = true }
  unfolding insert_event
  insert_event-eq-ok row s h = ground arith

  insert_broadcast-eq-ok :
      (row : BroadcastRow) (s : Store) {t : Store}
      → insert_broadcast env id_factory row s ≡ (ok tt, t)
      → t ≡ record s { broadcasts = s.broadcasts ++ row ∷ []; in_transaction = true }
  unfolding insert_broadcast
  insert_broadcast-eq-ok row s h = ground arith

  insert_broadcast_audit-eq-ok :
      (row : BroadcastAudit) (s : Store) {t : Store}
      → insert_broadcast_audit env id_factory row s ≡ (ok tt, t)
      → t ≡ record s { broadcast_audits = s.broadcast_audits ++ row ∷ []; in_transaction = true }
  unfolding insert_broadcast_audit
  insert_broadcast_audit-eq-ok row s h = ground arith

  -- the two tables that the loop over the seats extends
  pub record Seated (broadcast_id event_id : String) (ordinal : ℕ) (seats : List Seat) (s t : Store)
      : Type 0 where
    pub pending : Bool
    pub after : t ≡ record s {
      deliveries = s.deliveries ++ map (seat_delivery env id_factory event_id) seats;
      broadcast_recipients = s.broadcast_recipients ++ seat_rows broadcast_id ordinal seats;
      in_transaction = pending;
    }

  insert_seats-Seated :
      (broadcast_id event_id : String) (ordinal : ℕ) (seats : List Seat) (s : Store) {t : Store}
      → insert_seats env id_factory broadcast_id event_id ordinal seats s ≡ (ok tt, t)
      → Seated broadcast_id event_id ordinal seats s t
  unfolding insert_seats
  insert_seats-Seated broadcast_id event_id ordinal [] s h = record {
    pending = s.in_transaction;
    after = rw (append-nil, append-nil) (ground arith);
  }
  insert_seats-Seated broadcast_id event_id ordinal (seat ∷ seats) s {t} h =
      let row = seat_recipient env id_factory broadcast_id ordinal seat in
      let (_, u, first, h₁) =
        both_return (insert_delivery (seat_delivery env id_factory event_id seat)) _ s h in
      let (_, v, second, h₂) = both_return (insert_recipient env id_factory row) _ u h₁ in
      let rest = insert_seats-Seated broadcast_id event_id (suc ordinal) seats v h₂ in
      let written = insert_delivery-eq-ok _ s first in
      let noted = insert_recipient-eq-ok row u second in
      record { pending = rest.pending; after = rw (rest.after, noted, written) (simp append_assoc) }

  module _ (actor_id room_id content accepted_at broadcast_id event_id : String) where
    abbrev pub event : CanonicalEvent
    event = record {
      event_id = event_id;
      actor_id = actor_id;
      room_id = room_id;
      content = content;
      accepted_at = accepted_at;
      authority_scope = authority_scope_text;
    }

    abbrev pub header : ℕ → BroadcastRow
    header size = record {
      broadcast_id = broadcast_id;
      event_id = event_id;
      room_id = room_id;
      roster_snapshot_size = size;
    }

    abbrev pub audit : ℕ → BroadcastAudit
    audit size = record {
      broadcast_id = broadcast_id;
      event_id = event_id;
      roster_snapshot_size = size;
    }

    -- the tables after the four kinds of INSERT
    abbrev pub tables : List Seat → ℕ → Bool → Store → Store
    tables seats size pending s = record s {
      deliveries = s.deliveries ++ map (seat_delivery env id_factory event_id) seats;
      broadcast_recipients = s.broadcast_recipients ++ seat_rows broadcast_id 0 seats;
      canonical_events = s.canonical_events ++ event ∷ [];
      broadcasts = s.broadcasts ++ header size ∷ [];
      broadcast_audits = s.broadcast_audits ++ audit size ∷ [];
      in_transaction = pending;
    }

    pub write-eq :
        (seats : List Seat) (size : ℕ) (s : Store) {t : Store}
        → write_broadcast env id_factory actor_id room_id content accepted_at broadcast_id event_id
            seats size s
          ≡ (ok tt, t)
        → (pending : Bool) × (t ≡ tables seats size pending s)
    unfolding write_broadcast
    write-eq seats size s h =
        let (_, u, e₁, h₁) = both_return (insert_event env id_factory event) _ s h in
        let (_, v, e₂, h₂) = both_return (insert_broadcast env id_factory (header size)) _ u h₁ in
        let (_, w, e₃, h₃) =
          both_return (insert_seats env id_factory broadcast_id event_id 0 seats) _ v h₂ in
        let a₁ = insert_event-eq-ok event s e₁ in
        let a₂ = insert_broadcast-eq-ok (header size) u e₂ in
        let a₃ = insert_seats-Seated broadcast_id event_id 0 seats v e₃ in
        let a₄ = insert_broadcast_audit-eq-ok (audit size) w h₃ in (true, rw (a₄, a₃.after, a₂, a₁))
