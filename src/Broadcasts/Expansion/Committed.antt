-- ===== src/Broadcasts/Expansion/Committed.antt =====
-- A broadcast that commits.
use yatagarasu.Broadcasts.Expansion.Effects.{seat_rows, draw_seats-recipients, write-eq, tables}
use yatagarasu.Prelude.{
  ℕ, ◌+◌, String, ◌≡◌, ◌≢◌, refl, ap, sym, ◌∙◌, Bool, true, false, not, ◌||◌, List, [], ◌∷◌, ◌++◌,
  map, string_eq, distinct, length, is_empty, Option-cases, inl, inr, arith, Bool-cases, subst,
  not-eq-false,
}
use yatagarasu.Environment.{Environment}
use yatagarasu.Proofs.Timestamps.{parse_timestamp}
use yatagarasu.Proofs.Markers.{authority_scope_text}
use yatagarasu.Store.Tables.{Store}
use yatagarasu.Store.Exec.{
  Exec, Result, ok, err, value_error, broadcast_conflict_error, integrity_error, transaction,
  continue, raise_if, lift,
}
use yatagarasu.Store.Exec.Laws.{both_return, raise_if-eq-ok, transaction-eq-ok}
use yatagarasu.Store.Rooms.{room_roster}
use yatagarasu.Broadcasts.Expansion.{
  IdFactory, Seat, is_nil, expand, translate_integrity, begin_immediate, draw_seats, seat_delivery,
  roster_of, fan_out,
}

module _ (env : Environment) (id_factory : IdFactory) where
  -- A broadcast that commits.
  pub record Expanded (actor_id room_id content accepted_at broadcast_id event_id : String)
      (s t : Store) : Type 0 where
    pub seats : List Seat
    pub seated : map (λ seat. seat.recipient_id) seats ≡ roster_of env id_factory actor_id room_id s
    pub not_empty : seats ≢ []
    pub distinct_deliveries : distinct (map (λ seat. seat.delivery_id) seats) ≡ true
    pub after : t ≡ record s {
      deliveries = s.deliveries ++ map (seat_delivery env id_factory event_id) seats;
      broadcast_recipients =
          s.broadcast_recipients ++ seat_rows env id_factory broadcast_id 0 seats;
      canonical_events =
          s.canonical_events
          ++ record {
            event_id = event_id;
            actor_id = actor_id;
            room_id = room_id;
            content = content;
            accepted_at = accepted_at;
            authority_scope = authority_scope_text;
          }
            ∷ [];
      broadcasts =
          s.broadcasts
          ++ record {
            broadcast_id = broadcast_id;
            event_id = event_id;
            room_id = room_id;
            roster_snapshot_size = length (roster_of env id_factory actor_id room_id s);
          }
            ∷ [];
      broadcast_audits =
          s.broadcast_audits
          ++ record {
            broadcast_id = broadcast_id;
            event_id = event_id;
            roster_snapshot_size = length (roster_of env id_factory actor_id room_id s);
          }
            ∷ [];
      in_transaction = false;
    }

  begin-eq-ok :
      (s : Store) {v : Store}
      → begin_immediate s ≡ (ok tt, v)
      → v ≡ record s { in_transaction = true }
  unfolding begin_immediate
  begin-eq-ok s h = ground arith

  roster-pending :
      (actor_id room_id : String) (s : Store) (pending : Bool)
      → roster_of env id_factory actor_id room_id (record s { in_transaction = pending })
        ≡ roster_of env id_factory actor_id room_id s
  unfolding roster_of room_roster
  roster-pending actor_id room_id s pending = refl

  not_nil :
      (roster : List String) (seats : List Seat)
      → is_nil env id_factory roster ≡ false
      → map (λ (seat : Seat). seat.recipient_id) seats ≡ roster
      → seats ≢ []
  not_nil roster seats e drawn none_left = ground arith

  module _ (actor_id room_id content accepted_at broadcast_id event_id : String) where
    fan_out-Expanded :
        (n : ℕ) (s : Store) {t : Store}
        → fan_out env id_factory actor_id room_id content accepted_at broadcast_id event_id n s
          ≡ (ok tt, t)
        → Expanded actor_id room_id content accepted_at broadcast_id event_id s
            (record t { in_transaction = false })
    unfolding fan_out
    fan_out-Expanded n s {t} h =
        let (_, v, e₁, h₁) = both_return begin_immediate _ s h in
        let roster = roster_of env id_factory actor_id room_id v in
        let (_, w, e₂, h₂) =
          both_return
            (raise_if (is_nil env id_factory roster) (value_error "broadcast roster is empty")) _ v
            h₁ in
        let (seats, x, e₃, h₃) =
          both_return (lift (draw_seats env id_factory accepted_at n roster v)) _ w h₂ in
        let collides = not (distinct (map (λ (seat : Seat). seat.delivery_id) seats)) in
        let collision = broadcast_conflict_error "delivery ID collision during fan-out" in
        let (_, y, e₄, h₄) = both_return (raise_if collides collision) _ x h₃ in
        let began = begin-eq-ok s e₁ in
        let (filled, w_is) = raise_if-eq-ok _ _ v e₂ in
        let drawn =
          draw_seats-recipients env id_factory accepted_at n roster v seats (ap (λ r. r.0) e₃) in
        let x_is = ap (λ r. r.1) e₃ in
        let (apart, y_is) = raise_if-eq-ok _ _ x e₄ in
        let (pending, written) =
          write-eq env id_factory actor_id room_id content accepted_at broadcast_id event_id seats
            (length roster) y h₄ in
        let same_roster =
          ap (roster_of env id_factory actor_id room_id) began
          ∙ roster-pending actor_id room_id s true in
        record {
          seats = seats;
          seated = drawn ∙ same_roster;
          not_empty = not_nil roster seats filled drawn;
          distinct_deliveries = not-eq-false _ apart;
          after =
              ap (λ (z : Store). record z { in_transaction = false }) written
              ∙ ap
                  (tables env id_factory actor_id room_id content accepted_at broadcast_id event_id
                    seats (length roster) false)
                  (y_is ∙ sym x_is ∙ w_is ∙ began)
              ∙ ap
                  (λ (r : List String).
                    tables env id_factory actor_id room_id content accepted_at broadcast_id event_id
                      seats (length r) false s)
                  same_roster;
        }

  translated-ok :
      (r : Result (Unit {0}) × Store) {u : Unit {0}} {t : Store}
      → translate_integrity env id_factory r ≡ (ok u, t)
      → r ≡ (ok u, t)
  translated-ok (ok u, t') h = h
  translated-ok (err integrity_error, t') h = cc
  translated-ok (err e, t') h = cc

  module _ (actor_id room_id content accepted_at : String) (n : ℕ) (s : Store) where
    abbrev own_id : String
    own_id = id_factory "broadcast" n

    abbrev body : Exec (Unit {0})
    body =
        fan_out env id_factory actor_id room_id content accepted_at own_id
          (id_factory "event" (n + 1)) (n + 2)

    committed :
        {id : String} {t : Store}
        → continue
            (translate_integrity env id_factory (transaction body s)).0
            (λ _ u. (ok own_id, u))
            (translate_integrity env id_factory (transaction body s)).1
          ≡ (ok id, t)
        → Expanded actor_id room_id content accepted_at own_id (id_factory "event" (n + 1)) s t
    committed h =
        let (_, u, e₁, h₁) =
          both_return (λ v. translate_integrity env id_factory (transaction body v))
            (λ _ v. (ok own_id, v)) s h in
        let (v, ran, closed) = transaction-eq-ok body s (translated-ok (transaction body s) e₁) in
        let files = fan_out-Expanded actor_id room_id content accepted_at own_id _ (n + 2) s ran in
        subst (Expanded actor_id room_id content accepted_at own_id (id_factory "event" (n + 1)) s)
          (sym closed ∙ ap (λ r. r.1) h₁) files

    committed_id :
        {id : String} {t : Store}
        → continue
            (translate_integrity env id_factory (transaction body s)).0
            (λ _ u. (ok own_id, u))
            (translate_integrity env id_factory (transaction body s)).1
          ≡ (ok id, t)
        → id ≡ own_id
    committed_id h =
        let (_, u, e₁, h₁) =
          both_return (λ v. translate_integrity env id_factory (transaction body v))
            (λ _ v. (ok own_id, v)) s h in
        ground arith

    -- A broadcast that commits draws up one delivery for each recipient of the room's roster but
    -- the actor, in the order of the roster, with distinct delivery IDs, and files exactly one
    -- event, one broadcast, one audit row, those deliveries and their numbered seats; no
    -- transaction is left open.
    pub expand-Expanded :
        {id : String} {t : Store}
        → expand env id_factory actor_id room_id content accepted_at n s ≡ (ok id, t)
        → (id ≡ own_id)
          × Expanded actor_id room_id content accepted_at own_id (id_factory "event" (n + 1)) s t
    unfolding expand
    expand-Expanded h =
        elim (Bool-cases (is_empty actor_id || is_empty room_id || is_empty content)) [
          | inl blank ↦ ground arith
          | inr given ↦ elim (Option-cases (parse_timestamp env accepted_at)) [
            | inl unread ↦ ground arith
            | inr (instant, parses) ↦
                let h' = rw (given, parses) at h in (committed_id h', committed h')
          ]
        ]
