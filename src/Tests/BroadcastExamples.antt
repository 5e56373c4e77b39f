-- ===== src/Tests/BroadcastExamples.antt =====
-- The theorems on broadcasts at a room with two seats beside the actor's.
use yatagarasu.Prelude.{
  String, ◌<>◌, Bool, false, [], ◌∷◌, ◌==◌, string_eq, nat_eq, bool_eq, option_eq, find, any,
  filter, count, update, distinct, if◌then◌else◌, ◌≡◌, refl, all, none, some,
}
use native.Mathlib.Decide.{ℕ_discrete}
use yatagarasu.Types.{
  BroadcastResult, queued, delivery_state_eq, binding_state_eq, transport_submitted,
}
use yatagarasu.Proofs.Timestamps.{parse_timestamp}
use yatagarasu.Store.Tables.{Store}
use yatagarasu.Store.Exec.{ok, err, value_error, operational_error}
use yatagarasu.Store.Deliveries.{get_delivery, insert_delivery, set_dispatching}
use yatagarasu.Store.Bindings.{session_binding, active_session_binding_for}
use yatagarasu.Store.Rooms.{broadcast_audit, room_roster}
use yatagarasu.Broadcasts.Expansion.{
  IdFactory, expand, fan_out, begin_immediate, draw_seats, roster_of, write_broadcast, insert_seats,
  insert_event, insert_broadcast, insert_recipient, insert_broadcast_audit,
}
use yatagarasu.Broadcasts.Expansion.Committed.{Expanded, expand-Expanded}
use yatagarasu.Broadcasts.Expansion.Pending.{expand-atomic, set_dispatching-blocks-broadcast}
use yatagarasu.Broadcasts.Snapshot.{result}
use yatagarasu.Broadcasts.Snapshot.Consistency.{Consistent, result-Consistent}
use yatagarasu.Tests.Fixture.{env, store}

abbrev numbered : IdFactory
numbered kind n =
    if n == 2 then kind <> "-first" else if n == 4 then kind <> "-second" else kind <> "-0"

abbrev broadcast_0 : String
broadcast_0 = "broadcast-0"

abbrev before : Store
before = record (store transport_submitted) {
  rooms = "room-1" ∷ "room-2" ∷ [];
  room_members =
      record { room_id = "room-1"; recipient_id = "tama"; roster_ordinal = 0 }
      ∷ record { room_id = "room-1"; recipient_id = "eric"; roster_ordinal = 1 }
      ∷ record { room_id = "room-1"; recipient_id = "yuki"; roster_ordinal = 2 }
      ∷ [];
}

abbrev accepted_at : String
accepted_at = "2026-07-19T00:01:00Z"

abbrev after : Store
after = (expand env numbered "eric" "room-1" "hello" accepted_at 0 before).1

committed :
    expand env numbered "eric" "room-1" "hello" accepted_at 0 before ≡ (ok "broadcast-0", after)
unfolding ℕ_discrete find any filter distinct string_eq nat_eq binding_state_eq parse_timestamp
    insert_delivery active_session_binding_for room_roster expand fan_out begin_immediate draw_seats
    roster_of write_broadcast insert_seats insert_event insert_broadcast insert_recipient
    insert_broadcast_audit
committed = refl

expand-Expanded_example :
    (broadcast_0 ≡ numbered "broadcast" 0)
    × Expanded env numbered "eric" "room-1" "hello" accepted_at "broadcast-0" "event-0" before after
unfolding ℕ_discrete nat_eq
expand-Expanded_example =
    expand-Expanded env numbered "eric" "room-1" "hello" accepted_at 0 before committed

-- The second room has no members.
abbrev untouched : Store
untouched = (expand env numbered "eric" "room-2" "hello" accepted_at 0 before).1

refused :
    expand env numbered "eric" "room-2" "hello" accepted_at 0 before
    ≡ (err (value_error "broadcast roster is empty"), untouched)
unfolding ℕ_discrete find any filter distinct string_eq nat_eq parse_timestamp room_roster expand
    fan_out begin_immediate roster_of
refused = refl

expand-atomic_example : (pending : Bool) × (untouched ≡ record before { in_transaction = pending })
expand-atomic_example =
    expand-atomic env numbered "eric" "room-2" "hello" accepted_at 0 before refused

-- The fixture's delivery is past queued.
abbrev left_open : Store
left_open = (set_dispatching "delivery-1" before).1

not_queued :
    set_dispatching "delivery-1" before ≡ (err (value_error "delivery_not_queued"), left_open)
unfolding set_dispatching count update string_eq delivery_state_eq nat_eq ℕ_discrete
not_queued = refl

set_dispatching-blocks-broadcast_example :
    expand env numbered "eric" "room-1" "hello" accepted_at 0 left_open
    ≡ (err operational_error, record left_open { in_transaction = false })
unfolding parse_timestamp string_eq nat_eq ℕ_discrete
set_dispatching-blocks-broadcast_example =
    set_dispatching-blocks-broadcast env numbered "eric" "room-1" "hello" accepted_at "delivery-1" 0
      1060000000 before not_queued refl refl

-- tama has an active binding and yuki has none
abbrev snapshot : BroadcastResult
snapshot = record {
  broadcast_id = "broadcast-0";
  event_id = "event-0";
  room_id = "room-1";
  roster_snapshot_size = 2;
  outcomes =
      record {
        recipient_id = "tama";
        delivery_id = "delivery-first";
        binding_id = some "binding-1";
        state = queued;
        disposition = none;
        unavailable_reason = none;
      }
      ∷ record {
        recipient_id = "yuki";
        delivery_id = "delivery-second";
        binding_id = none;
        state = queued;
        disposition = none;
        unavailable_reason = some "binding-absent";
      }
      ∷ [];
  all_delivered = false;
}

looked_up : result "broadcast-0" after ≡ ok snapshot
unfolding ℕ_discrete find any all filter distinct string_eq nat_eq option_eq binding_state_eq
    parse_timestamp insert_delivery active_session_binding_for room_roster expand fan_out
    begin_immediate draw_seats roster_of write_broadcast insert_seats insert_event insert_broadcast
    insert_recipient insert_broadcast_audit result get_delivery session_binding broadcast_audit
looked_up = refl

result-Consistent_example : Consistent "broadcast-0" after snapshot
result-Consistent_example = result-Consistent "broadcast-0" after snapshot looked_up
