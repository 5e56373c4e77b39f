-- ===== src/Store/Rooms.antt =====
-- The methods of `CoreStore` on rooms, canonical events and broadcast audits.
pub mod Roster
use yatagarasu.Prelude.{
  ℕ, suc, String, Bool, true, false, not, ◌&&◌, ◌||◌, Option, List, [], ◌∷◌, ◌++◌, map, ◌==◌,
  string_eq, nat_eq, find, any, filter, distinct, is_empty, leb, if◌then◌else◌,
}
use yatagarasu.Store.Tables.{Store, RoomMember, CanonicalEvent, BroadcastAudit}
use yatagarasu.Store.Exec.{Exec, value_error, insert, transaction, raise_if, for_each, pure, ◌>>◌}

-- INSERT OR IGNORE INTO rooms
ensure_room : String → Exec (Unit {0})
ensure_room room_id s = pure tt (record s {
  rooms = if any (λ r. r == room_id) s.rooms then s.rooms else s.rooms ++ room_id ∷ [];
  in_transaction = true;
})

-- DELETE FROM room_members WHERE room_id = ?
clear_room : String → Exec (Unit {0})
clear_room room_id s = pure tt (record s {
  room_members = filter (λ m. not (m.room_id == room_id)) s.room_members;
  in_transaction = true;
})

-- the primary key, UNIQUE (room_id, roster_ordinal) and the foreign key
insert_member : RoomMember → Exec (Unit {0})
insert_member member =
    insert
      (λ s.
        any (λ r. r == member.room_id) s.rooms
        && not (
            any (λ m. m.room_id == member.room_id && m.recipient_id == member.recipient_id)
              s.room_members)
        && not (
            any (λ m. m.room_id == member.room_id && m.roster_ordinal == member.roster_ordinal)
              s.room_members))
      (λ s. record s { room_members = s.room_members ++ member ∷ [] })

-- enumerate(ordered), from `ordinal` on
unfoldable pub members_from : String → ℕ → List String → List RoomMember
members_from room_id ordinal [] = []
members_from room_id ordinal (recipient_id ∷ rest) =
    record { room_id = room_id; recipient_id = recipient_id; roster_ordinal = ordinal }
    ∷ members_from room_id (suc ordinal) rest

abbrev is_nil : List String → Bool
is_nil [] = true
is_nil (x ∷ xs) = false

unfoldable pub replace_room_roster : String → List String → Exec (Unit {0})
unfolding ensure_room clear_room insert_member members_from for_each
replace_room_roster room_id ordered = do
  raise_if (is_empty room_id || is_nil ordered || any is_empty ordered)
      (value_error "room and recipients must not be empty")
  raise_if (not (distinct ordered)) (value_error "room roster contains a duplicate recipient")
  transaction (do
    ensure_room room_id
    clear_room room_id
    for_each insert_member (members_from room_id 0 ordered))

-- ORDER BY roster_ordinal: a stable insertion sort
unfoldable pub insert_by_ordinal : RoomMember → List RoomMember → List RoomMember
insert_by_ordinal m [] = m ∷ []
insert_by_ordinal m (x ∷ xs) =
    if leb m.roster_ordinal x.roster_ordinal then m ∷ x ∷ xs else x ∷ insert_by_ordinal m xs

unfoldable pub order_by_ordinal : List RoomMember → List RoomMember
unfolding insert_by_ordinal
order_by_ordinal [] = []
order_by_ordinal (x ∷ xs) = insert_by_ordinal x (order_by_ordinal xs)

unfoldable pub room_roster : String → Store → List String
unfolding order_by_ordinal
room_roster room_id s =
    map (λ m. m.recipient_id) (order_by_ordinal (filter (λ m. m.room_id == room_id) s.room_members))

unfoldable pub broadcast_audit : String → Store → Option BroadcastAudit
broadcast_audit broadcast_id s = find (λ a. a.broadcast_id == broadcast_id) s.broadcast_audits

unfoldable pub canonical_event : String → Store → Option CanonicalEvent
canonical_event event_id s = find (λ e. e.event_id == event_id) s.canonical_events
