-- ===== src/Tests/RoomExamples.antt =====
-- The theorem on rosters at a room of two.
use yatagarasu.Prelude.{[], ◌∷◌, string_eq, nat_eq, any, filter, distinct, ◌≡◌, refl}
use native.Mathlib.Decide.{ℕ_discrete}
use yatagarasu.Types.{queued}
use yatagarasu.Store.Tables.{Store}
use yatagarasu.Store.Exec.{ok}
use yatagarasu.Store.Rooms.{replace_room_roster, room_roster}
use yatagarasu.Store.Rooms.Roster.{room_roster-replace_room_roster}
use yatagarasu.Tests.Fixture.{store}

abbrev replaced : Store
replaced = (replace_room_roster "room-1" ("yuki" ∷ "tama" ∷ []) (store queued)).1

accepted : replace_room_roster "room-1" ("yuki" ∷ "tama" ∷ []) (store queued) ≡ (ok tt, replaced)
unfolding ℕ_discrete any filter distinct string_eq nat_eq replace_room_roster
accepted = refl

room_roster-replace_room_roster_example : room_roster "room-1" replaced ≡ "yuki" ∷ "tama" ∷ []
room_roster-replace_room_roster_example =
    room_roster-replace_room_roster "room-1" ("yuki" ∷ "tama" ∷ []) (store queued) accepted
