-- ===== src/Store/Rooms/Roster.antt =====
-- `replace_room_roster` and then `room_roster` of core/yatagarasu_core/store.py.
use mathlib.Core.List.{append-nil, append_assoc}
use yatagarasu.Prelude.{
  ℕ, suc, String, not, ◌||◌, List, [], ◌∷◌, ◌++◌, map, ◌==◌, string_eq, filter, any, distinct,
  is_empty, ◌≡◌, refl, ap, sym, ◌∙◌, arith,
}
use yatagarasu.Prelude.Rows.{filter-append}
use yatagarasu.Store.Tables.{Store, RoomMember}
use yatagarasu.Store.Exec.{Exec, ok, value_error, raise_if, for_each, ◌>>◌}
use yatagarasu.Store.Exec.Laws.{both_return, transaction-eq-ok}
use yatagarasu.Store.Rooms.{
  ensure_room, clear_room, insert_member, members_from, is_nil, replace_room_roster,
  insert_by_ordinal, order_by_ordinal, room_roster,
}

insert_member-eq-ok :
    (member : RoomMember) (s : Store) {t : Store}
    → insert_member member s ≡ (ok tt, t)
    → t.room_members ≡ s.room_members ++ member ∷ []
unfolding insert_member
insert_member-eq-ok member s h = ground arith

insert_all-eq-ok :
    (members : List RoomMember) (s : Store) {t : Store}
    → for_each insert_member members s ≡ (ok tt, t)
    → t.room_members ≡ s.room_members ++ members
unfolding for_each
insert_all-eq-ok [] s h = ap (λ r. r.1.room_members) (sym h) ∙ sym (append-nil s.room_members)
insert_all-eq-ok (member ∷ members) s h =
    let (_, u, first, rest) = both_return (insert_member member) _ s h in
    insert_all-eq-ok members u rest
    ∙ ap (λ (ms : List RoomMember). ms ++ members) (insert_member-eq-ok member s first)
    ∙ append_assoc s.room_members (member ∷ []) members

cleared :
    (room_id : String) (members : List RoomMember)
    → filter (λ m. m.room_id == room_id) (filter (λ m. not (m.room_id == room_id)) members) ≡ []
unfolding filter
cleared room_id [] = refl
cleared room_id (m ∷ members) = ground (arith, cleared room_id members)

own_members :
    (room_id : String) (n : ℕ) (ordered : List String)
    → filter (λ m. m.room_id == room_id) (members_from room_id n ordered)
      ≡ members_from room_id n ordered
unfolding filter members_from
own_members room_id n [] = refl
own_members room_id n (r ∷ ordered) = ground (arith, own_members room_id (suc n) ordered)

first_stays :
    (room_id r : String) (n : ℕ) (ordered : List String)
    → insert_by_ordinal
        (record { room_id = room_id; recipient_id = r; roster_ordinal = n })
        (members_from room_id (suc n) ordered)
      ≡ record { room_id = room_id; recipient_id = r; roster_ordinal = n }
        ∷ members_from room_id (suc n) ordered
unfolding insert_by_ordinal members_from
first_stays room_id r n [] = refl
first_stays room_id r n (x ∷ ordered) = ground arith

already_ordered :
    (room_id : String) (n : ℕ) (ordered : List String)
    → order_by_ordinal (members_from room_id n ordered) ≡ members_from room_id n ordered
unfolding order_by_ordinal members_from
already_ordered room_id n [] = refl
already_ordered room_id n (r ∷ ordered) =
    rw (already_ordered room_id (suc n) ordered) (first_stays room_id r n ordered)

recipients :
    (room_id : String) (n : ℕ) (ordered : List String)
    → map (λ (m : RoomMember). m.recipient_id) (members_from room_id n ordered) ≡ ordered
unfolding members_from
recipients room_id n [] = refl
recipients room_id n (r ∷ ordered) = ap (λ rs. r ∷ rs) (recipients room_id (suc n) ordered)

abbrev refill : String → List String → Exec (Unit {0})
refill room_id ordered =
    ensure_room room_id
    >> (clear_room room_id >> for_each insert_member (members_from room_id 0 ordered))

refill-eq-ok :
    (room_id : String) (ordered : List String) (s : Store) {t : Store}
    → refill room_id ordered s ≡ (ok tt, t)
    → t.room_members
      ≡ filter (λ m. not (m.room_id == room_id)) s.room_members ++ members_from room_id 0 ordered
unfolding ensure_room clear_room
refill-eq-ok room_id ordered s h = insert_all-eq-ok (members_from room_id 0 ordered) _ h

read_back :
    (room_id : String) (ordered : List String) (kept : List RoomMember)
    → filter
        (λ m. m.room_id == room_id)
        (filter (λ m. not (m.room_id == room_id)) kept ++ members_from room_id 0 ordered)
      ≡ members_from room_id 0 ordered
read_back room_id ordered kept =
    filter-append (λ (m : RoomMember). m.room_id == room_id)
      (filter (λ m. not (m.room_id == room_id)) kept) (members_from room_id 0 ordered)
    ∙ rw (cleared room_id kept, own_members room_id 0 ordered) refl

-- A roster that is replaced without an error is read back as it was given, in its order.
pub room_roster-replace_room_roster :
    (room_id : String) (ordered : List String) (s : Store) {t : Store}
    → replace_room_roster room_id ordered s ≡ (ok tt, t)
    → room_roster room_id t ≡ ordered
unfolding replace_room_roster room_roster
room_roster-replace_room_roster room_id ordered s {t} h =
    let (_, u, e₁, h₁) =
      both_return
        (raise_if (is_empty room_id || is_nil ordered || any is_empty ordered)
          (value_error "room and recipients must not be empty"))
        _ s h in
    let (_, v, e₂, h₂) =
      both_return
        (raise_if (not (distinct ordered))
          (value_error "room roster contains a duplicate recipient"))
        _ u h₁ in
    let (w, ran, closed) = transaction-eq-ok (refill room_id ordered) v h₂ in
    let filled = ap (λ (z : Store). z.room_members) closed ∙ refill-eq-ok room_id ordered v ran in
    let read =
      ap (filter (λ (m : RoomMember). m.room_id == room_id)) filled
      ∙ read_back room_id ordered v.room_members in
    ap (λ (ms : List RoomMember). map (λ (m : RoomMember). m.recipient_id) (order_by_ordinal ms))
      read
    ∙ ap (map (λ (m : RoomMember). m.recipient_id)) (already_ordered room_id 0 ordered)
    ∙ recipients room_id 0 ordered
