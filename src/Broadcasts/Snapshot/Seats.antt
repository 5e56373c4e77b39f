-- ===== src/Broadcasts/Snapshot/Seats.antt =====
-- The rows that `BroadcastKernel.result` of core/yatagarasu_core/broadcasts.py joins: the seats of
-- the broadcast that have a delivery, in the order of their numbers.
use yatagarasu.Prelude.{
  String, Bool, true, false, ◌+◌, ◌≤◌, ◌&&◌, Option, none, some, List, [], ◌∷◌, ◌==◌, string_eq,
  leb, count, filter, All, if◌then◌else◌, ◌≡◌, refl, ap, ◌∙◌, inl, inr, Bool-cases, arith,
}
use yatagarasu.Prelude.Rows.{All-imp, All-filter, filter-count}
use yatagarasu.Types.{Delivery}
use yatagarasu.Store.Tables.{Store, BroadcastRecipient}
use yatagarasu.Store.Deliveries.{get_delivery}
use yatagarasu.Broadcasts.Snapshot.{insert_by_ordinal, order_recipients}

-- in the order of the seats' numbers
abbrev pub IsSeated : List BroadcastRecipient → Type 0
IsSeated [] = Unit
IsSeated (r ∷ rs) = All (λ later. r.roster_ordinal ≤ later.roster_ordinal) rs × IsSeated rs

abbrev pub is_some : Option Delivery → Bool
is_some none = false
is_some (some d) = true

abbrev pub has_delivery : Store → BroadcastRecipient → Bool
has_delivery s r = is_some (get_delivery r.delivery_id s)

abbrev pub seats_of : String → Store → List BroadcastRecipient
seats_of broadcast_id s =
    filter (has_delivery s)
      (order_recipients (filter (λ r. r.broadcast_id == broadcast_id) s.broadcast_recipients))

insert_by_ordinal-All :
    (P : BroadcastRecipient → Type 0) (r : BroadcastRecipient) (rs : List BroadcastRecipient)
    → P r
    → All P rs
    → All P (insert_by_ordinal r rs)
unfolding insert_by_ordinal
insert_by_ordinal-All P r [] h hs = (h, tt)
insert_by_ordinal-All P r (x ∷ rs) h hs =
    elim (Bool-cases (leb r.roster_ordinal x.roster_ordinal)) [
      | inl e ↦ rw e (h, hs)
      | inr e ↦ rw e (hs.0, insert_by_ordinal-All P r rs h hs.1)
    ]

insert_by_ordinal-IsSeated :
    (r : BroadcastRecipient) (rs : List BroadcastRecipient)
    → IsSeated rs
    → IsSeated (insert_by_ordinal r rs)
unfolding insert_by_ordinal
insert_by_ordinal-IsSeated r [] h = (tt, tt)
insert_by_ordinal-IsSeated r (x ∷ rs) h =
    elim (Bool-cases (leb r.roster_ordinal x.roster_ordinal)) [
      | inl e ↦
          let first : r.roster_ordinal ≤ x.roster_ordinal = ground arith in
          rw e (
            (
              first,
              All-imp (λ (y : BroadcastRecipient). x.roster_ordinal ≤ y.roster_ordinal)
                  (λ (y : BroadcastRecipient). r.roster_ordinal ≤ y.roster_ordinal)
                  (λ y le. omega arith) rs h.0,
            ),
            h,
          )
      | inr e ↦
          let first : x.roster_ordinal ≤ r.roster_ordinal = ground arith in
          rw e (
            insert_by_ordinal-All (λ (y : BroadcastRecipient). x.roster_ordinal ≤ y.roster_ordinal)
                r rs first h.0,
            insert_by_ordinal-IsSeated r rs h.1,
          )
    ]

order_recipients-IsSeated : (rs : List BroadcastRecipient) → IsSeated (order_recipients rs)
unfolding order_recipients
order_recipients-IsSeated [] = tt
order_recipients-IsSeated (r ∷ rs) =
    insert_by_ordinal-IsSeated r (order_recipients rs) (order_recipients-IsSeated rs)

filter-IsSeated :
    (p : BroadcastRecipient → Bool) (rs : List BroadcastRecipient)
    → IsSeated rs
    → IsSeated (filter p rs)
unfolding filter
filter-IsSeated p [] h = tt
filter-IsSeated p (r ∷ rs) h = elim (Bool-cases (p r)) [
  | inl e ↦ rw e (
    All-filter (λ (later : BroadcastRecipient). r.roster_ordinal ≤ later.roster_ordinal) p rs h.0,
    filter-IsSeated p rs h.1,
  )
  | inr e ↦ rw e (filter-IsSeated p rs h.1)
]

module _ (p : BroadcastRecipient → Bool) where
  insert_by_ordinal-count :
      (r : BroadcastRecipient) (rs : List BroadcastRecipient)
      → count p (insert_by_ordinal r rs) ≡ count p (r ∷ rs)
  unfolding insert_by_ordinal count
  insert_by_ordinal-count r [] = refl
  insert_by_ordinal-count r (x ∷ rs) = ground (arith, insert_by_ordinal-count r rs)

  order_recipients-count :
      (rs : List BroadcastRecipient) → count p (order_recipients rs) ≡ count p rs
  unfolding order_recipients count
  order_recipients-count [] = refl
  order_recipients-count (r ∷ rs) =
      insert_by_ordinal-count r (order_recipients rs)
      ∙ ap (λ n. (if p r then 1 else 0) + n) (order_recipients-count rs)

pub seats_of-IsSeated : (broadcast_id : String) (s : Store) → IsSeated (seats_of broadcast_id s)
seats_of-IsSeated broadcast_id s = filter-IsSeated (has_delivery s) _ (order_recipients-IsSeated _)

-- each row of the broadcast that has a delivery, as often as the table has it
pub seats_of-count :
    (broadcast_id : String) (s : Store) (p : BroadcastRecipient → Bool)
    → count p (seats_of broadcast_id s)
      ≡ count
          (λ r. (r.broadcast_id == broadcast_id) && (has_delivery s r && p r))
          s.broadcast_recipients
seats_of-count broadcast_id s p =
    filter-count p (has_delivery s)
      (order_recipients (filter (λ r. r.broadcast_id == broadcast_id) s.broadcast_recipients))
    ∙ order_recipients-count (λ r. has_delivery s r && p r)
        (filter (λ r. r.broadcast_id == broadcast_id) s.broadcast_recipients)
    ∙ filter-count (λ r. has_delivery s r && p r) (λ r. r.broadcast_id == broadcast_id)
        s.broadcast_recipients
