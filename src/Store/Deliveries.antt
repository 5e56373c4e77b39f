-- ===== src/Store/Deliveries.antt =====
-- The methods of `CoreStore` on the table `deliveries`.
pub mod Lookup
use yatagarasu.Prelude.{
  ℕ, String, Bool, not, ◌&&◌, Option, List, [], ◌∷◌, ◌++◌, ◌==◌, string_eq, nat_eq, find, any,
  filter, count, update,
}
use yatagarasu.Types.{Delivery, DeliveryState, queued, dispatching, delivery_state_eq}
use yatagarasu.Store.Tables.{Store}
use yatagarasu.Store.Exec.{Exec, value_error, insert, commit, raise_if, pure, ◌>>=◌, ◌>>◌}

abbrev pub has_id : String → Delivery → Bool
has_id delivery_id d = d.delivery_id == delivery_id

unfoldable pub get_delivery : String → Store → Option Delivery
get_delivery delivery_id s = find (has_id delivery_id) s.deliveries

-- INSERT INTO deliveries: the primary key is free
unfoldable pub insert_delivery : Delivery → Exec (Unit {0})
insert_delivery delivery =
    insert (λ s. not (any (has_id delivery.delivery_id) s.deliveries))
      (λ s. record s { deliveries = s.deliveries ++ delivery ∷ [] })

unfoldable pub add_delivery : Delivery → Exec (Unit {0})
unfolding insert_delivery
add_delivery delivery = do insert_delivery delivery; commit

abbrev pub in_state : String → DeliveryState → Delivery → Bool
in_state delivery_id state d = d.delivery_id == delivery_id && d.state == state

-- UPDATE deliveries SET ... WHERE delivery_id = ? AND state = ?, and its rowcount
unfoldable pub update_in_state : String → DeliveryState → (Delivery → Delivery) → Exec ℕ
update_in_state delivery_id state set s =
    pure (count (in_state delivery_id state) s.deliveries) (record s {
      deliveries = update (in_state delivery_id state) set s.deliveries;
      in_transaction = Bool.true;
    })

unfoldable pub set_dispatching : String → Exec (Unit {0})
unfolding update_in_state
set_dispatching delivery_id = do
  changed ← update_in_state delivery_id queued (λ d. record d { state = dispatching })
  raise_if (not (changed == 1)) (value_error "delivery_not_queued")
  commit

unfoldable pub deliveries_for_event : String → Store → List Delivery
deliveries_for_event event_id s = filter (λ d. d.event_id == event_id) s.deliveries
