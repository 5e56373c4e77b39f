-- ===== src/Store/Deliveries/Lookup.antt =====
-- Looking a delivery up after an UPDATE of the rows with one key in one state.
use yatagarasu.Prelude.{
  String, ◌≡◌, ◌≢◌, some, List, string_eq, find, update, arith, Option-cases, inl, inr,
}
use yatagarasu.Prelude.Rows.{find-update, find_meets}
use yatagarasu.Types.{Delivery, DeliveryState}
use yatagarasu.Store.Deliveries.{has_id, in_state}

pub found_id :
    (id : String) (ds : List Delivery) (d : Delivery)
    → find (has_id id) ds ≡ some d
    → d.delivery_id ≡ id
found_id id ds d h = ground (arith, find_meets (has_id id) ds d h)

module _ (f : Delivery → Delivery)
    (keeps : (d : Delivery) → (f d).delivery_id ≡ d.delivery_id) where
  has_id-keeps : (j : String) (d : Delivery) → has_id j (f d) ≡ has_id j d
  has_id-keeps j d = rw (keeps d)

  pub find-update_self :
      (id : String) (ds : List Delivery) (d : Delivery)
      → find (has_id id) ds ≡ some d
      → find (has_id id) (update (in_state d.delivery_id d.state) f ds) ≡ some (f d)
  find-update_self id ds d h =
      rw (find-update (has_id id) (in_state d.delivery_id d.state) f (has_id-keeps id) ds, h)
        (ground arith)

  pub find-update_ne :
      (id j : String) (st : DeliveryState) (ds : List Delivery)
      → j ≢ id
      → find (has_id j) (update (in_state id st) f ds) ≡ find (has_id j) ds
  find-update_ne id j st ds ne =
      rw (find-update (has_id j) (in_state id st) f (has_id-keeps j) ds)
        (elim (Option-cases (find (has_id j) ds)) [
          | inl absent ↦ rw absent
          | inr (d, e) ↦ rw e (ground (arith, find_meets (has_id j) ds d e))
        ])
