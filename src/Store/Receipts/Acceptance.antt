-- ===== src/Store/Receipts/Acceptance.antt =====
-- What `accept_receipt` writes, and when it raises.
use yatagarasu.Prelude.{
  String, ◌≡◌, true, false, Option, some, [], ◌∷◌, ◌++◌, ◌⊎◌, nat_eq, count, update, arith,
  Option-cases, inl, inr,
}
use yatagarasu.Environment.{Environment}
use yatagarasu.Types.{Delivery, DeliveryState, Disposition, Receipt}
use yatagarasu.Store.Tables.{Store}
use yatagarasu.Store.Exec.{ok, err, integrity_error, concurrent_transition_error, Error}
use yatagarasu.Store.Deliveries.{in_state}
use yatagarasu.Store.Receipts.{
  receipt_admitted, receipt_row, insert_receipt, audit_row, accept_receipt,
}

module _ (env : Environment) (receipt : Receipt) (delivery : Delivery) (next_state : DeliveryState)
    (disposition : Option Disposition) (s : Store) where
  abbrev pub advance : Delivery → Delivery
  advance d = record d { state = next_state; disposition = disposition }

  pub record Written (binding_id : String) (t : Store) : Type 0 where
    pub bound : delivery.binding_id ≡ some binding_id
    pub admitted :
        receipt_admitted (receipt_row env receipt delivery binding_id disposition) s ≡ true
    pub one_row : count (in_state delivery.delivery_id delivery.state) s.deliveries ≡ 1
    pub after : t ≡ record s {
      deliveries = update (in_state delivery.delivery_id delivery.state) advance s.deliveries;
      receipts = s.receipts ++ receipt_row env receipt delivery binding_id disposition ∷ [];
      audit_log = s.audit_log ++ audit_row receipt delivery next_state disposition ∷ [];
      in_transaction = false;
    }

  pub accept-eq-ok :
      {t : Store}
      → accept_receipt env receipt delivery next_state disposition s ≡ (ok tt, t)
      → (binding_id : String) × Written binding_id t
  unfolding accept_receipt insert_receipt receipt_row receipt_admitted
  accept-eq-ok h = elim (Option-cases delivery.binding_id) [
    | inl unbound ↦ absurd (ground arith)
    | inr (binding_id, e) ↦ (binding_id, ground arith)
  ]

  -- A receipt that is not accepted leaves the tables as they were.
  pub accept-eq-err :
      {e : Error} {t : Store}
      → accept_receipt env receipt delivery next_state disposition s ≡ (err e, t)
      → (t ≡ record s { in_transaction = false })
        × ((e ≡ integrity_error) ⊎ (e ≡ concurrent_transition_error))
  unfolding accept_receipt insert_receipt receipt_row receipt_admitted
  accept-eq-err h = elim (Option-cases delivery.binding_id) [
    | inl unbound ↦ ground arith
    | inr (binding_id, e) ↦ ground arith
  ]
