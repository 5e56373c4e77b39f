-- ===== src/Receipts/Repeats.antt =====
-- Submitting an accepted receipt again: the stored row makes the same claim.
use yatagarasu.Prelude.{
  ◌≡◌, refl, sym, Bool, true, false, Option, some, arith, find, ◌==◌, string_eq, Eq,
}
use yatagarasu.Prelude.Rows.{find-append_self}
use yatagarasu.Environment.{Environment}
use yatagarasu.Types.{Delivery, DeliveryState, Disposition, Receipt}
use yatagarasu.Proofs.Markers.{MarkerAuthority}
use yatagarasu.Store.Tables.{Store}
use yatagarasu.Store.Receipts.{receipt_row, receipt_record, has_receipt_id}
use yatagarasu.Receipts.Transition.{canonical_disposition}
use yatagarasu.Receipts.Reducer.{
  accepted, duplicate, submit, same_receipt, existing_receipt_result, duplicate_of, reduce, reject,
}
use yatagarasu.Receipts.Verdicts.{submit-Advanced}

==-refl {ℓ} : {A : Type ℓ} ⦃e : Eq A⦄ (a : A) → (a == a) ≡ true
==-refl a = ground arith

module _ (env : Environment) (receipt : Receipt) where
  same_receipt-row :
      (delivery : Delivery) (d : Option Disposition)
      → receipt.event_id ≡ delivery.event_id
      → receipt.delivery_id ≡ delivery.delivery_id
      → receipt.attempt_id ≡ delivery.attempt_id
      → d ≡ canonical_disposition receipt
      → same_receipt env (receipt_row env receipt delivery receipt.binding_id d) receipt ≡ true
  unfolding same_receipt receipt_row
  same_receipt-row delivery d e₁ e₂ e₃ e₄ = rw (e₄, ← e₁, ← e₂, ← e₃) (simp ==-refl)

  has_receipt_id-row :
      (delivery : Delivery) (d : Option Disposition)
      → has_receipt_id receipt.receipt_id (receipt_row env receipt delivery receipt.binding_id d)
        ≡ true
  unfolding receipt_row
  has_receipt_id-row delivery d = ==-refl receipt.receipt_id

  module _ (authority : Option MarkerAuthority) (s t : Store) {st : DeliveryState}
      {d : Option Disposition} where
    audited_of_accepted :
        (b : Bool) → reduce env authority b receipt s ≡ (accepted st d, t) → b ≡ false
    unfolding reject
    audited_of_accepted true h = cc
    audited_of_accepted false h = refl

    -- Once a receipt is accepted, submitting it again is answered as a duplicate, with the state
    -- and the disposition that the acceptance returned, and changes nothing at all.
    pub submit-submit :
        submit env authority receipt s ≡ (accepted st d, t)
        → submit env authority receipt t ≡ (duplicate (some st) d, t)
    unfolding submit existing_receipt_result receipt_record duplicate_of
    submit-submit h =
        let v = submit-Advanced env authority receipt s t h in
        let row = receipt_row env receipt v.before receipt.binding_id d in
        let stored : find (has_receipt_id receipt.receipt_id) t.receipts ≡ some row = rw v.filed (
          find-append_self (has_receipt_id receipt.receipt_id) s.receipts row v.fresh
            (has_receipt_id-row v.before d)) in
        rw (
          audited_of_accepted _ h,
          stored,
          same_receipt-row v.before d v.event (sym v.identified) v.attempt v.canonical,
          v.moved,
        )
