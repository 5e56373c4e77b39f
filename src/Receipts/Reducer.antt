-- ===== src/Receipts/Reducer.antt =====
-- `ReceiptReducer.submit` of core/yatagarasu_core/receipts.py, with the duplicate check, the
-- rejections and the recovery after a collision.
pub mod Review
pub mod Outcome
use yatagarasu.Prelude.{
  String, Bool, true, false, not, ◌||◌, ◌&&◌, Option, none, some, ◌==◌, string_eq, bool_eq,
  option_eq, is_empty,
}
use mathlib.Core.Option
use yatagarasu.Environment.{Environment}
use yatagarasu.Types.{
  Delivery, Receipt, DeliveryState, Disposition, disposition_eq, evidence_class_eq,
}
use yatagarasu.Reasons
use yatagarasu.Reasons.{Reason, Check, ok, refuse, refuse_if, required, ◌>>=◌, ◌>>◌}
use yatagarasu.Proofs.Storage.{proof_storage_fields}
use yatagarasu.Proofs.Markers.{MarkerAuthority}
use yatagarasu.Store.Exec.{Result, err, concurrent_transition_error}
use yatagarasu.Store.Exec
use yatagarasu.Store.Tables.{Store, ReceiptRow}
use yatagarasu.Store.Deliveries.{get_delivery}
use yatagarasu.Store.Providers.{provider, provider_declares, mark_provider_degraded}
use yatagarasu.Store.Receipts.{receipt_record, accept_receipt, record_rejection}
use yatagarasu.Receipts.Transition.{Step, validate_keys, canonical_disposition, transition}
use yatagarasu.Receipts.Participant.{validate_mode, replayed}
use yatagarasu.Receipts.Session.{needs_session_proof, validate_session_receipt}

-- `ReceiptResult`: the status with the fields that `submit` sets beside it
pub data ReceiptResult : Type 0 where
  accepted : DeliveryState → Option Disposition → ReceiptResult
  duplicate : Option DeliveryState → Option Disposition → ReceiptResult
  rejected : Reason → ReceiptResult

unfoldable pub reject : Reason → Receipt → Store → ReceiptResult × Store
reject reason receipt s = (rejected reason, record_rejection receipt reason s)

unfoldable pub duplicate_of : Option Delivery → ReceiptResult
duplicate_of none = duplicate none none
duplicate_of (some delivery) = duplicate (some delivery.state) delivery.disposition

-- What `submit` has found out when it writes.
pub record Approval : Type 0 where
  pub delivery : Delivery
  pub next_state : DeliveryState
  pub disposition : Option Disposition

module _ (env : Environment) where
  unfoldable pub same_receipt : ReceiptRow → Receipt → Bool
  same_receipt existing receipt =
      let fields = proof_storage_fields env receipt.proof in
      existing.provider_id == receipt.evidence_provider_id
      && existing.source_event_id == receipt.source_event_id
      && existing.event_id == receipt.event_id
      && existing.delivery_id == receipt.delivery_id
      && existing.attempt_id == receipt.attempt_id
      && existing.binding_id == receipt.binding_id
      && existing.evidence_class == receipt.evidence_class
      && existing.proof_method == receipt.proof_method
      && existing.observed_at == receipt.observed_at
      && existing.disposition == canonical_disposition receipt
      && existing.platform_principal_id == receipt.platform_principal_id
      && existing.platform_message_id == receipt.platform_message_id
      && existing.authored_by_provider == receipt.authored_by_provider
      && existing.infrastructure_event == receipt.infrastructure_event
      && existing.session_id == fields.session_id
      && existing.marker_signature == fields.marker_signature
      && existing.source_event_chain == fields.source_event_chain
      && existing.turn_id == fields.turn_id

  -- the two ends of `_existing_receipt_result`: the same claim again, or a contradiction
  abbrev judge : Bool → Receipt → Store → ReceiptResult × Store
  judge true receipt s = (duplicate_of (get_delivery receipt.delivery_id s), s)
  judge false receipt s =
      reject Reasons.receipt_id_contradiction receipt
        (mark_provider_degraded receipt.evidence_provider_id s).1

  unfoldable pub existing_receipt_result : Receipt → Store → Option (ReceiptResult × Store)
  unfolding duplicate_of
  existing_receipt_result receipt s =
      Option.map (λ existing. judge (same_receipt existing receipt) receipt s)
        (receipt_record receipt.receipt_id s)

  -- `if existing_result is not None: return existing_result`
  abbrev verdict_or : Option (ReceiptResult × Store) → ReceiptResult × Store → ReceiptResult × Store
  verdict_or none otherwise = otherwise
  verdict_or (some verdict) otherwise = verdict

  abbrev collision_reason : Receipt → Store → Reason
  collision_reason receipt s = elim (replayed receipt s) [
    | true ↦ Reasons.source_event_replayed
    | false ↦ elim (get_delivery receipt.delivery_id s) [
      | none ↦ Reasons.delivery_not_found
      | some delivery ↦ elim (provider receipt.evidence_provider_id s) [
        | none ↦ Reasons.provider_not_registered
        | some prov ↦ Reasons.storage_integrity_error
      ]
    ]
  ]

  unfoldable pub recover_integrity_collision : Receipt → Store → ReceiptResult × Store
  unfolding existing_receipt_result
  recover_integrity_collision receipt s =
      verdict_or (existing_receipt_result receipt s) (reject (collision_reason receipt s) receipt s)

  -- The `try` of `submit` around `accept_receipt`, which raises a `ConcurrentTransitionError` or
  -- an `IntegrityError`.
  abbrev conclude : Receipt → Approval → Result (Unit {0}) × Store → ReceiptResult × Store
  conclude receipt a (Exec.ok _, s) = (accepted a.next_state a.disposition, s)
  conclude receipt a (err concurrent_transition_error, s) =
      reject Reasons.delivery_state_changed receipt s
  conclude receipt a (err e, s) = recover_integrity_collision receipt s

  unfoldable pub settle : Receipt → Approval → Store → ReceiptResult × Store
  unfolding recover_integrity_collision
  settle receipt a s =
      conclude receipt a (accept_receipt env receipt a.delivery a.next_state a.disposition s)

  module _ (authority : Option MarkerAuthority) where
    -- the last guard of `submit`
    unfoldable pub check_session_evidence : Receipt → Delivery → Store → Check (Unit {0})
    check_session_evidence receipt delivery s = elim (needs_session_proof receipt.evidence_class) [
      | true ↦ validate_session_receipt env authority receipt delivery s
      | false ↦ ok tt
    ]

    -- the guards of `submit` between the duplicate check and the write, in order
    unfoldable pub review : Receipt → Store → Check Approval
    review receipt s = do
      delivery ← required (get_delivery receipt.delivery_id s) Reasons.delivery_not_found
      validate_keys receipt delivery
      prov ← required (provider receipt.evidence_provider_id s) Reasons.provider_not_registered
      refuse_if (not (provider_declares receipt.evidence_provider_id receipt.evidence_class s))
          Reasons.evidence_class_not_declared
      validate_mode receipt delivery prov.kind s
      step ← transition receipt delivery prov.kind s
      check_session_evidence receipt delivery s
      ok (record { delivery = delivery; next_state = step.0; disposition = step.1 })

    abbrev act_on : Receipt → Store → Check Approval → ReceiptResult × Store
    act_on receipt s (refuse reason) = reject reason receipt s
    act_on receipt s (ok approval) = settle receipt approval s

    -- `submit` after the test for the audit fields
    abbrev pub reduce : Bool → Receipt → Store → ReceiptResult × Store
    reduce true receipt s = reject Reasons.audit_fields_required receipt s
    reduce false receipt s =
        verdict_or (existing_receipt_result receipt s) (act_on receipt s (review receipt s))

    unfoldable pub submit : Receipt → Store → ReceiptResult × Store
    submit receipt s =
        reduce (is_empty receipt.proof_method || is_empty receipt.observed_at) receipt s
