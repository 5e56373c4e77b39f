-- ===== src/Tests/Steps.antt =====
-- What a run of the reducer unfolds, under one name.
use yatagarasu.Prelude.{
  string_eq, bool_eq, nat_eq, option_eq, list_eq, find, any, all, filter, count, update, get_last?,
  distinct,
}
use yatagarasu.Prelude.Int.{int_eq}
use native.Mathlib.Decide.{ℕ_discrete}
use yatagarasu.Types.{
  delivery_mode_eq, delivery_state_eq, disposition_eq, evidence_class_eq, provider_kind_eq,
  source_kind_eq, correlation_rule_eq, binding_state_eq,
}
use yatagarasu.Proofs.Timestamps.{parse_timestamp}
use yatagarasu.Proofs.Storage.{source_chain_json, proof_storage_fields}
use yatagarasu.Proofs.Markers.{sign, check_window, validate}
use yatagarasu.Proofs.Chain.{
  expected_names, identity_invalid, out_of_order, boot_changed, check_correlation, check_events,
  validate_session_proof,
}
use yatagarasu.Store.Deliveries.{get_delivery, update_in_state}
use yatagarasu.Store.Providers.{provider, provider_declares}
use yatagarasu.Store.Bindings.{session_binding, binding_proof_method}
use yatagarasu.Store.Receipts.{
  receipt_record, source_seen, receipt_row, receipt_admitted, insert_receipt, insert_audit,
  audit_row, accept_receipt,
}
use yatagarasu.Receipts.Transition.{validate_keys, transition}
use yatagarasu.Receipts.Participant.{replayed, validate_mode}
use yatagarasu.Receipts.Session.{
  last_source_id, check_binding, check_closure, check_source, validate_session_receipt,
}
use yatagarasu.Receipts.Reducer.{
  existing_receipt_result, check_session_evidence, reject, review, settle, submit,
}

-- what a run of `submit` unfolds
unfoldable pub all_steps : Unit {0}
unfolding ℕ_discrete find any all filter count update get_last? distinct string_eq bool_eq nat_eq
    option_eq list_eq int_eq delivery_mode_eq delivery_state_eq disposition_eq evidence_class_eq
    provider_kind_eq source_kind_eq correlation_rule_eq binding_state_eq parse_timestamp
    source_chain_json proof_storage_fields sign check_window validate expected_names
    identity_invalid out_of_order boot_changed check_correlation check_events validate_session_proof
    get_delivery update_in_state provider provider_declares session_binding binding_proof_method
    receipt_record source_seen receipt_row receipt_admitted insert_receipt insert_audit audit_row
    accept_receipt validate_keys transition replayed validate_mode last_source_id check_binding
    check_closure check_source validate_session_receipt existing_receipt_result
    check_session_evidence review settle submit reject
all_steps = tt
