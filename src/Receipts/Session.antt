-- ===== src/Receipts/Session.antt =====
-- `_validate_session_receipt` of core/yatagarasu_core/receipts.py.
pub mod Evidence
use yatagarasu.Prelude.{
  ℕ, String, Bool, true, false, not, ◌||◌, ◌&&◌, Option, none, some, List, ◌∷◌, [], ◌==◌, string_eq,
  option_eq, contains, is_blank, get_last?, leb, ltb,
}
use yatagarasu.Environment.{Environment}
use yatagarasu.Types.{
  Delivery, Receipt, SessionProof, SourceEventRef, EvidenceClass, harness_prompt_accepted,
  harness_turn_started, harness_turn_completed, evidence_class_eq, active, binding_state_eq,
}
use yatagarasu.Reasons
use yatagarasu.Reasons.{Check, ok, refuse_if, required, ◌>>=◌, ◌>>◌}
use yatagarasu.Proofs.Timestamps.{parse_timestamp}
use yatagarasu.Proofs.Storage.{source_chain_json}
use yatagarasu.Proofs.Markers.{MarkerAuthority}
use yatagarasu.Proofs.Chain.{validate_session_proof}
use yatagarasu.Store.Tables.{Store, SessionBindingRow}
use yatagarasu.Store.Bindings.{session_binding, binding_proof_method}
use yatagarasu.Store.Receipts.{session_entry_chain}
use yatagarasu.Receipts.Participant.{replayed}

-- SESSION_PROOF_EVIDENCE
abbrev pub needs_session_proof : EvidenceClass → Bool
needs_session_proof evidence =
    contains (harness_prompt_accepted ∷ harness_turn_started ∷ harness_turn_completed ∷ []) evidence

-- events[:-1], the source event ID of events[-1]
unfoldable pub without_last : List SourceEventRef → List SourceEventRef
without_last [] = []
without_last (e ∷ []) = []
without_last (e ∷ f ∷ events) = e ∷ without_last (f ∷ events)

unfoldable pub last_source_id : List SourceEventRef → Option String
last_source_id [] = none
last_source_id (e ∷ []) = some e.source_event_id
last_source_id (e ∷ f ∷ events) = last_source_id (f ∷ events)

-- the binding's state, owner, recipient and window, and the session
unfoldable pub check_binding :
    Environment → Receipt → Delivery → SessionProof → SessionBindingRow → Check (Unit {0})
check_binding env receipt delivery proof binding = do
  refuse_if (not (binding.state == active)) Reasons.binding_not_active
  refuse_if (not (binding.provider_id == receipt.evidence_provider_id))
      Reasons.provider_not_authorized_for_binding
  refuse_if (not (binding.recipient_id == delivery.recipient_id))
      Reasons.binding_does_not_own_recipient
  observed ← required (parse_timestamp env receipt.observed_at) Reasons.binding_timestamp_invalid
  established ←
      required (parse_timestamp env binding.established_at) Reasons.binding_timestamp_invalid
  expires ← required (parse_timestamp env binding.expires_at) Reasons.binding_timestamp_invalid
  refuse_if (ltb observed established || leb expires observed)
      Reasons.binding_expired_or_not_yet_active
  refuse_if (not (proof.session_id == binding.session_id)) Reasons.authoritative_session_mismatch

-- a turn end must extend the chain with which the session was entered
unfoldable pub check_closure :
    Environment → Receipt → Delivery → SessionProof → Store → Check (Unit {0})
check_closure env receipt delivery proof s =
    refuse_if
      (receipt.evidence_class == harness_turn_completed
        && not (
            session_entry_chain delivery.delivery_id s
            == some (source_chain_json env (without_last proof.source_events))))
      Reasons.turn_end_does_not_close_accepted_prompt

-- the receipt names the last source event, which no receipt of the provider has named
unfoldable pub check_source : Receipt → SessionProof → Store → Check (Unit {0})
check_source receipt proof s = do
  refuse_if
      (is_blank receipt.source_event_id
        || not (receipt.source_event_id == last_source_id proof.source_events))
      Reasons.receipt_source_event_mismatch
  refuse_if (replayed receipt s) Reasons.source_event_replayed

unfoldable pub validate_session_receipt :
    Environment → Option MarkerAuthority → Receipt → Delivery → Store → Check (Unit {0})
validate_session_receipt env authority receipt delivery s = do
  proof ← required receipt.proof Reasons.session_proof_required
  key_holder ← required authority Reasons.marker_authority_unavailable
  binding ← required (session_binding receipt.binding_id s) Reasons.binding_not_registered
  check_binding env receipt delivery proof binding
  registration ←
      required (binding_proof_method receipt.binding_id receipt.proof_method s)
        Reasons.proof_method_not_registered_for_binding
  validate_session_proof env proof delivery receipt.evidence_class registration key_holder
      receipt.observed_at
  check_closure env receipt delivery proof s
  check_source receipt proof s
