-- ===== src/Proofs/Chain.antt =====
-- `validate_session_proof` of core/yatagarasu_core/proofs.py: the marker, and the chain of source
-- events behind it.
pub mod Spec
use yatagarasu.Prelude.{
  String, Bool, true, false, not, ◌||◌, Option, none, some, List, ◌∷◌, [], map, any, contains,
  distinct, ◌==◌, string_eq, option_eq, list_eq, is_empty,
}
use yatagarasu.Prelude.Int.{is_negative, le_int}
use yatagarasu.Environment.{Environment}
use yatagarasu.Types.{
  Delivery, EvidenceClass, evidence_class_eq, correlation_rule_eq, source_kind_eq, SourceEventRef,
  SessionProof, ProofMethodRegistration, cmux_harness_chain, event_bus, harness_prompt_accepted,
  harness_turn_started, harness_turn_completed,
}
use yatagarasu.Reasons
use yatagarasu.Reasons.{Check, ok, refuse, refuse_if, required, ◌>>=◌, ◌>>◌}
use yatagarasu.Proofs.Markers.{MarkerAuthority, validate}

abbrev pub input_sent : String
input_sent = "surface.input_sent"

abbrev pub prompt_submitted : String
prompt_submitted = "workspace.prompt.submitted"

abbrev pub user_prompt_submit : String
user_prompt_submit = "agent.hook.UserPromptSubmit"

abbrev pub stop_hook : String
stop_hook = "agent.hook.Stop"

-- _PROMPT_CHAIN, _COMPLETED_CHAIN
abbrev pub prompt_chain : List String
prompt_chain = input_sent ∷ prompt_submitted ∷ user_prompt_submit ∷ []

abbrev pub completed_chain : List String
completed_chain = input_sent ∷ prompt_submitted ∷ user_prompt_submit ∷ stop_hook ∷ []

unfoldable pub expected_names : EvidenceClass → Option (List String)
expected_names harness_prompt_accepted = some prompt_chain
expected_names harness_turn_started = some prompt_chain
expected_names harness_turn_completed = some completed_chain
expected_names _ = none

unfoldable pub identity_invalid : SourceEventRef → Bool
identity_invalid event =
    is_empty event.boot_id || is_empty event.source_event_id || is_negative event.seq

-- any(left.seq >= right.seq for left, right in pairwise(events))
unfoldable pub out_of_order : List SourceEventRef → Bool
out_of_order [] = false
out_of_order (left ∷ []) = false
out_of_order (left ∷ right ∷ events) = le_int right.seq left.seq || out_of_order (right ∷ events)

-- len({event.boot_id for event in events}) != 1
unfoldable pub boot_changed : List SourceEventRef → Bool
boot_changed [] = true
boot_changed (event ∷ events) = any (λ e. not (e.boot_id == event.boot_id)) events

abbrev pub foreign_session : SessionProof → SourceEventRef → Bool
foreign_session proof event = not (event.session_id == some proof.session_id)

abbrev pub foreign_source : ProofMethodRegistration → SourceEventRef → Bool
foreign_source registration event =
    not (event.source_instance_id == registration.source_instance_id)

abbrev pub uncorrelated : SessionProof → Delivery → SourceEventRef → Bool
uncorrelated proof delivery prompt =
    not (prompt.binding_id == delivery.binding_id)
    || not (prompt.marker_signature == some proof.marker.signature)

-- `prompt = events[1]`, `hook_events = events[2:]`. A shorter chain has been refused before.
unfoldable pub check_correlation : SessionProof → Delivery → List SourceEventRef → Check (Unit {0})
check_correlation proof delivery (_ ∷ prompt ∷ hook_events) = do
  refuse_if (uncorrelated proof delivery prompt) Reasons.prompt_marker_binding_mismatch
  refuse_if (any (foreign_session proof) hook_events) Reasons.hook_session_mismatch
check_correlation proof delivery _ = refuse Reasons.source_event_chain_wrong_shape

unfoldable pub check_events :
    SessionProof → Delivery → ProofMethodRegistration → List String → Check (Unit {0})
check_events proof delivery registration names =
    let events = proof.source_events in
    (do
      refuse_if (not (map (λ e. e.event_name) events == names))
          Reasons.source_event_chain_wrong_shape
      refuse_if (any (foreign_source registration) events) Reasons.source_instance_mismatch
      refuse_if (any identity_invalid events) Reasons.source_event_identity_invalid
      refuse_if (boot_changed events) Reasons.source_boot_changed_within_chain
      refuse_if (not (distinct (map (λ e. e.source_event_id) events)))
          Reasons.source_event_repeated_within_chain
      refuse_if (out_of_order events) Reasons.source_event_chain_out_of_order
      check_correlation proof delivery events)

unfoldable pub validate_session_proof :
    Environment
    → SessionProof
    → Delivery
    → EvidenceClass
    → ProofMethodRegistration
    → MarkerAuthority
    → String
    → Check (Unit {0})
validate_session_proof env proof delivery evidence_class registration authority observed_at = do
  refuse_if (not (contains registration.evidence_classes evidence_class))
      Reasons.evidence_class_not_declared_for_proof_method
  refuse_if (not (registration.correlation_rule == cmux_harness_chain))
      Reasons.proof_correlation_rule_unsupported
  refuse_if (not (registration.source_kind == event_bus)) Reasons.proof_source_kind_mismatch
  validate env authority proof.marker delivery observed_at
  names ← required (expected_names evidence_class) Reasons.evidence_class_not_session_proof
  check_events proof delivery registration names
