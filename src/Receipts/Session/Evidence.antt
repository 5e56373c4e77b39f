-- ===== src/Receipts/Session/Evidence.antt =====
-- What stands behind a session receipt that is let through.
use yatagarasu.Prelude.{
  ℕ, ◌≤◌, ◌<◌, String, ◌≡◌, true, false, not, ◌||◌, Option, some, List, ◌==◌, string_eq, option_eq,
  is_blank, contains, leb, ltb, arith, not-eq-false,
}
use yatagarasu.Environment.{Environment}
use yatagarasu.Types.{
  Delivery, Receipt, SessionProof, ProofMethodRegistration, harness_turn_completed,
  evidence_class_eq, active, binding_state_eq, cmux_harness_chain, correlation_rule_eq, event_bus,
  source_kind_eq, EvidenceClass,
}
use yatagarasu.Reasons.{ok, both_pass, required, required-eq-ok, guard-eq-ok, refuse_if-eq-ok}
use yatagarasu.Proofs.Timestamps.{parse_timestamp}
use yatagarasu.Proofs.Storage.{source_chain_json}
use yatagarasu.Proofs.Markers.{MarkerAuthority, validate}
use yatagarasu.Proofs.Markers.Validity.{IsValidMarker, validate_iff}
use yatagarasu.Proofs.Chain.{expected_names, validate_session_proof}
use yatagarasu.Proofs.Chain.Spec.{IsChain, check_events_iff}
use yatagarasu.Store.Tables.{Store, SessionBindingRow}
use yatagarasu.Store.Bindings.{session_binding, binding_proof_method}
use yatagarasu.Store.Receipts.{session_entry_chain}
use yatagarasu.Receipts.Participant.{replayed}
use yatagarasu.Receipts.Session.{
  without_last, last_source_id, check_binding, check_closure, check_source,
  validate_session_receipt,
}

-- The binding is active, belongs to the provider and the recipient, covers the time, and names the
-- session.
pub record Covers (env : Environment) (receipt : Receipt) (delivery : Delivery)
    (proof : SessionProof) (binding : SessionBindingRow) : Type 0 where
  pub is_active : binding.state ≡ active
  pub owned : binding.provider_id ≡ receipt.evidence_provider_id
  pub recipient : binding.recipient_id ≡ delivery.recipient_id
  pub session : proof.session_id ≡ binding.session_id
  pub observed : ℕ
  pub established : ℕ
  pub expires : ℕ
  pub observed_parses : parse_timestamp env receipt.observed_at ≡ some observed
  pub established_parses : parse_timestamp env binding.established_at ≡ some established
  pub expires_parses : parse_timestamp env binding.expires_at ≡ some expires
  pub not_early : established ≤ observed
  pub not_late : observed < expires

check_binding-Covers :
    (env : Environment) (receipt : Receipt) (delivery : Delivery) (proof : SessionProof)
    (binding : SessionBindingRow)
    → check_binding env receipt delivery proof binding ≡ ok tt
    → Covers env receipt delivery proof binding
unfolding check_binding
check_binding-Covers env receipt delivery proof binding h =
    let (h₁, k₁) = guard-eq-ok (not (binding.state == active)) _ _ h in
    let (h₂, k₂) = guard-eq-ok (not (binding.provider_id == receipt.evidence_provider_id)) _ _ k₁ in
    let (h₃, k₃) = guard-eq-ok (not (binding.recipient_id == delivery.recipient_id)) _ _ k₂ in
    let (observed, e₁, k₄) =
      both_pass (required (parse_timestamp env receipt.observed_at) _) _ k₃ in
    let (established, e₂, k₅) =
      both_pass (required (parse_timestamp env binding.established_at) _) _ k₄ in
    let (expires, e₃, k₆) = both_pass (required (parse_timestamp env binding.expires_at) _) _ k₅ in
    let (h₄, k₇) = guard-eq-ok (ltb observed established || leb expires observed) _ _ k₆ in
    let h₅ = refuse_if-eq-ok (not (proof.session_id == binding.session_id)) _ k₇ in
    record {
      is_active = ground arith;
      owned = ground arith;
      recipient = ground arith;
      session = ground arith;
      observed = observed;
      established = established;
      expires = expires;
      observed_parses = required-eq-ok (parse_timestamp env receipt.observed_at) _ e₁;
      established_parses = required-eq-ok (parse_timestamp env binding.established_at) _ e₂;
      expires_parses = required-eq-ok (parse_timestamp env binding.expires_at) _ e₃;
      not_early = ground arith;
      not_late = ground arith;
    }

-- The registration admits the class, the marker is valid and the chain is one of the class.
pub record Proves (env : Environment) (proof : SessionProof) (delivery : Delivery)
    (evidence_class : EvidenceClass) (registration : ProofMethodRegistration)
    (authority : MarkerAuthority) (observed_at : String) : Type 0 where
  pub declared : contains registration.evidence_classes evidence_class ≡ true
  pub rule : registration.correlation_rule ≡ cmux_harness_chain
  pub source : registration.source_kind ≡ event_bus
  pub marked : IsValidMarker env authority proof.marker delivery observed_at
  pub names : List String
  pub expected : expected_names evidence_class ≡ some names
  pub chain : IsChain proof delivery registration names

validate_session_proof-Proves :
    (env : Environment) (proof : SessionProof) (delivery : Delivery)
    (evidence_class : EvidenceClass) (registration : ProofMethodRegistration)
    (authority : MarkerAuthority) (observed_at : String)
    → validate_session_proof env proof delivery evidence_class registration authority observed_at
      ≡ ok tt
    → Proves env proof delivery evidence_class registration authority observed_at
unfolding validate_session_proof
validate_session_proof-Proves env proof delivery evidence_class registration authority observed_at
      h =
    let (h₁, k₁) =
      guard-eq-ok (not (contains registration.evidence_classes evidence_class)) _ _ h in
    let (h₂, k₂) = guard-eq-ok (not (registration.correlation_rule == cmux_harness_chain)) _ _ k₁ in
    let (h₃, k₃) = guard-eq-ok (not (registration.source_kind == event_bus)) _ _ k₂ in
    let (_, h₄, k₄) = both_pass (validate env authority proof.marker delivery observed_at) _ k₃ in
    let (names, h₅, k₅) = both_pass (required (expected_names evidence_class) _) _ k₄ in
    record {
      declared = not-eq-false _ h₁;
      rule = ground arith;
      source = ground arith;
      marked = (validate_iff env authority proof.marker delivery observed_at).0 h₄;
      names = names;
      expected = required-eq-ok (expected_names evidence_class) _ h₅;
      chain = (check_events_iff proof delivery registration names).0 k₅;
    }

pub record Evidenced (env : Environment) (authority : Option MarkerAuthority) (receipt : Receipt)
    (delivery : Delivery) (s : Store) : Type 0 where
  pub proof : SessionProof
  pub key_holder : MarkerAuthority
  pub binding : SessionBindingRow
  pub registration : ProofMethodRegistration
  pub proof_given : receipt.proof ≡ some proof
  pub authority_given : authority ≡ some key_holder
  pub bound : session_binding receipt.binding_id s ≡ some binding
  pub covered : Covers env receipt delivery proof binding
  pub registered :
      binding_proof_method receipt.binding_id receipt.proof_method s ≡ some registration
  pub proven :
      Proves env proof delivery receipt.evidence_class registration key_holder receipt.observed_at
  pub closes :
      receipt.evidence_class ≡ harness_turn_completed
      → session_entry_chain delivery.delivery_id s
        ≡ some (source_chain_json env (without_last proof.source_events))
  pub named : receipt.source_event_id ≡ last_source_id proof.source_events
  pub not_blank : is_blank receipt.source_event_id ≡ false
  pub unseen : replayed receipt s ≡ false

closes_of :
    (env : Environment) (receipt : Receipt) (delivery : Delivery) (proof : SessionProof) (s : Store)
    → check_closure env receipt delivery proof s ≡ ok tt
    → receipt.evidence_class ≡ harness_turn_completed
    → session_entry_chain delivery.delivery_id s
      ≡ some (source_chain_json env (without_last proof.source_events))
unfolding check_closure
closes_of env receipt delivery proof s h e = ground arith

source_of :
    (receipt : Receipt) (proof : SessionProof) (s : Store)
    → check_source receipt proof s ≡ ok tt
    → (receipt.source_event_id ≡ last_source_id proof.source_events)
      × (is_blank receipt.source_event_id ≡ false)
      × (replayed receipt s ≡ false)
unfolding check_source
source_of receipt proof s h = ground arith

pub validate_session_receipt-Evidenced :
    (env : Environment) (authority : Option MarkerAuthority) (receipt : Receipt)
    (delivery : Delivery) (s : Store)
    → validate_session_receipt env authority receipt delivery s ≡ ok tt
    → Evidenced env authority receipt delivery s
unfolding validate_session_receipt
validate_session_receipt-Evidenced env authority receipt delivery s h =
    let (proof, e₁, k₁) = both_pass (required receipt.proof _) _ h in
    let (key_holder, e₂, k₂) = both_pass (required authority _) _ k₁ in
    let (binding, e₃, k₃) = both_pass (required (session_binding receipt.binding_id s) _) _ k₂ in
    let (_, e₄, k₄) = both_pass (check_binding env receipt delivery proof binding) _ k₃ in
    let (registration, e₅, k₅) =
      both_pass (required (binding_proof_method receipt.binding_id receipt.proof_method s) _) _
        k₄ in
    let (_, e₆, k₆) =
      both_pass
        (validate_session_proof env proof delivery receipt.evidence_class registration key_holder
          receipt.observed_at)
        _ k₅ in
    let (_, e₇, k₇) = both_pass (check_closure env receipt delivery proof s) _ k₆ in
    let (named, not_blank, unseen) = source_of receipt proof s k₇ in
    record {
      proof = proof;
      key_holder = key_holder;
      binding = binding;
      registration = registration;
      proof_given = required-eq-ok receipt.proof _ e₁;
      authority_given = required-eq-ok authority _ e₂;
      bound = required-eq-ok (session_binding receipt.binding_id s) _ e₃;
      covered = check_binding-Covers env receipt delivery proof binding e₄;
      registered =
          required-eq-ok (binding_proof_method receipt.binding_id receipt.proof_method s) _ e₅;
      proven =
          validate_session_proof-Proves env proof delivery receipt.evidence_class registration
            key_holder receipt.observed_at e₆;
      closes = closes_of env receipt delivery proof s e₇;
      named = named;
      not_blank = not_blank;
      unseen = unseen;
    }
