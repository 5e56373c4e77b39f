-- ===== src/Reasons.antt =====
-- The texts that the receipt path returns in place of a verdict (the `str` of each `str | None`),
-- one constructor for each text, and checks that stop at the first of them.
use yatagarasu.Prelude.{Bool, true, false, ◌≡◌, refl, Option, none, some}

pub data Reason : Type 0 where
  audit_fields_required receipt_id_contradiction delivery_not_found : Reason
  delivery_state_changed storage_integrity_error : Reason
  event_mismatch attempt_mismatch binding_mismatch : Reason
  provider_not_registered evidence_class_not_declared evidence_class_wrong_delivery_mode : Reason
  provider_kind_not_comms_view provider_kind_not_session_transport invalid_transition : Reason
  self_echo_or_infrastructure_event source_event_id_required source_event_replayed : Reason
  principal_mismatch platform_message_binding_mismatch : Reason
  disposition_not_allowed disposition_overclaim reaction_disposition_invalid : Reason
  unsupported_evidence_class : Reason
  session_proof_required marker_authority_unavailable binding_not_registered : Reason
  binding_not_active provider_not_authorized_for_binding binding_does_not_own_recipient : Reason
  binding_timestamp_invalid binding_expired_or_not_yet_active : Reason
  authoritative_session_mismatch proof_method_not_registered_for_binding : Reason
  turn_end_does_not_close_accepted_prompt receipt_source_event_mismatch : Reason
  marker_fields_mismatch marker_signature_invalid marker_timestamp_invalid : Reason
  marker_lifetime_exceeds_limit marker_expired_or_not_yet_valid : Reason
  evidence_class_not_declared_for_proof_method proof_correlation_rule_unsupported : Reason
  proof_source_kind_mismatch evidence_class_not_session_proof : Reason
  source_event_chain_wrong_shape source_instance_mismatch source_event_identity_invalid : Reason
  source_boot_changed_within_chain source_event_repeated_within_chain : Reason
  source_event_chain_out_of_order prompt_marker_binding_mismatch hook_session_mismatch : Reason

pub data Check {ℓ} (A : Type ℓ) : Type ℓ where
  ok : A → Check A
  refuse : Reason → Check A

infixl 5 ◌>>=◌ ◌>>◌
abbrev pub ◌>>=◌ {ℓ κ} : {A : Type ℓ} {B : Type κ} → Check A → (A → Check B) → Check B
refuse reason >>= next = refuse reason
ok value >>= next = next value

abbrev pub ◌>>◌ {ℓ} : {B : Type ℓ} → Check (Unit {0}) → Check B → Check B
guard >> next = guard >>= λ _. next

-- `if test: return reason`
abbrev pub refuse_if : Bool → Reason → Check (Unit {0})
refuse_if true r = refuse r
refuse_if false r = ok tt

-- `if value is None: return reason`
abbrev pub required {ℓ} : {A : Type ℓ} → Option A → Reason → Check A
required none r = refuse r
required (some a) r = ok a

-- When two checks in a row pass, the first one does, and so does the second one at its value.
pub both_pass {ℓ κ} :
    {A : Type ℓ} {B : Type κ} (first : Check A) (next : A → Check B) {result : B}
    → (first >>= next) ≡ ok result
    → (value : A) × (first ≡ ok value) × (next value ≡ ok result)
both_pass (refuse reason) next passed = cc
both_pass (ok value) next passed = (value, refl, passed)

pub required-eq-ok {ℓ} :
    {A : Type ℓ} (o : Option A) (r : Reason) {a : A} → required o r ≡ ok a → o ≡ some a
required-eq-ok none r h = cc
required-eq-ok (some x) r h = cc

pub refuse_if-eq-ok : (b : Bool) (r : Reason) {u : Unit {0}} → refuse_if b r ≡ ok u → b ≡ false
refuse_if-eq-ok true r h = cc
refuse_if-eq-ok false r h = refl

pub ok-injective {ℓ} : {A : Type ℓ} {a b : A} → ok a ≡ ok b → a ≡ b
ok-injective h = cc

-- A passed guard, and the rest of the checks.
pub guard-eq-ok {ℓ} :
    {B : Type ℓ} (b : Bool) (r : Reason) (f : Unit {0} → Check B) {a : B}
    → (refuse_if b r >>= f) ≡ ok a
    → (b ≡ false) × (f tt ≡ ok a)
guard-eq-ok true r f h = cc
guard-eq-ok false r f h = (refl, h)

pub guard-passes {ℓ} :
    {B : Type ℓ} (b : Bool) (r : Reason) (f : Unit {0} → Check B)
    → b ≡ false
    → (refuse_if b r >>= f) ≡ f tt
guard-passes true r f h = cc
guard-passes false r f h = refl
