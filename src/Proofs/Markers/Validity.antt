-- ===== src/Proofs/Markers/Validity.antt =====
-- Which markers are valid, and that a minted marker is.
use yatagarasu.Prelude.{
  ℕ, ◌+◌, ◌≤◌, ◌<◌, String, ◌≡◌, ◌↔◌, ◌∙◌, refl, true, not, some, ◌==◌, string_eq, option_eq, arith,
  Option-cases, inl, inr, sym, not-eq-false,
}
use yatagarasu.Prelude.Int.{int_eq}
use yatagarasu.Environment.{Environment}
use yatagarasu.Types.{Delivery, DeliveryMarker}
use yatagarasu.Reasons.{ok, both_pass, required, required-eq-ok, guard-eq-ok, guard-passes}
use yatagarasu.Proofs.Timestamps.{parse_timestamp}
use yatagarasu.Proofs.Markers.{
  MarkerAuthority, marker_schema_version, authority_scope_text, sign, minted, mint, unsigned,
  fields_match, check_window, validate,
}

module _ (env : Environment) (authority : MarkerAuthority) where
  -- The marker names the delivery, bears this authority's signature, and is observed in its
  -- lifetime, which is not too long.
  pub record IsValidMarker (marker : DeliveryMarker) (delivery : Delivery) (observed_at : String)
      : Type 0 where
    pub schema : marker.schema_version ≡ marker_schema_version
    pub event : marker.event_id ≡ delivery.event_id
    pub delivery_named : marker.delivery_id ≡ delivery.delivery_id
    pub attempt : marker.attempt_id ≡ delivery.attempt_id
    pub binding : delivery.binding_id ≡ some marker.binding_id
    pub scope : marker.authority_scope ≡ authority_scope_text
    pub signed : marker.signature ≡ sign env authority marker
    pub issued : ℕ
    pub expires : ℕ
    pub observed : ℕ
    pub issued_parses : parse_timestamp env marker.issued_at ≡ some issued
    pub expires_parses : parse_timestamp env marker.expires_at ≡ some expires
    pub observed_parses : parse_timestamp env observed_at ≡ some observed
    pub lifetime : expires ≤ issued + authority.max_lifetime
    pub not_early : issued ≤ observed
    pub not_late : observed < expires

  window_iff :
      (issued expires observed : ℕ)
      → (check_window env authority issued expires observed ≡ ok tt)
        ↔ ((expires ≤ issued + authority.max_lifetime) × (issued ≤ observed) × (observed < expires))
  unfolding check_window
  window_iff issued expires observed = (λ h. ground arith, λ h. ground arith)

  fields-eq :
      (marker : DeliveryMarker) (delivery : Delivery)
      → (fields_match env marker delivery ≡ true) ↔ (
          (marker.schema_version ≡ marker_schema_version)
          × (marker.event_id ≡ delivery.event_id)
          × (marker.delivery_id ≡ delivery.delivery_id)
          × (marker.attempt_id ≡ delivery.attempt_id)
          × (some marker.binding_id ≡ delivery.binding_id)
          × (marker.authority_scope ≡ authority_scope_text))
  fields-eq marker delivery = (λ h. ground arith, λ h. ground arith)

  validate-IsValidMarker :
      (marker : DeliveryMarker) (delivery : Delivery) (observed_at : String)
      → validate env authority marker delivery observed_at ≡ ok tt
      → IsValidMarker marker delivery observed_at
  unfolding validate
  validate-IsValidMarker marker delivery observed_at h =
      let (h₁, k₁) = guard-eq-ok (not (fields_match env marker delivery)) _ _ h in
      let (h₂, k₂) = guard-eq-ok (not (marker.signature == sign env authority marker)) _ _ k₁ in
      let (issued, e₁, k₃) = both_pass (required (parse_timestamp env marker.issued_at) _) _ k₂ in
      let (expires, e₂, k₄) = both_pass (required (parse_timestamp env marker.expires_at) _) _ k₃ in
      let (observed, e₃, k₅) = both_pass (required (parse_timestamp env observed_at) _) _ k₄ in
      let (schema, event, named, attempt, binding, scope) =
        (fields-eq marker delivery).0 (not-eq-false _ h₁) in
      let (lifetime, not_early, not_late) = (window_iff issued expires observed).0 k₅ in
      record {
        schema = schema;
        event = event;
        delivery_named = named;
        attempt = attempt;
        binding = sym binding;
        scope = scope;
        signed = ground arith;
        issued = issued;
        expires = expires;
        observed = observed;
        issued_parses = required-eq-ok (parse_timestamp env marker.issued_at) _ e₁;
        expires_parses = required-eq-ok (parse_timestamp env marker.expires_at) _ e₂;
        observed_parses = required-eq-ok (parse_timestamp env observed_at) _ e₃;
        lifetime = lifetime;
        not_early = not_early;
        not_late = not_late;
      }

  validate_of_IsValidMarker :
      (marker : DeliveryMarker) (delivery : Delivery) (observed_at : String)
      → IsValidMarker marker delivery observed_at
      → validate env authority marker delivery observed_at ≡ ok tt
  unfolding validate
  validate_of_IsValidMarker marker delivery observed_at v =
      let matches : fields_match env marker delivery ≡ true =
        (fields-eq marker delivery).1
          (v.schema, v.event, v.delivery_named, v.attempt, sym v.binding, v.scope) in
      let signed = v.signed in
      guard-passes (not (fields_match env marker delivery)) _ _ (rw matches)
      ∙ guard-passes (not (marker.signature == sign env authority marker)) _ _ (ground arith)
      ∙ rw (v.issued_parses, v.expires_parses, v.observed_parses)
          ((window_iff v.issued v.expires v.observed).1 (v.lifetime, v.not_early, v.not_late))

  -- A marker passes for a delivery exactly when it names that delivery, attempt and binding, bears
  -- this authority's signature, its lifetime is at most the configured maximum, and it is observed
  -- at or after its issue and before its expiry, all three timestamps being readable.
  pub validate_iff :
      (marker : DeliveryMarker) (delivery : Delivery) (observed_at : String)
      → (validate env authority marker delivery observed_at ≡ ok tt)
        ↔ IsValidMarker marker delivery observed_at
  validate_iff marker delivery observed_at = (
    validate-IsValidMarker marker delivery observed_at,
    validate_of_IsValidMarker marker delivery observed_at,
  )

  sign-signature :
      (marker : DeliveryMarker) (signature : String)
      → sign env authority (record marker { signature = signature }) ≡ sign env authority marker
  unfolding sign
  sign-signature marker signature = refl

  record Issued (delivery : Delivery) (issued_at expires_at : String) (marker : DeliveryMarker)
      : Type 0 where
    binding_id : String
    bound : delivery.binding_id ≡ some binding_id
    issued : ℕ
    expires : ℕ
    issued_parses : parse_timestamp env issued_at ≡ some issued
    expires_parses : parse_timestamp env expires_at ≡ some expires
    short : expires ≤ issued + authority.max_lifetime
    made : marker ≡ record (unsigned env delivery binding_id issued_at expires_at) {
      signature = sign env authority (unsigned env delivery binding_id issued_at expires_at);
    }

  mint-Issued :
      (delivery : Delivery) (issued_at expires_at : String) (marker : DeliveryMarker)
      → mint env authority delivery issued_at expires_at ≡ minted marker
      → Issued delivery issued_at expires_at marker
  unfolding mint
  mint-Issued delivery issued_at expires_at marker h = elim (Option-cases delivery.binding_id) [
    | inl unbound ↦ absurd (ground arith)
    | inr (binding_id, bound) ↦ elim (Option-cases (parse_timestamp env issued_at)) [
      | inl unread ↦ absurd (ground arith)
      | inr (issued, e) ↦ elim (Option-cases (parse_timestamp env expires_at)) [
        | inl unread ↦ absurd (ground arith)
        | inr (expires, e') ↦ record {
          binding_id = binding_id;
          bound = bound;
          issued = issued;
          expires = expires;
          issued_parses = e;
          expires_parses = e';
          short = ground arith;
          made = ground arith;
        }
      ]
    ]
  ]

  -- A marker that was minted for a delivery passes for it at every readable time from its issue
  -- to before its expiry.
  pub validate-mint :
      (delivery : Delivery) (issued_at expires_at observed_at : String) (marker : DeliveryMarker)
      (issued expires observed : ℕ)
      → mint env authority delivery issued_at expires_at ≡ minted marker
      → parse_timestamp env issued_at ≡ some issued
      → parse_timestamp env expires_at ≡ some expires
      → parse_timestamp env observed_at ≡ some observed
      → issued ≤ observed
      → observed < expires
      → validate env authority marker delivery observed_at ≡ ok tt
  validate-mint delivery issued_at expires_at observed_at marker issued expires observed h p q r lo
        hi =
      let m = mint-Issued delivery issued_at expires_at marker h in
      let lifetime : expires ≤ issued + authority.max_lifetime = ground arith in
      rw m.made (
        validate_of_IsValidMarker _ delivery observed_at (record {
          schema = refl;
          event = refl;
          delivery_named = refl;
          attempt = refl;
          binding = m.bound;
          scope = refl;
          signed = sym (sign-signature _ _);
          issued = issued;
          expires = expires;
          observed = observed;
          issued_parses = p;
          expires_parses = q;
          observed_parses = r;
          lifetime = lifetime;
          not_early = lo;
          not_late = hi;
        }))
