-- ===== src/Cmux/Injector/Delivery/Proven.antt =====
-- What a delivery that was reported by plugins/cmux/yatagarasu_cmux/injector.py had come through, and
-- the receipt that plugins/cmux/yatagarasu_cmux/receipt_translation.py makes of it.
use yatagarasu.Prelude.{
  ℕ, String, ◌<>◌, Bool, true, false, none, some, List, [], ◌∷◌, string_eq, ◌⊎◌, inl, inr, ◌≡◌,
  refl, ap, sym, ◌∙◌, arith, is_empty, Option-cases, Bool-cases,
}
use yatagarasu.Types.{Delivery, DeliveryMarker}
use yatagarasu.Proofs.Markers.{Minted, minted, value_error, mint}
use yatagarasu.Cmux.Calls
use yatagarasu.Cmux.Calls.{Answer, raised}
use yatagarasu.Cmux.Marker.{encode_short}
use yatagarasu.Cmux.Harness.{HarnessProfile, profile_for, render}
use yatagarasu.Cmux.Outcome.{SubmitResult, is_proven}
use yatagarasu.Cmux.Translation.{Claim, acknowledgement, submit_ack_receipt}
use yatagarasu.Cmux.Injector.{
  Outside, Effect, Delivered, Trace, returned, note, all_required, classify_shortfall, await_from,
  await_proof, effect_pending, conclude_injection, inject,
}
use yatagarasu.Cmux.Injector.Evidence.{await_proof-verdict}
use yatagarasu.Cmux.Injector.Delivery.{
  Injector, declined, marked, profiled, resolved, prepared_delivery, with_minted, deliver,
}

await_from-delivery_id :
    (delivery_id : String) (seen names : List String)
    → (await_from delivery_id seen names).delivery_id ≡ delivery_id
unfolding await_from classify_shortfall
await_from-delivery_id delivery_id [] [] = refl
await_from-delivery_id delivery_id (s ∷ seen) [] = refl
await_from-delivery_id delivery_id seen (name ∷ names) =
    ground (arith, await_from-delivery_id delivery_id (note seen name) names)

concluded_proven :
    (delivery_id : String) (names : List String) (trace : Trace) (result : SubmitResult)
    → (conclude_injection delivery_id names trace).0 ≡ returned result
    → is_proven result ≡ true
    → result ≡ await_proof delivery_id names
concluded_proven delivery_id names (none, done) result h proven = ground arith
concluded_proven delivery_id names (some e, done) result h proven = ground arith

inject-is_proven :
    (outside : Outside) (hook : Bool) (delivery_id surface text : String) (delay : ℕ)
    (keys names : List String) (result : SubmitResult)
    → (inject outside hook delivery_id surface text delay keys names).0 ≡ returned result
    → is_proven result ≡ true
    → result ≡ await_proof delivery_id names
unfolding inject
inject-is_proven outside true delivery_id surface text delay keys names result h proven =
    elim (Option-cases (outside [] (effect_pending delivery_id surface))) [
      | inl fine ↦ concluded_proven delivery_id names _ result (rw (inject, fine) at h) proven
      | inr (e, failed) ↦ ground arith
    ]
inject-is_proven outside false delivery_id surface text delay keys names result h proven =
    concluded_proven delivery_id names _ result h proven

module _ (given : Injector) (identity : String) (delivery : Delivery)
    (body issued_at expires_at harness : String) where
  abbrev pub delivery_run : Delivered × List Effect
  delivery_run = deliver given identity delivery body issued_at expires_at harness

  -- The marker was minted, the harness is a declared one, the token fits, and the surface was
  -- resolved; then the injection runs with the keys of that harness and the token before the body.
  pub record Prepared : Type 0 where
    pub marker : DeliveryMarker
    pub profile : HarnessProfile
    pub token : String
    pub surface : String
    pub made : mint given.env given.marker_authority delivery issued_at expires_at ≡ minted marker
    pub declared : profile_for given.repr harness ≡ Calls.returned profile
    pub encoded : encode_short given.wire marker ≡ Calls.returned token
    pub found : given.resolve identity ≡ inr surface
    pub injected :
        delivery_run
        ≡ inject given.outside given.has_hook delivery.delivery_id surface
            (profile.text_prefix <> (token <> " " <> body))
            profile.inter_key_delay
            profile.submit_keys
            given.observed

  abbrev Cases : Type 0
  Cases = ((detail : String) × (delivery_run ≡ declined delivery.delivery_id detail)) ⊎ Prepared

  -- Each helper goes on with the next answer; `so_far` is what `deliver` has become with those before.
  resolved_cases :
      (marker : DeliveryMarker) (profile : HarnessProfile) (token : String)
      → mint given.env given.marker_authority delivery issued_at expires_at ≡ minted marker
      → profile_for given.repr harness ≡ Calls.returned profile
      → encode_short given.wire marker ≡ Calls.returned token
      → delivery_run
        ≡ resolved given delivery.delivery_id profile
            (profile.text_prefix <> (token <> " " <> body))
            (given.resolve identity)
      → (answer : String ⊎ String) → given.resolve identity ≡ answer
      → Cases
  resolved_cases marker profile token made declared encoded so_far (inl error) h =
      inl ("unresolved: " <> error, so_far ∙ ap (resolved given delivery.delivery_id profile _) h)
  resolved_cases marker profile token made declared encoded so_far (inr surface) h = inr (record {
    marker = marker;
    profile = profile;
    token = token;
    surface = surface;
    made = made;
    declared = declared;
    encoded = encoded;
    found = h;
    injected = so_far ∙ ap (resolved given delivery.delivery_id profile _) h;
  })

  encoded_cases :
      (marker : DeliveryMarker) (profile : HarnessProfile)
      → mint given.env given.marker_authority delivery issued_at expires_at ≡ minted marker
      → profile_for given.repr harness ≡ Calls.returned profile
      → delivery_run
        ≡ prepared_delivery given identity delivery.delivery_id
            (marked given profile body (encode_short given.wire marker))
      → (answer : Answer String) → encode_short given.wire marker ≡ answer
      → Cases
  unfolding render
  encoded_cases marker profile made declared so_far (raised e) h = inl (
    _,
    so_far
        ∙ ap
            (λ a.
              prepared_delivery given identity delivery.delivery_id (marked given profile body a))
            h,
  )
  encoded_cases marker profile made declared so_far (Calls.returned token) h =
      let rest =
        so_far
        ∙ ap
            (λ a.
              prepared_delivery given identity delivery.delivery_id (marked given profile body a))
            h in
      elim (Bool-cases (is_empty (token <> " " <> body))) [
        | inl empty ↦
            inl ("harness profile error: cannot submit an empty envelope", rest ∙ rw empty refl)
        | inr filled ↦
            resolved_cases marker profile token made declared h (rest ∙ rw filled refl)
              (given.resolve identity) refl
      ]

  profile_cases :
      (marker : DeliveryMarker)
      → mint given.env given.marker_authority delivery issued_at expires_at ≡ minted marker
      → delivery_run
        ≡ prepared_delivery given identity delivery.delivery_id
            (profiled given marker body (profile_for given.repr harness))
      → (answer : Answer HarnessProfile) → profile_for given.repr harness ≡ answer
      → Cases
  profile_cases marker made so_far (raised e) h = inl (
    _,
    so_far
        ∙ ap
            (λ a.
              prepared_delivery given identity delivery.delivery_id (profiled given marker body a))
            h,
  )
  profile_cases marker made so_far (Calls.returned profile) h =
      encoded_cases marker profile made h
        (so_far
          ∙ ap
              (λ a.
                prepared_delivery given identity delivery.delivery_id
                  (profiled given marker body a))
              h)
        (encode_short given.wire marker) refl

  mint_cases :
      (answer : Minted DeliveryMarker)
      → mint given.env given.marker_authority delivery issued_at expires_at ≡ answer
      → Cases
  unfolding deliver
  mint_cases (value_error e) h =
      inl (_, ap (with_minted given identity delivery.delivery_id body harness) h)
  mint_cases (minted marker) h =
      profile_cases marker h (ap (with_minted given identity delivery.delivery_id body harness) h)
        (profile_for given.repr harness) refl

  -- A delivery is declined, to be queued again, with nothing done outside; or it was prepared, and
  -- is injected as prepared.
  pub deliver-cases :
      ((detail : String) × (delivery_run ≡ declined delivery.delivery_id detail)) ⊎ Prepared
  deliver-cases =
      mint_cases (mint given.env given.marker_authority delivery issued_at expires_at) refl

  minted_binding :
      (marker : DeliveryMarker)
      → mint given.env given.marker_authority delivery issued_at expires_at ≡ minted marker
      → (binding_id : String) × (delivery.binding_id ≡ some binding_id)
  unfolding mint
  minted_binding marker h = elim (Option-cases delivery.binding_id) [
    | inl none_given ↦ absurd (ground arith)
    | inr bound ↦ bound
  ]

  acknowledged :
      (repr : String → String) (result : SubmitResult) (claim : Claim) (binding_id : String)
      → is_proven result ≡ true
      → result.delivery_id ≡ delivery.delivery_id
      → delivery.binding_id ≡ some binding_id
      → submit_ack_receipt repr result delivery claim
        ≡ Calls.returned (some (acknowledgement delivery claim binding_id))
  unfolding submit_ack_receipt
  acknowledged repr result claim binding_id proven same bound =
      rw (proven, same, bound) (ground arith)

  -- A delivery that is reported as submitted was prepared, and the observer had yielded both required
  -- events; and its result is always translated to a receipt for that delivery, never refused.
  pub deliver-submit_ack_receipt :
      (result : SubmitResult) (trace : List Effect) (claim : Claim)
      → delivery_run ≡ (returned result, trace)
      → is_proven result ≡ true
      → Prepared
        × (all_required given.observed ≡ true)
        × (binding_id : String) × (delivery.binding_id ≡ some binding_id)
        × (submit_ack_receipt given.repr result delivery claim
            ≡ Calls.returned (some (acknowledgement delivery claim binding_id)))
  deliver-submit_ack_receipt result trace claim h proven = elim deliver-cases [
    | inl (detail, refused) ↦ absurd (ground arith)
    | inr ready ↦
        let same =
          inject-is_proven given.outside given.has_hook delivery.delivery_id ready.surface
            (ready.profile.text_prefix <> (ready.token <> " " <> body))
            ready.profile.inter_key_delay ready.profile.submit_keys given.observed result
            (ap (λ r. r.0) (sym ready.injected ∙ h)) proven in
        let (binding_id, bound) = minted_binding ready.marker ready.made in
        (
          ready,
          sym (await_proof-verdict delivery.delivery_id given.observed).0
              ∙ ap is_proven (sym same)
              ∙ proven,
          binding_id,
          bound,
          acknowledged given.repr result claim binding_id proven
              (ap (λ r. r.delivery_id) same
                ∙ await_from-delivery_id delivery.delivery_id [] given.observed)
              bound,
        )
  ]
