-- ===== src/Tests/DeliveryExamples.antt =====
-- The theorems on a delivery and its receipt at a message for a Claude Code seat.
use yatagarasu.Prelude.{
  String, ◌<>◌, true, none, some, List, [], ◌∷◌, ◌≡◌, ◌⊎◌, inr, refl, string_eq, nat_eq,
}
use native.Mathlib.Decide.{ℕ_discrete}
use yatagarasu.Types.{Delivery, transport_submitted}
use yatagarasu.Cmux.Calls
use yatagarasu.Proofs.Markers.{mint, sign}
use yatagarasu.Proofs.Timestamps.{parse_timestamp}
use yatagarasu.Cmux.Patterns.{
  text_length, is_token_char, is_hex_char, all_chars, is_token_id, is_digest,
}
use yatagarasu.Cmux.Marker.{rstrip_padding, encode_short, short_text}
use yatagarasu.Cmux.Harness.{profile_for, render}
use yatagarasu.Cmux.Outcome.{SubmitResult, submitted}
use yatagarasu.Cmux.Translation.{Claim, acknowledgement, submit_ack_receipt}
use yatagarasu.Cmux.Injector.{
  Effect, returned, inject, all_required, await_from, perform_all, key_effects, later_keys,
  effect_pending, send_text, submit_key, event_input_sent, event_prompt_submitted,
}
use yatagarasu.Cmux.Injector.Delivery.{Injector, declined, deliver}
use yatagarasu.Cmux.Injector.Delivery.Proven.{
  Prepared, delivery_run, deliver-cases, deliver-submit_ack_receipt,
}
use yatagarasu.Tests.Fixture.{env, authority, session_delivery}
use yatagarasu.Tests.Wiring.{wire, digest_text, short_token}

abbrev injector : Injector
injector = record {
  env = record env { hmac_sha256 = λ key payload. digest_text };
  wire = wire;
  marker_authority = authority;
  resolve = λ identity. inr "surface-1";
  outside = λ done effect. none;
  has_hook = true;
  observed = event_input_sent ∷ event_prompt_submitted ∷ [];
  repr = λ s. s;
  timestamp_text = "Invalid isoformat string";
}

abbrev message : Delivery
message = session_delivery transport_submitted

abbrev report : SubmitResult
report = record {
  outcome = submitted;
  delivery_id = "delivery-1";
  source_events = event_input_sent ∷ event_prompt_submitted ∷ [];
  detail = "";
}

abbrev trace : List Effect
trace =
    effect_pending "delivery-1" "surface-1"
    ∷ send_text "surface-1" (short_token <> " hello")
    ∷ submit_key "surface-1" "enter"
    ∷ []

abbrev claim : Claim
claim = record {
  evidence_provider_id = "cmux-provider";
  observed_at = "2026-07-19T00:01:00Z";
  receipt_id = "receipt-1";
  source_event_id = none;
}

ran :
    deliver injector "tama" message "hello" "2026-07-19T00:00:00Z" "2026-07-19T00:02:00Z"
      "claude-code"
    ≡ (returned report, trace)
unfolding deliver mint sign parse_timestamp rstrip_padding text_length is_token_id is_digest
    all_chars is_token_char is_hex_char encode_short short_text profile_for render inject await_from
    perform_all key_effects later_keys string_eq nat_eq ℕ_discrete
ran = refl

deliver-cases_example :
    ((detail : String) × (delivery_run injector "tama" message "hello" "2026-07-19T00:00:00Z"
          "2026-07-19T00:02:00Z" "claude-code"
        ≡ declined "delivery-1" detail))
    ⊎ Prepared injector "tama" message "hello" "2026-07-19T00:00:00Z" "2026-07-19T00:02:00Z"
        "claude-code"
deliver-cases_example =
    deliver-cases injector "tama" message "hello" "2026-07-19T00:00:00Z" "2026-07-19T00:02:00Z"
      "claude-code"

deliver-submit_ack_receipt_example :
    Prepared injector "tama" message "hello" "2026-07-19T00:00:00Z" "2026-07-19T00:02:00Z"
      "claude-code"
    × (all_required (event_input_sent ∷ event_prompt_submitted ∷ []) ≡ true)
    × (binding_id : String) × (message.binding_id ≡ some binding_id)
    × (submit_ack_receipt (λ s. s) report message claim
        ≡ Calls.returned (some (acknowledgement message claim binding_id)))
deliver-submit_ack_receipt_example =
    deliver-submit_ack_receipt injector "tama" message "hello" "2026-07-19T00:00:00Z"
      "2026-07-19T00:02:00Z" "claude-code" report trace claim ran refl
