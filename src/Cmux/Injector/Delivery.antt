-- ===== src/Cmux/Injector/Delivery.antt =====
-- `Injector.deliver` of plugins/cmux/yatagarasu_cmux/injector.py as a whole: the marker, the text
-- and the surface, and then the injection.
pub mod Proven
use yatagarasu.Prelude.{
  String, ◌<>◌, Bool, true, false, Option, none, some, List, [], ◌⊎◌, inl, inr,
}
use yatagarasu.Environment.{Environment}
use yatagarasu.Types.{Delivery, DeliveryMarker}
use yatagarasu.Proofs.Markers.{
  MarkerAuthority, MintError, Minted, minted, value_error, empty_key, lifetime_not_positive,
  no_binding, bad_timestamp, expiry_before_issue, lifetime_exceeds_maximum, mint,
}
use yatagarasu.Cmux.Calls
use yatagarasu.Cmux.Calls.{
  Answer, Error, raised, outbox_error, protocol_error, producer_error, marker_error,
  sqlite_integrity_error, sink_error, type_error, lifecycle_error, assertion_error,
}
use yatagarasu.Cmux.Json.{Wire}
use yatagarasu.Cmux.Marker.{encode_short}
use yatagarasu.Cmux.Harness.{HarnessProfile, profile_for, render}
use yatagarasu.Cmux.Outcome.{SubmitResult, not_submitted}
use yatagarasu.Cmux.Injector.{Outside, Effect, Delivered, returned, inject}

-- What the injector is given, Python's repr, and the text of the exception at a timestamp that
-- cannot be read. `resolve` answers the surface, or raises an exception with the text of the left.
pub record Injector : Type 0 where
  pub env : Environment
  pub wire : Wire
  pub marker_authority : MarkerAuthority
  pub resolve : String → String ⊎ String
  pub outside : Outside
  pub has_hook : Bool
  pub observed : List String
  pub repr : String → String
  pub timestamp_text : String

-- `str` of the exceptions
abbrev pub mint_text : String → MintError → String
mint_text timestamp_text empty_key = "marker signing key must not be empty"
mint_text timestamp_text lifetime_not_positive = "marker lifetime must be positive"
mint_text timestamp_text no_binding = "cannot mint a marker without an authoritative binding"
mint_text timestamp_text bad_timestamp = timestamp_text
mint_text timestamp_text expiry_before_issue = "marker expiry must follow issue time"
mint_text timestamp_text lifetime_exceeds_maximum = "marker lifetime exceeds configured maximum"

abbrev pub error_text : Error → String
error_text (outbox_error message) = message
error_text (protocol_error message) = message
error_text (producer_error message) = message
error_text (marker_error message) = message
error_text (Calls.value_error message) = message
error_text sqlite_integrity_error = ""
error_text sink_error = ""
error_text type_error = ""
error_text (lifecycle_error message) = message
error_text assertion_error = ""

abbrev pub declined : String → String → Delivered × List Effect
declined delivery_id detail = (
  returned (record {
    outcome = not_submitted;
    delivery_id = delivery_id;
    source_events = [];
    detail = detail;
  }),
  [],
)

module _ (given : Injector) where
  abbrev pub rendered : HarnessProfile → Answer String → Answer (HarnessProfile × String)
  rendered profile (Calls.returned text) = Calls.returned (profile, text)
  rendered profile (raised e) = raised e

  abbrev pub marked : HarnessProfile → String → Answer String → Answer (HarnessProfile × String)
  marked profile body (Calls.returned token) =
      rendered profile (render profile (token <> " " <> body))
  marked profile body (raised e) = raised e

  abbrev pub profiled :
      DeliveryMarker → String → Answer HarnessProfile → Answer (HarnessProfile × String)
  profiled marker body (Calls.returned profile) =
      marked profile body (encode_short given.wire marker)
  profiled marker body (raised e) = raised e

  abbrev pub resolved : String → HarnessProfile → String → String ⊎ String → Delivered × List Effect
  resolved delivery_id profile text (inl error) = declined delivery_id ("unresolved: " <> error)
  resolved delivery_id profile text (inr surface) =
      inject given.outside given.has_hook delivery_id surface text profile.inter_key_delay
        profile.submit_keys given.observed

  -- Every exception of the profile, the token and the text is a ValueError.
  abbrev pub prepared_delivery :
      String → String → Answer (HarnessProfile × String) → Delivered × List Effect
  prepared_delivery identity delivery_id (Calls.returned (profile, text)) =
      resolved delivery_id profile text (given.resolve identity)
  prepared_delivery identity delivery_id (raised e) =
      declined delivery_id ("harness profile error: " <> error_text e)

  abbrev pub with_minted :
      String → String → String → String → Minted DeliveryMarker → Delivered × List Effect
  with_minted identity delivery_id body harness (value_error e) =
      declined delivery_id ("marker error: " <> mint_text given.timestamp_text e)
  with_minted identity delivery_id body harness (minted marker) =
      prepared_delivery identity delivery_id (profiled marker body (profile_for given.repr harness))

  unfoldable pub deliver :
      String → Delivery → String → String → String → String → Delivered × List Effect
  deliver identity delivery body issued_at expires_at harness =
      with_minted identity delivery.delivery_id body harness
        (mint given.env given.marker_authority delivery issued_at expires_at)
