-- ===== src/Proofs/Markers.antt =====
-- `MarkerAuthority` of core/yatagarasu_core/proofs.py: minting and checking delivery markers.
-- A `bytes` key is a text. `encode` and `decode` stand in Cmux/Marker.
pub mod Validity
use yatagarasu.Prelude.{
  ℕ, ◌*◌, ◌-◌, String, Bool, not, ◌||◌, ◌&&◌, Option, none, some, ◌∷◌, [], ◌==◌, string_eq,
  option_eq, leb, ltb, if◌then◌else◌, is_empty,
}
use yatagarasu.Prelude.Int.{ℤ, pos, negsuc, int_eq}
use yatagarasu.Environment.{Environment, text, int, object}
use yatagarasu.Types.{Delivery, DeliveryMarker}
use yatagarasu.Reasons.{
  Check, refuse_if, required, marker_fields_mismatch, marker_signature_invalid,
  marker_timestamp_invalid, marker_lifetime_exceeds_limit, marker_expired_or_not_yet_valid, ◌>>=◌,
  ◌>>◌,
}
use yatagarasu.Proofs.Timestamps.{parse_timestamp}

-- AUTHORITY_SCOPE, MARKER_SCHEMA_VERSION
abbrev pub authority_scope_text : String
authority_scope_text = "conversation"

abbrev pub marker_schema_version : ℤ
marker_schema_version = pos 1

-- `max_lifetime` is the timedelta in microseconds.
pub record MarkerAuthority : Type 0 where
  pub signing_key : String
  pub max_lifetime : ℕ

pub data MintError : Type 0 where
  empty_key lifetime_not_positive no_binding bad_timestamp : MintError
  expiry_before_issue lifetime_exceeds_maximum : MintError

pub data Minted (A : Type 0) : Type 0 where
  minted : A → Minted A
  value_error : MintError → Minted A

-- `__init__`
unfoldable pub new_authority : String → ℤ → Minted MarkerAuthority
new_authority signing_key (negsuc n) =
    if is_empty signing_key then value_error empty_key else value_error lifetime_not_positive
new_authority signing_key (pos seconds) =
    if is_empty signing_key
    then value_error empty_key
    else if leb seconds 0
    then value_error lifetime_not_positive
    else minted (record { signing_key = signing_key; max_lifetime = seconds * 1000000 })

module _ (env : Environment) where
  -- `_sign`: everything but the signature is signed
  unfoldable pub sign : MarkerAuthority → DeliveryMarker → String
  sign authority marker = env.hmac_sha256 authority.signing_key (
      env.dumps (
        object (
          ("attempt_id", text marker.attempt_id)
          ∷ ("authority_scope", text marker.authority_scope)
          ∷ ("binding_id", text marker.binding_id)
          ∷ ("delivery_id", text marker.delivery_id)
          ∷ ("event_id", text marker.event_id)
          ∷ ("expires_at", text marker.expires_at)
          ∷ ("issued_at", text marker.issued_at)
          ∷ ("schema_version", int marker.schema_version)
          ∷ [])))

  abbrev pub unsigned : Delivery → String → String → String → DeliveryMarker
  unsigned delivery binding_id issued_at expires_at = record {
    schema_version = marker_schema_version;
    event_id = delivery.event_id;
    delivery_id = delivery.delivery_id;
    attempt_id = delivery.attempt_id;
    binding_id = binding_id;
    authority_scope = authority_scope_text;
    issued_at = issued_at;
    expires_at = expires_at;
    signature = "";
  }

  mint_checked : MarkerAuthority → DeliveryMarker → Option ℕ → Option ℕ → Minted DeliveryMarker
  mint_checked authority marker none issued = value_error bad_timestamp
  mint_checked authority marker (some expires) none = value_error bad_timestamp
  mint_checked authority marker (some expires) (some issued) =
      if leb expires issued
      then value_error expiry_before_issue
      else if ltb authority.max_lifetime (expires - issued)
      then value_error lifetime_exceeds_maximum
      else minted (record marker { signature = sign authority marker })

  unfoldable pub mint : MarkerAuthority → Delivery → String → String → Minted DeliveryMarker
  unfolding mint_checked
  mint authority delivery issued_at expires_at = elim delivery.binding_id [
    | none ↦ value_error no_binding
    | some binding_id ↦
        mint_checked authority (unsigned delivery binding_id issued_at expires_at)
          (parse_timestamp env expires_at) (parse_timestamp env issued_at)
  ]

  abbrev pub fields_match : DeliveryMarker → Delivery → Bool
  fields_match marker delivery =
      marker.schema_version == marker_schema_version
      && marker.event_id == delivery.event_id
      && marker.delivery_id == delivery.delivery_id
      && marker.attempt_id == delivery.attempt_id
      && some marker.binding_id == delivery.binding_id
      && marker.authority_scope == authority_scope_text

  -- `observed < issued or observed >= expires`, after `expires <= issued`
  unfoldable pub check_window : MarkerAuthority → ℕ → ℕ → ℕ → Check (Unit {0})
  check_window authority issued expires observed = do
    refuse_if (ltb authority.max_lifetime (expires - issued)) marker_lifetime_exceeds_limit
    refuse_if (leb expires issued || ltb observed issued || leb expires observed)
        marker_expired_or_not_yet_valid

  unfoldable pub validate : MarkerAuthority → DeliveryMarker → Delivery → String → Check (Unit {0})
  validate authority marker delivery observed_at = do
    refuse_if (not (fields_match marker delivery)) marker_fields_mismatch
    refuse_if (not (marker.signature == sign authority marker)) marker_signature_invalid
    issued ← required (parse_timestamp env marker.issued_at) marker_timestamp_invalid
    expires ← required (parse_timestamp env marker.expires_at) marker_timestamp_invalid
    observed ← required (parse_timestamp env observed_at) marker_timestamp_invalid
    check_window authority issued expires observed
