-- ===== src/Cmux/Marker.antt =====
-- plugins/cmux/yatagarasu_cmux/marker.py, the markers on the wire, and `MarkerAuthority.encode` and
-- `decode` of core/yatagarasu_core/proofs.py. `True` and `False` of a decoded schema version, which
-- Python takes for the ints 1 and 0, are these here.
pub mod Base64
pub mod RoundTrip
use Prim.Native.Nat.{◌%◌}
use Prim.Native.Char.{code}
use yatagarasu.Prelude.{
  ℕ, suc, String, ◌<>◌, Bool, true, false, not, ◌&&◌, ◌||◌, Option, none, some, List, [], ◌∷◌,
  length, ◌==◌, string_eq, nat_eq, ltb, is_empty, if◌then◌else◌,
}
use yatagarasu.Prelude.Int.{ℤ, pos}
use yatagarasu.Types.{DeliveryMarker}
use yatagarasu.Cmux.Calls.{Answer, returned, raised, marker_error}
use yatagarasu.Cmux.Json.{
  Value, Values, Fields, null, boolean, integer, float, text, list, object, no_fields, field, get,
  has_key, as_text, Wire,
}
use yatagarasu.Cmux.Patterns.{
  text_length, strip_prefix, is_token_id, is_digest, ShortGroups, search_short, find_tokens,
}

pub record ShortMarker : Type 0 where
  pub delivery_id : String
  pub binding_id : String
  pub signature : String

pub data WireMarker : Type 0 where
  full : DeliveryMarker → WireMarker
  short : ShortMarker → WireMarker

-- .rstrip("=")
unfoldable pub rstrip_padding : String → String
rstrip_padding String.[] = ""
rstrip_padding (String.◌∷◌ c s) =
    let rest = rstrip_padding s in if code c == b'=' && is_empty rest then "" else String.◌∷◌ c rest

-- "=" * (-len(encoded) % 4)
abbrev pub padding_of : ℕ → String
padding_of n = if n == 1 then "===" else if n == 2 then "==" else if n == 3 then "=" else ""

abbrev pub token_prefix : String
token_prefix = "ygr1."

-- the fields in the order of their keys
abbrev pub marker_fields : DeliveryMarker → Fields
marker_fields marker = field "attempt_id" (text marker.attempt_id) (
    field "authority_scope" (text marker.authority_scope) (
      field "binding_id" (text marker.binding_id) (
        field "delivery_id" (text marker.delivery_id) (
          field "event_id" (text marker.event_id) (
            field "expires_at" (text marker.expires_at) (
              field "issued_at" (text marker.issued_at) (
                field "schema_version" (integer marker.schema_version)
                  (field "signature" (text marker.signature) no_fields))))))))

abbrev as_schema_version : Value → Option ℤ
as_schema_version (integer n) = some n
as_schema_version (boolean true) = some (pos 1)
as_schema_version (boolean false) = some (pos 0)
as_schema_version _ = none

unfoldable pub field_count : Fields → ℕ
field_count no_fields = 0
field_count (field k v rest) = suc (field_count rest)

-- set(payload) == fields: the nine keys, and no other
abbrev has_marker_fields : Fields → Bool
has_marker_fields payload =
    field_count payload == 9
    && has_key "attempt_id" payload
    && has_key "authority_scope" payload
    && has_key "binding_id" payload
    && has_key "delivery_id" payload
    && has_key "event_id" payload
    && has_key "expires_at" payload
    && has_key "issued_at" payload
    && has_key "schema_version" payload
    && has_key "signature" payload

abbrev with_text : Value → (String → Answer DeliveryMarker) → Answer DeliveryMarker
with_text (text s) next = next s
with_text _ next = raised (marker_error "marker field types invalid")

abbrev with_version : Option ℤ → (ℤ → Answer DeliveryMarker) → Answer DeliveryMarker
with_version (some n) next = next n
with_version none next = raised (marker_error "marker field types invalid")

unfoldable pub marker_of : Fields → Answer DeliveryMarker
marker_of payload =
    if not (has_marker_fields payload)
    then raised (marker_error "marker fields invalid")
    else with_version (as_schema_version (get "schema_version" payload)) (λ schema_version.
      with_text (get "attempt_id" payload) (λ attempt_id.
        with_text (get "authority_scope" payload) (λ authority_scope.
          with_text (get "binding_id" payload) (λ binding_id.
            with_text (get "delivery_id" payload) (λ delivery_id.
              with_text (get "event_id" payload) (λ event_id.
                with_text (get "expires_at" payload) (λ expires_at.
                  with_text (get "issued_at" payload) (λ issued_at.
                    with_text (get "signature" payload) (λ signature. returned (record {
                      schema_version = schema_version;
                      event_id = event_id;
                      delivery_id = delivery_id;
                      attempt_id = attempt_id;
                      binding_id = binding_id;
                      authority_scope = authority_scope;
                      issued_at = issued_at;
                      expires_at = expires_at;
                      signature = signature;
                    }))))))))))

abbrev pub payload_of : Option Value → Answer DeliveryMarker
payload_of none = raised (marker_error "marker encoding invalid")
payload_of (some (object payload)) = marker_of payload
payload_of (some _) = raised (marker_error "marker fields invalid")

module _ (wire : Wire) where
  unfoldable pub encode : DeliveryMarker → String
  encode marker =
      token_prefix
      <> rstrip_padding
          (wire.urlsafe_b64encode (wire.encode_utf8 (wire.dumps (object (marker_fields marker)))))

  abbrev pub decode_bytes : Option (List ℕ) → Answer DeliveryMarker
  decode_bytes none = raised (marker_error "marker encoding invalid")
  decode_bytes (some bytes) = payload_of (wire.loads_bytes bytes)

  unfoldable pub decode_encoded : String → Answer DeliveryMarker
  decode_encoded encoded =
      if is_empty encoded || ltb 4096 (text_length encoded)
      then raised (marker_error "marker size invalid")
      else decode_bytes (wire.urlsafe_b64decode (encoded <> padding_of (text_length encoded % 4)))

  abbrev pub decode_stripped : Option String → Answer DeliveryMarker
  decode_stripped none = raised (marker_error "marker prefix invalid")
  decode_stripped (some encoded) = decode_encoded encoded

  unfoldable pub decode : String → Answer DeliveryMarker
  decode token = decode_stripped (strip_prefix token_prefix token)

  abbrev pub short_signature : List ℕ → String
  short_signature bytes = rstrip_padding (wire.urlsafe_b64encode bytes)

  -- `ShortMarker.text`
  unfoldable pub short_text : ShortMarker → String
  short_text m =
      "ygr1s."
      <> m.delivery_id
      <> "."
      <> m.binding_id
      <> "."
      <> short_signature (wire.fromhex m.signature)

  abbrev pub short_of : DeliveryMarker → ShortMarker
  short_of marker = record {
    delivery_id = marker.delivery_id;
    binding_id = marker.binding_id;
    signature = marker.signature;
  }

  unfoldable pub encode_short : DeliveryMarker → Answer String
  encode_short marker =
      if not (is_token_id marker.delivery_id)
      then raised (marker_error "delivery_id cannot be represented in a short marker")
      else if not (is_token_id marker.binding_id)
      then raised (marker_error "binding_id cannot be represented in a short marker")
      else if not (is_digest marker.signature)
      then raised (marker_error "marker signature is not a full SHA-256 hex digest")
      else if ltb 180 (text_length (short_text (short_of marker)))
      then raised (marker_error "short marker exceeds the CMUX preview budget")
      else returned (short_text (short_of marker))

  abbrev bytes_or_empty : Option (List ℕ) → List ℕ
  bytes_or_empty none = []
  bytes_or_empty (some bytes) = bytes

  unfoldable pub short_found : Option ShortGroups → Option ShortMarker
  short_found none = none
  short_found (some groups) =
      let bytes = bytes_or_empty (wire.urlsafe_b64decode (groups.signature <> "=")) in
      if length bytes == 32 && short_signature bytes == groups.signature
      then some (record {
        delivery_id = groups.delivery_id;
        binding_id = groups.binding_id;
        signature = wire.hex bytes;
      })
      else none

  -- the first token that decodes
  unfoldable pub first_decodable : List String → Option WireMarker
  first_decodable [] = none
  first_decodable (token ∷ tokens) =
      let rest = first_decodable tokens in
      elim (decode token) [ returned marker ↦ some (full marker) | raised e ↦ rest ]

  unfoldable pub extract : String → Option WireMarker
  extract haystack =
      if is_empty haystack then none else elim (short_found (search_short haystack)) [
        | some m ↦ some (short m)
        | none ↦ first_decodable (find_tokens haystack)
      ]

  abbrev pub marker_text : WireMarker → String
  marker_text (short m) = short_text m
  marker_text (full m) = encode m
