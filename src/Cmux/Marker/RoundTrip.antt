-- ===== src/Cmux/Marker/RoundTrip.antt =====
-- A marker that was written is read back.
use Prim.Native.Nat.{◌/◌, ◌%◌}
use native.Mathlib.Decide.{ℕ_discrete}
use text.Mathlib.TextLemmas.{append_assoc}
use yatagarasu.Prelude.{
  ℕ, ◌+◌, ◌*◌, ◌<◌, ◌≤◌, String, List, ◌<>◌, true, false, Option, some, length, string_eq, nat_eq,
  ltb, is_empty, ◌≡◌, refl, ap, sym, ◌∙◌, inl, inr, Bool-cases, arith,
}
use yatagarasu.Types.{DeliveryMarker}
use yatagarasu.Cmux.Calls.{returned}
use yatagarasu.Cmux.Json.{Wire, object, get, has_key}
use yatagarasu.Cmux.Patterns.{
  text_length, is_token_char, is_token_id, is_digest, all_chars, ShortGroups, fits_id, id_at,
  signature_at, short_at,
}
use yatagarasu.Cmux.Patterns.Runs.{
  starts_run, strip_prefix-append, take_run-append, drop_run-append, dot_starts, search_short-here,
  short_at-filled,
}
use yatagarasu.Cmux.Marker.{
  short, padding_of, token_prefix, marker_fields, marker_of, field_count, encode, decode,
  decode_stripped, decode_encoded, short_signature, short_of, short_text, encode_short, short_found,
  extract,
}
use yatagarasu.Cmux.Marker.Base64.{IsCoded, last_group, padding_of-size, is_empty-length, stripped}

marker_of-marker_fields :
    (marker : DeliveryMarker) → marker_of (marker_fields marker) ≡ returned marker
unfolding marker_of get has_key field_count string_eq nat_eq ℕ_discrete
marker_of-marker_fields marker = refl

module _ (wire : Wire) (marker : DeliveryMarker) where
  abbrev pub payload : String
  payload = wire.dumps (object (marker_fields marker))

  -- A full marker that was encoded decodes to itself, provided that its JSON text has between 1 and
  -- 3072 bytes, that base64 codes them as RFC 4648 says, and that JSON reads them back to the
  -- object they were made of.
  pub decode-encode :
      0 < length (wire.encode_utf8 payload)
      → length (wire.encode_utf8 payload) ≤ 3072
      → IsCoded wire (wire.encode_utf8 payload)
      → wire.loads_bytes (wire.encode_utf8 payload) ≡ some (object (marker_fields marker))
      → decode wire (encode wire marker) ≡ returned marker
  unfolding decode encode decode_encoded
  decode-encode filled fits coded json =
      let n = length (wire.encode_utf8 payload) in
      let body = coded.body in
      let size = coded.size in
      let small : ltb 4096 (text_length body) ≡ false = ground arith in
      let some_text : is_empty body ≡ false = elim (Bool-cases (is_empty body)) [
        | inl e ↦ let none_left = is_empty-length body e in absurd (omega arith)
        | inr e ↦ e
      ] in
      let padded : body <> padding_of (text_length body % 4) ≡ body <> last_group n =
        ap (λ (k : ℕ). body <> padding_of (k % 4)) size ∙ ap (λ p. body <> p) (padding_of-size n) in
      let restored = ap wire.urlsafe_b64decode (padded ∙ sym coded.written) ∙ coded.read in
      ap (λ text. decode wire (token_prefix <> text))
        (stripped wire (wire.encode_utf8 payload) coded)
      ∙ ap (decode_stripped wire) (strip_prefix-append token_prefix body)
      ∙ rw (some_text, small, restored, json, marker_of-marker_fields marker) refl

module _ (delivery_id binding_id signature rest : String) where
  abbrev groups : ShortGroups
  groups = record { delivery_id = delivery_id; binding_id = binding_id; signature = signature }

  abbrev signed : String
  signed = signature <> rest

  abbrev bound : String
  bound = binding_id <> ("." <> signed)

  signature_at-signed :
      all_chars is_token_char signature ≡ true
      → text_length signature ≡ 43
      → starts_run rest ≡ false
      → signature_at delivery_id binding_id signed ≡ some groups
  unfolding signature_at nat_eq ℕ_discrete
  signature_at-signed plain size ends = rw (take_run-append signature rest plain ends, size) refl

  id_at-dot :
      (next : String → String → Option ShortGroups) (id after : String)
      → is_token_id id ≡ true
      → id_at next (id <> ("." <> after)) ≡ next id after
  unfolding id_at is_token_id
  id_at-dot next id after h =
      let plain : all_chars is_token_char id ≡ true = ground arith in
      let sized : fits_id id ≡ true = ground arith in
      let taken = take_run-append id ("." <> after) plain (dot_starts after) in
      rw
        (
          taken,
          sized,
          drop_run-append id ("." <> after) plain (dot_starts after),
          strip_prefix-append "." after,
          taken,
        )
        refl

  short_at-prefix :
      (t : String) → short_at ("ygr1s." <> t) ≡ id_at (λ d. id_at (λ b. signature_at d b)) t
  unfolding short_at
  short_at-prefix t = rw (short_at, strip_prefix-append "ygr1s." t) refl

  -- the groups of a token that text follows
  short_at-token :
      is_token_id delivery_id ≡ true
      → is_token_id binding_id ≡ true
      → all_chars is_token_char signature ≡ true
      → text_length signature ≡ 43
      → starts_run rest ≡ false
      → short_at ("ygr1s." <> (delivery_id <> ("." <> bound))) ≡ some groups
  short_at-token first second plain size ends =
      short_at-prefix (delivery_id <> ("." <> bound))
      ∙ id_at-dot (λ d. id_at (λ b. signature_at d b)) delivery_id bound first
      ∙ id_at-dot (λ b. signature_at delivery_id b) binding_id signed second
      ∙ signature_at-signed plain size ends

-- what bytes.fromhex and bytes.hex promise: two digits for each byte, read back as they were
abbrev pub IsHexRead : Wire → String → Type 0
IsHexRead wire s =
    is_digest s ≡ true → (length (wire.fromhex s) ≡ 32) × (wire.hex (wire.fromhex s) ≡ s)

short_found-read :
    (wire : Wire) (groups : ShortGroups) (bytes : List ℕ)
    → wire.urlsafe_b64decode (groups.signature <> "=") ≡ some bytes
    → length bytes ≡ 32
    → short_signature wire bytes ≡ groups.signature
    → short_found wire (some groups)
      ≡ some (record {
        delivery_id = groups.delivery_id;
        binding_id = groups.binding_id;
        signature = wire.hex bytes;
      })
unfolding short_found
short_found-read wire groups bytes decoded long same = rw decoded (ground arith)

module _ (wire : Wire) (marker : DeliveryMarker) (token rest : String) where
  abbrev bytes : List ℕ
  bytes = wire.fromhex marker.signature

  -- what `encode_short` has tested
  encoded-checked :
      encode_short wire marker ≡ returned token
      → (is_token_id marker.delivery_id ≡ true)
        × (is_token_id marker.binding_id ≡ true)
        × (is_digest marker.signature ≡ true)
        × (token ≡ short_text wire (short_of wire marker))
  unfolding encode_short
  encoded-checked h = ground arith

  token_text :
      short_text wire (short_of wire marker) <> rest
      ≡ "ygr1s."
        <> (marker.delivery_id
            <> ("." <> (marker.binding_id <> ("." <> (short_signature wire bytes <> rest)))))
  unfolding short_text
  token_text = simp append_assoc

  -- A short token that was encoded is extracted to the delivery, the binding and the signature of
  -- its marker, whatever text follows it that does not go on with a letter, a digit, "_" or "-",
  -- provided that base64 codes the bytes of the signature as RFC 4648 says, and that the
  -- hexadecimal digits of a digest stand for 32 bytes and are read back.
  pub extract-encode_short :
      encode_short wire marker ≡ returned token
      → starts_run rest ≡ false
      → IsCoded wire bytes
      → IsHexRead wire marker.signature
      → extract wire (token <> rest) ≡ some (short (short_of wire marker))
  unfolding extract nat_eq ℕ_discrete
  extract-encode_short made ends coded digest =
      let (first, second, hashed, is) = encoded-checked made in
      let (long, hex) = digest hashed in
      let body = coded.body in
      let stripped_body = stripped wire bytes coded in
      let size : text_length body ≡ 43 = coded.size ∙ ap (λ (n : ℕ). (n * 8 + 5) / 6) long in
      let padded : body <> "=" ≡ wire.urlsafe_b64encode bytes =
        ap (λ (n : ℕ). body <> last_group n) (sym long) ∙ sym coded.written in
      let found =
        short_found-read wire (groups marker.delivery_id marker.binding_id body rest) bytes
          (ap wire.urlsafe_b64decode padded ∙ coded.read) long stripped_body in
      let spelled =
        ap (λ t. t <> rest) is
        ∙ token_text
        ∙ ap
            (λ s.
              "ygr1s."
              <> (marker.delivery_id <> ("." <> (marker.binding_id <> ("." <> (s <> rest))))))
            stripped_body in
      let matched =
        ap short_at spelled
        ∙ short_at-token marker.delivery_id marker.binding_id body rest first second coded.alphabet
            size ends in
      rw
        (
          short_at-filled (token <> rest) matched,
          search_short-here (token <> rest) matched,
          found,
          hex,
        )
        refl
