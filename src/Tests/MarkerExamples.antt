-- ===== src/Tests/MarkerExamples.antt =====
-- The round trips of marker tokens at one marker.
use yatagarasu.Prelude.{String, ◌<>◌, false, some, ◌≡◌, refl, string_eq, nat_eq, arith}
use native.Mathlib.Decide.{ℕ_discrete}
use yatagarasu.Cmux.Calls.{returned}
use yatagarasu.Cmux.Patterns.{
  text_length, is_token_char, is_hex_char, all_chars, is_token_id, is_digest,
}
use yatagarasu.Cmux.Patterns.Runs.{starts_run}
use yatagarasu.Cmux.Marker.{
  rstrip_padding, short, short_of, encode, decode, encode_short, extract, short_text,
}
use yatagarasu.Cmux.Marker.Base64.{IsCoded}
use yatagarasu.Cmux.Marker.RoundTrip.{decode-encode, extract-encode_short}
use yatagarasu.Tests.Wiring.{wire, marker, short_token, digest_bytes}

coded : IsCoded wire digest_bytes
unfolding string_eq nat_eq ℕ_discrete text_length all_chars is_token_char
coded = record {
  body = "AAAAAAAAAAAAAAAAAAAAAAAAAAAAAAAAAAAAAAAAAAA";
  written = refl;
  alphabet = refl;
  size = refl;
  read = refl;
}

decode-encode_example : decode wire (encode wire marker) ≡ returned marker
decode-encode_example = decode-encode wire marker (omega arith) (omega arith) coded refl

made : encode_short wire marker ≡ returned short_token
unfolding string_eq nat_eq ℕ_discrete encode_short short_text rstrip_padding text_length is_token_id
    is_digest all_chars is_token_char is_hex_char
made = refl

abbrev body : String
body = " and the body of the prompt"

ends : starts_run body ≡ false
unfolding starts_run is_token_char nat_eq ℕ_discrete
ends = refl

extract-encode_short_example :
    extract wire (short_token <> body) ≡ some (short (short_of wire marker))
extract-encode_short_example =
    extract-encode_short wire marker short_token body made ends coded (λ h. (refl, refl))
