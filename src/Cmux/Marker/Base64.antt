-- ===== src/Cmux/Marker/Base64.antt =====
-- What base64 promises (RFC 4648), and how plugins/cmux/yatagarasu_cmux/marker.py and
-- core/yatagarasu_core/proofs.py strip and restore its padding.
use Prim.Native.Nat.{◌/◌, ◌%◌}
use text.Mathlib.TextLemmas.{nil-append, cons-append}
use yatagarasu.Prelude.{
  ℕ, ◌+◌, ◌*◌, String, ◌<>◌, true, some, List, length, ◌==◌, nat_eq, string_eq, is_empty,
  if◌then◌else◌, ◌≡◌, refl, ap, ◌∙◌, inl, inr, Bool-cases, arith,
}
use native.Mathlib.Decide.{ℕ_discrete}
use yatagarasu.Cmux.Json.{Wire}
use yatagarasu.Cmux.Patterns.{text_length, is_token_char, all_chars}
use yatagarasu.Cmux.Marker.{rstrip_padding, padding_of}

-- the padding of n bytes
abbrev pub last_group : ℕ → String
last_group n = if n % 3 == 1 then "==" else if n % 3 == 2 then "=" else ""

-- base64 with the URL-safe alphabet writes six bits in each character and fills up the last group
-- of four with "=", and reads back what it wrote.
pub record IsCoded (wire : Wire) (bytes : List ℕ) : Type 0 where
  pub body : String
  pub written : wire.urlsafe_b64encode bytes ≡ body <> last_group (length bytes)
  pub alphabet : all_chars is_token_char body ≡ true
  pub size : text_length body ≡ (length bytes * 8 + 5) / 6
  pub read : wire.urlsafe_b64decode (wire.urlsafe_b64encode bytes) ≡ some bytes

rstrip_padding-body :
    (body padding : String)
    → all_chars is_token_char body ≡ true
    → rstrip_padding padding ≡ ""
    → rstrip_padding (body <> padding) ≡ body
unfolding rstrip_padding all_chars is_token_char
rstrip_padding-body String.[] padding h e = rw (nil-append padding) e
rstrip_padding-body (String.◌∷◌ c s) padding h e =
    rw (cons-append c s padding) (ground (arith, rstrip_padding-body s padding))

last_group-stripped : (n : ℕ) → rstrip_padding (last_group n) ≡ ""
unfolding rstrip_padding string_eq nat_eq ℕ_discrete
last_group-stripped n = elim (Bool-cases (n % 3 == 1)) [
  | inl one ↦ rw one refl
  | inr e ↦ elim (Bool-cases (n % 3 == 2)) [ inl two ↦ rw (e, two) refl | inr f ↦ rw (e, f) refl ]
]

pub padding_of-size : (n : ℕ) → padding_of ((n * 8 + 5) / 6 % 4) ≡ last_group n
padding_of-size n = ground arith

pub is_empty-length : (s : String) → is_empty s ≡ true → text_length s ≡ 0
unfolding text_length
is_empty-length s h = let same : s ≡ "" = ground arith in ap text_length same

module _ (wire : Wire) (bytes : List ℕ) (coded : IsCoded wire bytes) where
  pub stripped : rstrip_padding (wire.urlsafe_b64encode bytes) ≡ coded.body
  stripped =
      ap rstrip_padding coded.written
      ∙ rstrip_padding-body coded.body (last_group (length bytes)) coded.alphabet
          (last_group-stripped (length bytes))
