-- ===== src/Cmux/Patterns.antt =====
-- The patterns of plugins/cmux/yatagarasu_cmux/marker.py, as the match that Python's re finds.
-- A class is followed by a character outside it wherever the program repeats it, so a repetition
-- takes the longest run and never gives a character back.
pub mod Runs
use Prim.Native.Char.{Char, code}
use yatagarasu.Prelude.{
  ℕ, zero, suc, ◌-◌, String, ◌<>◌, Bool, true, false, ◌&&◌, ◌||◌, Option, none, some, List, [], ◌∷◌,
  ◌==◌, nat_eq, leb, if◌then◌else◌,
}

unfoldable pub text_length : String → ℕ
text_length String.[] = 0
text_length (String.◌∷◌ c s) = suc (text_length s)

-- s.startswith(prefix), and then s.removeprefix(prefix)
unfoldable pub strip_prefix : String → String → Option String
strip_prefix String.[] s = some s
strip_prefix (String.◌∷◌ c p) String.[] = none
strip_prefix (String.◌∷◌ c p) (String.◌∷◌ d s) =
    let rest = strip_prefix p s in if code c == code d then rest else none

abbrev pub within : ℕ → ℕ → ℕ → Bool
within low high n = leb low n && leb n high

-- [A-Za-z0-9_-]
unfoldable pub is_token_char : Char → Bool
is_token_char c =
    within b'A' b'Z' (code c)
    || within b'a' b'z' (code c)
    || within b'0' b'9' (code c)
    || code c == b'_'
    || code c == b'-'

-- [0-9a-f]
unfoldable pub is_hex_char : Char → Bool
is_hex_char c = within b'0' b'9' (code c) || within b'a' b'f' (code c)

unfoldable pub all_chars : (Char → Bool) → String → Bool
all_chars p String.[] = true
all_chars p (String.◌∷◌ c s) = p c && all_chars p s

-- the longest run of token characters at the start, and what follows it
unfoldable pub take_run : String → String
take_run String.[] = ""
take_run (String.◌∷◌ c s) =
    let rest = take_run s in if is_token_char c then String.◌∷◌ c rest else ""

unfoldable pub drop_run : String → String
drop_run String.[] = ""
drop_run (String.◌∷◌ c s) =
    let rest = drop_run s in if is_token_char c then rest else String.◌∷◌ c s

-- the length of _TOKEN_ID_PATTERN
abbrev pub fits_id : String → Bool
fits_id run = within 1 64 (text_length run)

unfoldable pub is_token_id : String → Bool
is_token_id s = all_chars is_token_char s && fits_id s

unfoldable pub is_digest : String → Bool
is_digest s = all_chars is_hex_char s && text_length s == 64

-- The groups of _SHORT_MARKER_RE.
pub record ShortGroups : Type 0 where
  pub delivery_id : String
  pub binding_id : String
  pub signature : String

-- the signature's characters, and no other token character after them
unfoldable pub signature_at : String → String → String → Option ShortGroups
signature_at delivery_id binding_id s =
    if text_length (take_run s) == 43
    then some
        (record { delivery_id = delivery_id; binding_id = binding_id; signature = take_run s })
    else none

-- an ID and the dot after it, then the next part
unfoldable pub id_at : (String → String → Option ShortGroups) → String → Option ShortGroups
id_at next s =
    if fits_id (take_run s)
    then elim (strip_prefix "." (drop_run s)) [ none ↦ none | some rest ↦ next (take_run s) rest ]
    else none

-- a match of _SHORT_MARKER_RE at the start of a text
unfoldable pub short_at : String → Option ShortGroups
unfolding id_at signature_at
short_at s = elim (strip_prefix "ygr1s." s) [
  | none ↦ none
  | some rest ↦
      id_at (λ delivery_id. id_at (λ binding_id. signature_at delivery_id binding_id)) rest
]

-- _SHORT_MARKER_RE.search: the first position with a match
unfoldable pub search_short : String → Option ShortGroups
unfolding short_at
search_short String.[] = none
search_short (String.◌∷◌ c s) =
    let rest = search_short s in
    elim (short_at (String.◌∷◌ c s)) [ some groups ↦ some groups | none ↦ rest ]

-- a match of _YGR1_RE at the start of a text: its group 1
unfoldable pub token_at : String → Option String
token_at s = elim (strip_prefix "ygr1." s) [
  | none ↦ none
  | some rest ↦
      if leb 1 (text_length (take_run rest)) then some ("ygr1." <> take_run rest) else none
]

-- the tokens after the characters that the match before them has taken
unfoldable pub tokens_after : ℕ → String → List String
unfolding token_at
tokens_after taken String.[] = []
tokens_after (suc taken) (String.◌∷◌ c s) = tokens_after taken s
tokens_after zero (String.◌∷◌ c s) = elim (token_at (String.◌∷◌ c s)) [
  | none ↦ tokens_after 0 s
  | some token ↦ token ∷ tokens_after (text_length token - 1) s
]

-- the groups 1 of _YGR1_RE.finditer
unfoldable pub find_tokens : String → List String
unfolding tokens_after
find_tokens s = tokens_after 0 s
