-- ===== src/Cmux/Patterns/Runs.antt =====
-- Where the patterns of plugins/cmux/yatagarasu_cmux/marker.py find their parts in a text.
use native.Mathlib.Decide.{ℕ_discrete}
use text.Mathlib.TextLemmas.{nil-append, cons-append}
use yatagarasu.Prelude.{
  String, ◌<>◌, Bool, true, false, some, nat_eq, string_eq, is_empty, ◌≡◌, refl, inl, inr,
  Bool-cases, arith,
}
use yatagarasu.Cmux.Patterns.{
  strip_prefix, is_token_char, all_chars, take_run, drop_run, ShortGroups, short_at, search_short,
}

-- a token character stands at the start
unfoldable pub starts_run : String → Bool
starts_run String.[] = false
starts_run (String.◌∷◌ c s) = is_token_char c

pub strip_prefix-append : (p s : String) → strip_prefix p (p <> s) ≡ some s
unfolding strip_prefix
strip_prefix-append String.[] s = rw (nil-append s)
strip_prefix-append (String.◌∷◌ c p) s =
    rw (cons-append c p s) (ground (arith, strip_prefix-append p s))

take_run-nil : (t : String) → starts_run t ≡ false → take_run t ≡ ""
unfolding take_run starts_run
take_run-nil String.[] h = refl
take_run-nil (String.◌∷◌ c t) h = rw h refl

drop_run-nil : (t : String) → starts_run t ≡ false → drop_run t ≡ t
unfolding drop_run starts_run
drop_run-nil String.[] h = refl
drop_run-nil (String.◌∷◌ c t) h = rw h refl

pub take_run-append :
    (s t : String) → all_chars is_token_char s ≡ true → starts_run t ≡ false → take_run (s <> t) ≡ s
unfolding take_run all_chars
take_run-append String.[] t h new = rw (nil-append t) (take_run-nil t new)
take_run-append (String.◌∷◌ c s) t h new =
    rw (cons-append c s t) (ground (arith, take_run-append s t))

pub drop_run-append :
    (s t : String) → all_chars is_token_char s ≡ true → starts_run t ≡ false → drop_run (s <> t) ≡ t
unfolding drop_run all_chars
drop_run-append String.[] t h new = rw (nil-append t) (drop_run-nil t new)
drop_run-append (String.◌∷◌ c s) t h new =
    rw (cons-append c s t) (ground (arith, drop_run-append s t))

pub dot_starts : (t : String) → starts_run ("." <> t) ≡ false
unfolding starts_run is_token_char nat_eq ℕ_discrete
dot_starts t = rw (cons-append "." "" t) refl

pub search_short-here :
    (s : String) {groups : ShortGroups} → short_at s ≡ some groups → search_short s ≡ some groups
unfolding search_short short_at strip_prefix
search_short-here String.[] h = cc
search_short-here (String.◌∷◌ c s) h = rw (h, search_short) refl

pub short_at-filled :
    (s : String) {groups : ShortGroups} → short_at s ≡ some groups → is_empty s ≡ false
unfolding short_at strip_prefix
short_at-filled s h = elim (Bool-cases (is_empty s)) [
  | inl e ↦ let same : s ≡ "" = ground arith in cc
  | inr e ↦ e
]
