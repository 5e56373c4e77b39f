-- ===== src/Cmux/Harness.antt =====
-- plugins/cmux/yatagarasu_cmux/harness_profiles.py: how the next turn is asked of each harness.
use yatagarasu.Prelude.{ℕ, String, ◌<>◌, List, [], ◌∷◌, ◌==◌, string_eq, is_empty, if◌then◌else◌}
use yatagarasu.Cmux.Calls.{Answer, returned, raised, value_error}

pub data HarnessKind : Type 0 where
  claude_code codex hermes : HarnessKind

pub data BusyEnterBehavior : Type 0 where
  queue steer interrupt : BusyEnterBehavior

-- `inter_key_delay` is the delay in tenths of a second.
pub record HarnessProfile : Type 0 where
  pub kind : HarnessKind
  pub submit_keys : List String
  pub busy_enter_behavior : BusyEnterBehavior
  pub text_prefix : String
  pub inter_key_delay : ℕ

unfoldable pub render : HarnessProfile → String → Answer String
render profile envelope =
    if is_empty envelope
    then raised (value_error "cannot submit an empty envelope")
    else returned (profile.text_prefix <> envelope)

-- _PROFILES
abbrev pub profile_of : HarnessKind → HarnessProfile
profile_of claude_code = record {
  kind = claude_code;
  submit_keys = "enter" ∷ [];
  busy_enter_behavior = queue;
  text_prefix = "";
  inter_key_delay = 0;
}
profile_of codex = record {
  kind = codex;
  submit_keys = "tab" ∷ "enter" ∷ [];
  busy_enter_behavior = steer;
  text_prefix = "";
  inter_key_delay = 4;
}
profile_of hermes = record {
  kind = hermes;
  submit_keys = "enter" ∷ [];
  busy_enter_behavior = interrupt;
  text_prefix = "/queue ";
  inter_key_delay = 0;
}

-- `repr` is Python's, which the message of the exception uses.
unfoldable pub profile_for : (String → String) → String → Answer HarnessProfile
profile_for repr kind =
    if kind == "claude-code"
    then returned (profile_of claude_code)
    else if kind == "codex"
    then returned (profile_of codex)
    else if kind == "hermes"
    then returned (profile_of hermes)
    else raised (value_error ("unsupported harness: " <> repr kind))
