-- ===== src/Cmux/Injector.antt =====
-- `Injector` of plugins/cmux/yatagarasu_cmux/injector.py from the point on where the local effect
-- may fire. The hook, the transport and the observer are parameters.
pub mod Evidence
pub mod Effects
pub mod Delivery
use yatagarasu.Prelude.{
  ℕ, String, ◌<>◌, Bool, true, false, not, ◌&&◌, Option, none, some, List, [], ◌∷◌, ◌++◌, ◌==◌,
  string_eq, nat_eq, contains, if◌then◌else◌,
}
use yatagarasu.Cmux.Outcome.{SubmitResult, submitted, not_submitted, unknown}

-- EVENT_INPUT_SENT, EVENT_PROMPT_SUBMITTED
abbrev pub event_input_sent : String
event_input_sent = "surface.input_sent"

abbrev pub event_prompt_submitted : String
event_prompt_submitted = "workspace.prompt.submitted"

-- all(required in seen for required in REQUIRED_EVENTS)
abbrev pub all_required : List String → Bool
all_required seen = contains seen event_input_sent && contains seen event_prompt_submitted

unfoldable pub classify_shortfall : String → List String → SubmitResult
classify_shortfall delivery_id [] = record {
  outcome = not_submitted;
  delivery_id = delivery_id;
  source_events = [];
  detail = "no host events observed within window";
}
classify_shortfall delivery_id (name ∷ names) =
    let seen = name ∷ names in
    record {
      outcome = unknown;
      delivery_id = delivery_id;
      source_events = seen;
      detail =
          if contains seen event_input_sent && not (contains seen event_prompt_submitted)
          then "input accepted but submit unobserved; holding to avoid a duplicate turn"
          else "incomplete evidence chain";
    }

abbrev pub note : List String → String → List String
note seen name = if contains seen name then seen else seen ++ name ∷ []

-- the loop over the names that the observer yields
unfoldable pub await_from : String → List String → List String → SubmitResult
await_from delivery_id seen [] = classify_shortfall delivery_id seen
await_from delivery_id seen (name ∷ names) =
    let rest = await_from delivery_id (note seen name) names in
    if all_required (note seen name)
    then record {
      outcome = submitted;
      delivery_id = delivery_id;
      source_events = note seen name;
      detail = "";
    }
    else rest

abbrev pub await_proof : String → List String → SubmitResult
await_proof delivery_id names = await_from delivery_id [] names

-- what happens outside, in order
pub data Effect : Type 0 where
  effect_pending : String → String → Effect
  send_text : String → String → Effect
  slept : ℕ → Effect
  submit_key : String → String → Effect

-- The answer of the outside to an effect, given those before it: an exception's text, or none.
abbrev pub Outside : Type 0
Outside = List Effect → Effect → Option String

-- The last exception, if there was one, and the effects until then.
abbrev pub Trace : Type 0
Trace = Option String × List Effect

-- nothing follows an exception
abbrev pub unless_raised : Option String → List Effect → Trace → Trace
unless_raised none done rest = rest
unless_raised (some error) done rest = (some error, done)

-- The effects one after the other, until one raises.
unfoldable pub perform_all : Outside → List Effect → List Effect → Trace
perform_all outside [] done = (none, done)
perform_all outside (effect ∷ effects) done =
    unless_raised (outside done effect) (done ++ effect ∷ [])
      (perform_all outside effects (done ++ effect ∷ []))

-- `for index, key in enumerate(profile.submit_keys)`; only the first key has no delay
unfoldable pub later_keys : String → ℕ → List String → List Effect
later_keys surface delay [] = []
later_keys surface delay (key ∷ keys) =
    let rest = submit_key surface key ∷ later_keys surface delay keys in
    if delay == 0 then rest else slept delay ∷ rest

unfoldable pub key_effects : String → ℕ → List String → List Effect
unfolding later_keys
key_effects surface delay [] = []
key_effects surface delay (key ∷ keys) = submit_key surface key ∷ later_keys surface delay keys

pub data Delivered : Type 0 where
  returned : SubmitResult → Delivered
  hook_raised : String → Delivered

abbrev pub conclude_injection : String → List String → Trace → Delivered × List Effect
conclude_injection delivery_id names (none, done) = (returned (await_proof delivery_id names), done)
conclude_injection delivery_id names (some error, done) = (
  returned (record {
    outcome = unknown;
    delivery_id = delivery_id;
    source_events = [];
    detail = "transport error: " <> error;
  }),
  done,
)

-- `hook` tells whether on_effect_pending is set; `names` is what the observer yields.
unfoldable pub inject :
    Outside
    → Bool
    → String
    → String
    → String
    → ℕ
    → List String
    → List String
    → Delivered × List Effect
inject outside hook delivery_id surface text delay keys names =
    let effects = send_text surface text ∷ key_effects surface delay keys in
    if hook
    then elim (outside [] (effect_pending delivery_id surface)) [
      | none ↦
          conclude_injection delivery_id names
            (perform_all outside effects (effect_pending delivery_id surface ∷ []))
      | some error ↦ (hook_raised error, effect_pending delivery_id surface ∷ [])
    ]
    else conclude_injection delivery_id names (perform_all outside effects [])
