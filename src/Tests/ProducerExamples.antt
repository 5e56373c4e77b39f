-- ===== src/Tests/ProducerExamples.antt =====
-- The theorems on the receipt producer at the four events of a turn.
use yatagarasu.Prelude.{
  true, false, none, some, List, [], ◌∷◌, any, All, string_eq, ◌≡◌, refl, option_eq,
}
use yatagarasu.Prelude.Int.{pos}
use yatagarasu.Types.{SourceEventRef}
use yatagarasu.Cmux.Producer.{WorkspaceChain, accept_in, fresh_chain}
use yatagarasu.Cmux.Producer.Chains.{
  Call, observing, recovering, calls, new_producer, calls-IsHonest, accept_in-accept_in,
}
use yatagarasu.Cmux.Emitter.Honesty.{IsHonest}
use yatagarasu.Tests.Wiring.{digest_text, given, input_event, prompt_event, hook_event, stop_event}

abbrev turn : List Call
turn =
    observing input_event
    ∷ observing prompt_event
    ∷ observing hook_event
    ∷ observing stop_event
    ∷ recovering (input_event ∷ prompt_event ∷ [])
    ∷ []

calls-IsHonest_example :
    All
      (IsHonest given (calls given turn new_producer).emitter.sent)
      (calls given turn new_producer).emitter.sent
calls-IsHonest_example = calls-IsHonest given turn

abbrev prompt : SourceEventRef
prompt = record {
  source_instance_id = "cmux-1";
  boot_id = "boot-1";
  seq = pos 2;
  source_event_id = "prompt";
  event_name = "workspace.prompt.submitted";
  session_id = none;
  binding_id = some "binding-1";
  marker_signature = some digest_text;
}

abbrev prompted_chain : WorkspaceChain
prompted_chain = record {
  workspace = "main";
  marker_signature = some digest_text;
  accepted = record { name = "workspace.prompt.submitted"; signature = some digest_text } ∷ [];
}

goes_on : accept_in prompt (fresh_chain "main") ≡ (true, prompted_chain)
unfolding accept_in any string_eq
goes_on = refl

accept_in-accept_in_example : accept_in prompt prompted_chain ≡ (false, prompted_chain)
unfolding string_eq
accept_in-accept_in_example =
    accept_in-accept_in prompt (fresh_chain "main") prompted_chain refl goes_on
