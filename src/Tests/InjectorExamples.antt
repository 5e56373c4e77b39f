-- ===== src/Tests/InjectorExamples.antt =====
-- The theorems on the injector at a message that is sent with one key.
use yatagarasu.Prelude.{not, ◌&&◌, none, [], ◌∷◌, ◌≡◌}
use yatagarasu.Cmux.Outcome.{is_proven, may_requeue, must_hold}
use yatagarasu.Cmux.Injector.{
  Outside, all_required, await_proof, event_input_sent, event_prompt_submitted,
}
use yatagarasu.Cmux.Injector.Evidence.{is_nil, await_proof-verdict}

abbrev nothing_raises : Outside
nothing_raises done effect = none

await_proof-verdict_example :
    (is_proven (await_proof "delivery-1" (event_input_sent ∷ event_prompt_submitted ∷ []))
      ≡ all_required (event_input_sent ∷ event_prompt_submitted ∷ []))
    × (may_requeue (await_proof "delivery-1" (event_input_sent ∷ event_prompt_submitted ∷ []))
        ≡ is_nil (event_input_sent ∷ event_prompt_submitted ∷ []))
    × (must_hold (await_proof "delivery-1" (event_input_sent ∷ event_prompt_submitted ∷ [])) ≡ (
        not (all_required (event_input_sent ∷ event_prompt_submitted ∷ []))
        && not (is_nil (event_input_sent ∷ event_prompt_submitted ∷ []))))
await_proof-verdict_example =
    await_proof-verdict "delivery-1" (event_input_sent ∷ event_prompt_submitted ∷ [])
