-- ===== src/Cmux/Injector/Effects.antt =====
-- The order of the effects of an injection.
use yatagarasu.Prelude.{ℕ, String, true, false, none, List, [], ◌∷◌, ◌++◌, ◌≡◌}
use yatagarasu.Cmux.Outcome.{SubmitResult, must_hold}
use yatagarasu.Cmux.Injector.{
  Effect, effect_pending, send_text, Outside, Trace, key_effects, Delivered, returned, hook_raised,
  inject,
}

-- The effects are a beginning of the plan, all of it if nothing raised.
record Performed (plan done : List Effect) (trace : Trace) : Type 0 where
  made : List Effect
  skipped : List Effect
  split : made ++ skipped ≡ plan
  after : trace.1 ≡ done ++ made
  complete : trace.0 ≡ none → skipped ≡ []

module _ (outside : Outside) (delivery_id surface text : String) (delay : ℕ)
    (keys names : List String) where
  abbrev pub run : Delivered × List Effect
  run = inject outside true delivery_id surface text delay keys names

  abbrev pub plan_of : List Effect
  plan_of = send_text surface text ∷ key_effects surface delay keys

  -- The intent is recorded first, what follows is a beginning of the plan, nothing follows a hook
  -- that raised, and a verdict other than "hold" follows the whole plan.
  pub record Injected : Type 0 where
    pub made : List Effect
    pub skipped : List Effect
    pub intent_first : run.1 ≡ effect_pending delivery_id surface ∷ made
    pub in_order : made ++ skipped ≡ plan_of
    pub stopped : (error : String) → run.0 ≡ hook_raised error → made ≡ []
    pub finished :
        (result : SubmitResult) → run.0 ≡ returned result → must_hold result ≡ false → skipped ≡ []
