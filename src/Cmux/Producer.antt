-- ===== src/Cmux/Producer.antt =====
-- `DerivedEventReceiptProducer` of plugins/cmux/yatagarasu_cmux/receipt_producer.py: stored events are
-- translated to evidence, repeated callbacks are dropped, and the emitter is fed.
pub mod Chains
use yatagarasu.Prelude.{
  String, Bool, true, false, not, ◌&&◌, ◌||◌, Option, none, some, List, [], ◌∷◌, ◌++◌, ◌==◌,
  string_eq, option_eq, find, filter, any, contains, is_empty, if◌then◌else◌,
}
use yatagarasu.Prelude.Int.{ℤ}
use yatagarasu.Types.{SourceEventRef}
use yatagarasu.Proofs.Chain.{input_sent, prompt_submitted, user_prompt_submit, stop_hook}
use yatagarasu.Cmux.Calls.{
  Action, Answer, Error, returned, raised, producer_error, pure, lift, continue, ◌>>=◌, ◌>>◌,
}
use yatagarasu.Cmux.Json.{
  Value, Fields, null, text, object, no_fields, get, as_text, is_text, equals_integer, Wire,
}
use yatagarasu.Cmux.Patterns.{strip_prefix}
use yatagarasu.Cmux.Marker.{WireMarker, full, short, extract}
use yatagarasu.Cmux.Outbox.{DerivedEvent}
use yatagarasu.Cmux.Emitter.{Collaborators, Emitter}
use yatagarasu.Cmux.Emitter

pub record TranslatedObservation : Type 0 where
  pub source_event : SourceEventRef
  pub payload : Fields
  pub observed_at : String
  pub workspace_id : Option String

abbrev identity_agrees : Wire → DerivedEvent → Fields → Bool
identity_agrees wire event projected =
    is_text event.boot_id (get "boot_id" projected)
    && is_text event.source_event_id (get "event_id" projected)
    && is_text event.event_name (get "name" projected)
    && equals_integer wire.integral event.seq (get "seq" projected)

abbrev payload_of : Value → Fields
payload_of (object payload) = payload
payload_of _ = no_fields

-- a text that is not empty
abbrev nonempty_text : Value → Option String
nonempty_text (text s) = if is_empty s then none else some s
nonempty_text _ = none

abbrev preview_marker : Wire → DerivedEvent → Value → Option WireMarker
preview_marker wire event (text preview) =
    if event.event_name == prompt_submitted then extract wire preview else none
preview_marker wire event _ = none

abbrev marker_binding : Option WireMarker → Option String
marker_binding none = none
marker_binding (some (full m)) = some m.binding_id
marker_binding (some (short m)) = some m.binding_id

abbrev marker_signature_of : Option WireMarker → Option String
marker_signature_of none = none
marker_signature_of (some (full m)) = some m.signature
marker_signature_of (some (short m)) = some m.signature

abbrev observed : Wire → DerivedEvent → Fields → Option String → Answer TranslatedObservation
observed wire event projected none =
    raised (producer_error "derived event has no observation timestamp")
observed wire event projected (some observed_at) =
    let payload = payload_of (get "payload" projected) in
    let marker = preview_marker wire event (get "message_preview" payload) in
    returned (record {
      source_event = record {
        source_instance_id = event.source_instance_id;
        boot_id = event.boot_id;
        seq = event.seq;
        source_event_id = event.source_event_id;
        event_name = event.event_name;
        session_id = as_text (get "session_id" payload);
        binding_id = marker_binding marker;
        marker_signature = marker_signature_of marker;
      };
      payload = payload;
      observed_at = observed_at;
      workspace_id = nonempty_text (get "workspace_id" projected);
    })

abbrev translate_value : Wire → DerivedEvent → Option Value → Answer TranslatedObservation
translate_value wire event none = raised (producer_error "derived event JSON is malformed")
translate_value wire event (some (object projected)) =
    if not (identity_agrees wire event projected)
    then raised (producer_error "derived event identity contradicts its row")
    else observed wire event projected (nonempty_text (get "occurred_at" projected))
translate_value wire event (some _) = raised (producer_error "derived event JSON is not an object")

unfoldable pub translate_derived_event : Wire → DerivedEvent → Answer TranslatedObservation
translate_derived_event wire event = translate_value wire event (wire.loads event.event_json)

-- A key of the set `accepted` is a name with a signature or none.
pub record AcceptedKey : Type 0 where
  pub name : String
  pub signature : Option String

pub record WorkspaceChain : Type 0 where
  pub workspace : String
  pub marker_signature : Option String
  pub accepted : List AcceptedKey

abbrev pub fresh_chain : String → WorkspaceChain
fresh_chain workspace = record { workspace = workspace; marker_signature = none; accepted = [] }

abbrev pub chain_of : String → WorkspaceChain → Bool
chain_of workspace c = c.workspace == workspace

abbrev pub set_chain : WorkspaceChain → List WorkspaceChain → List WorkspaceChain
set_chain c chains = filter (λ d. not (chain_of c.workspace d)) chains ++ c ∷ []

-- setdefault: the chain that the workspace has, or a fresh one
abbrev pub chain_or_fresh : String → Option WorkspaceChain → WorkspaceChain
chain_or_fresh workspace none = fresh_chain workspace
chain_or_fresh workspace (some c) = c

abbrev pub has_key_accepted : AcceptedKey → WorkspaceChain → Bool
has_key_accepted key c = any (λ k. k.name == key.name && k.signature == key.signature) c.accepted

-- `chain.marker_signature not in (None, signature)`
abbrev pub other_signature : Option String → Option String → Bool
other_signature none signature = false
other_signature (some before) signature = not (some before == signature)

-- A prompt sets the chain's signature, and clears the chain of another one.
abbrev pub signed_chain : SourceEventRef → WorkspaceChain → WorkspaceChain
signed_chain event c =
    if event.event_name == prompt_submitted
    then record c {
      marker_signature = event.marker_signature;
      accepted =
          if other_signature c.marker_signature event.marker_signature then [] else c.accepted;
    }
    else c

abbrev pub is_deduplicated : String → Bool
is_deduplicated name = name == prompt_submitted || name == user_prompt_submit || name == stop_hook

abbrev pub key_of : SourceEventRef → WorkspaceChain → AcceptedKey
key_of event c = record { name = event.event_name; signature = c.marker_signature }

-- the chain after the event, and whether the event goes on to the emitter
unfoldable pub accept_in : SourceEventRef → WorkspaceChain → Bool × WorkspaceChain
accept_in event before =
    let c = signed_chain event before in
    if not (is_deduplicated event.event_name)
    then (true, c)
    else if has_key_accepted (key_of event c) c
    then (false, c)
    else (true, record c { accepted = c.accepted ++ key_of event c ∷ [] })

abbrev starts_hook : Option String → Bool
starts_hook none = false
starts_hook (some rest) = true

-- `isinstance(phase, str) and phase != "completed"`
abbrev is_other_phase : Value → Bool
is_other_phase (text phase) = not (phase == "completed")
is_other_phase _ = false

unfoldable pub accept_for_emission :
    TranslatedObservation → List WorkspaceChain → Bool × List WorkspaceChain
accept_for_emission event chains =
    let workspace = Emitter.workspace_key event.workspace_id in
    if starts_hook (strip_prefix "agent.hook." event.source_event.event_name)
      && is_other_phase (get "phase" event.payload)
    then (false, chains)
    else if event.source_event.event_name == input_sent
    then (true, set_chain (fresh_chain workspace) chains)
    else (let (goes, c) =
          accept_in event.source_event
            (chain_or_fresh workspace (find (chain_of workspace) chains)) in
        (goes, set_chain c chains))

pub record Producer : Type 0 where
  pub emitter : Emitter
  pub workspace_chains : List WorkspaceChain

module _ (given : Collaborators) where
  abbrev pub with_emitter : Producer → Answer (Unit {0}) × Emitter → Answer (Unit {0}) × Producer
  with_emitter s (answer, emitter) = (answer, record s { emitter = emitter })

  unfoldable pub observe_translated : TranslatedObservation → Action Producer (Unit {0})
  observe_translated event s =
      let (goes, chains) = accept_for_emission event s.workspace_chains in
      let kept : Producer = record s { workspace_chains = chains } in
      if goes
      then with_emitter kept (
          Emitter.observe given event.source_event event.payload event.observed_at
            event.workspace_id s.emitter)
      else (returned tt, kept)

  unfoldable pub observe : DerivedEvent → Action Producer (Unit {0})
  observe event = do
    translated ← lift (translate_derived_event given.wire event)
    observe_translated translated

  -- `for event in events: self.observe(event)`
  unfoldable pub observe_all : List DerivedEvent → Action Producer (Unit {0})
  observe_all [] = pure tt
  observe_all (event ∷ events) = let rest = observe_all events in (do observe event; rest)

  -- A new emitter and no chains; what the core has taken, it has taken.
  abbrev pub restarted : Producer → Producer
  restarted s = record {
    emitter = record { pending_chains = []; active_chains = []; sent = s.emitter.sent };
    workspace_chains = [];
  }

  unfoldable pub recover : List DerivedEvent → Action Producer (Unit {0})
  recover events s = observe_all events (restarted s)
