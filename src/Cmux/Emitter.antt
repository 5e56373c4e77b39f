-- ===== src/Cmux/Emitter.antt =====
-- `ReceiptEmitter` of plugins/cmux/yatagarasu_cmux/receipt_emitter.py: the chains that are pending for
-- each workspace, those that are active for each session, and the receipts that the core has taken.
-- A dict is the list of its entries.
pub mod Handlers
pub mod Honesty
use yatagarasu.Prelude.{
  ℕ, String, ◌<>◌, Bool, true, false, not, ◌&&◌, Option, none, some, List, [], ◌∷◌, ◌++◌, ◌==◌,
  string_eq, find, filter, is_blank, is_empty, if◌then◌else◌,
}
use yatagarasu.Prelude.Int.{ℤ, pos, int_eq}
use yatagarasu.Types.{
  Delivery, DeliveryMarker, Receipt, SessionProof, SourceEventRef, EvidenceClass, Disposition,
  completed, harness_prompt_accepted, harness_turn_completed,
}
use yatagarasu.Proofs.Chain.{input_sent, prompt_submitted, user_prompt_submit, stop_hook}
use yatagarasu.Cmux.Calls.{
  Action, Answer, returned, raised, sink_error, type_error, pure, lift, ◌>>=◌, ◌>>◌,
}
use yatagarasu.Cmux.Json.{
  Value, Values, Fields, null, boolean, integer, float, text, list, object, end, no_fields, get,
  has_key, Wire,
}
use yatagarasu.Cmux.Marker.{WireMarker, full, short, extract}

pub record PendingChain : Type 0 where
  pub workspace : String
  pub input_event : Option SourceEventRef
  pub prompt_event : Option SourceEventRef
  pub decoded_marker : Option WireMarker

pub record ActiveChain : Type 0 where
  pub workspace : String
  pub session : String
  pub delivery : Delivery
  pub marker : DeliveryMarker
  pub events : List SourceEventRef

pub record Emitter : Type 0 where
  pub pending_chains : List PendingChain
  pub active_chains : List ActiveChain
  pub sent : List Receipt

abbrev pub new_emitter : Emitter
new_emitter = record { pending_chains = []; active_chains = []; sent = [] }

-- What the emitter is given. `core_raises sent receipt` tells whether the core raises at a receipt
-- after those that it has taken.
pub record Collaborators : Type 0 where
  pub wire : Wire
  pub core_raises : List Receipt → Receipt → Bool
  pub provider_id : String
  pub delivery_lookup : String → Option (Delivery × DeliveryMarker)

abbrev pub in_workspace : String → PendingChain → Bool
in_workspace workspace c = c.workspace == workspace

abbrev pub of_session : String → String → ActiveChain → Bool
of_session workspace session c = c.workspace == workspace && c.session == session

abbrev pub set_pending : PendingChain → List PendingChain → List PendingChain
set_pending c chains = filter (λ d. not (in_workspace c.workspace d)) chains ++ c ∷ []

abbrev pub set_active : ActiveChain → List ActiveChain → List ActiveChain
set_active c chains = filter (λ d. not (of_session c.workspace c.session d)) chains ++ c ∷ []

abbrev pub marker_delivery_id : WireMarker → String
marker_delivery_id (full m) = m.delivery_id
marker_delivery_id (short m) = m.delivery_id

-- `not value`
abbrev is_falsy : Value → Bool
is_falsy null = true
is_falsy (boolean b) = not b
is_falsy (integer n) = n == pos 0
is_falsy (float digits) = if digits == "0.0" then true else digits == "-0.0"
is_falsy (text s) = is_empty s
is_falsy (list end) = true
is_falsy (object no_fields) = true
is_falsy _ = false

-- `extract` of any value: a regular expression searches texts only
abbrev pub extract_value : Wire → Value → Answer (Option WireMarker)
extract_value wire (text s) = returned (extract wire s)
extract_value wire value = if is_falsy value then returned none else raised type_error

unfoldable pub preview_of : Wire → Fields → Answer (Option WireMarker)
preview_of wire payload =
    if has_key "message_preview" payload
    then extract_value wire (get "message_preview" payload)
    else returned none

-- `workspace_id or _UNSCOPED_WORKSPACE`
abbrev pub workspace_key : Option String → String
workspace_key none = "<unscoped>"
workspace_key (some workspace) = if is_empty workspace then "<unscoped>" else workspace

module _ (given : Collaborators) where
  -- `self._core(receipt)`
  unfoldable pub emit : Receipt → Action Emitter (Unit {0})
  emit receipt s =
      if given.core_raises s.sent receipt
      then (raised sink_error, s)
      else (returned tt, record s { sent = s.sent ++ receipt ∷ [] })

  abbrev pub proof_of : String → DeliveryMarker → List SourceEventRef → SessionProof
  proof_of session_id marker events = record {
    session_id = session_id;
    marker = marker;
    source_events = events;
    turn_id = none;
  }

  abbrev pub harness_receipt :
      EvidenceClass
      → Option Disposition
      → Delivery
      → String
      → SourceEventRef
      → String
      → SessionProof
      → Receipt
  harness_receipt evidence disposition delivery binding_id event observed_at proof = record {
    receipt_id = "rec-" <> event.source_event_id;
    event_id = delivery.event_id;
    delivery_id = delivery.delivery_id;
    attempt_id = delivery.attempt_id;
    binding_id = binding_id;
    evidence_provider_id = given.provider_id;
    evidence_class = evidence;
    proof_method = "cmux.event_bus.harness_hook_relay";
    observed_at = observed_at;
    source_event_id = some event.source_event_id;
    platform_principal_id = none;
    platform_message_id = none;
    disposition = disposition;
    authored_by_provider = false;
    infrastructure_event = false;
    proof = some proof;
  }

  module _ (event : SourceEventRef) (observed_at workspace : String) where
    unfoldable pub on_input : Action Emitter (Unit {0})
    on_input s = (
      returned tt,
      record s {
        pending_chains =
            set_pending
              (record {
                workspace = workspace;
                input_event = some event;
                prompt_event = none;
                decoded_marker = none;
              })
              s.pending_chains;
      },
    )

    abbrev input_of : Option PendingChain → Option SourceEventRef
    input_of none = none
    input_of (some c) = c.input_event

    abbrev pub prompted : Option PendingChain → Option WireMarker → PendingChain
    prompted found marker = record {
      workspace = workspace;
      input_event = input_of found;
      prompt_event = some event;
      decoded_marker = marker;
    }

    -- The marker is cleared before `extract` runs, which may raise.
    abbrev pub note_prompt :
        Option PendingChain → Answer (Option WireMarker) → Action Emitter (Unit {0})
    note_prompt found (returned marker) s = (
      returned tt,
      record s { pending_chains = set_pending (prompted found marker) s.pending_chains },
    )
    note_prompt found (raised e) s =
        (raised e, record s { pending_chains = set_pending (prompted found none) s.pending_chains })

    unfoldable pub on_prompt : Fields → Action Emitter (Unit {0})
    on_prompt payload s =
        note_prompt (find (in_workspace workspace) s.pending_chains) (preview_of given.wire payload)
          s

    -- the receipt of the accepted prompt, and then the active chain
    unfoldable pub accept_prompt :
        String
        → SourceEventRef
        → SourceEventRef
        → Delivery
        → DeliveryMarker
        → String
        → Action Emitter (Unit {0})
    accept_prompt session input prompt delivery marker binding_id =
        let chain = input ∷ prompt ∷ event ∷ [] in
        (do
          emit (
              harness_receipt harness_prompt_accepted none delivery binding_id event observed_at
                (proof_of session marker chain))
          λ s. (
            returned tt,
            record s {
              active_chains =
                  set_active
                    (record {
                      workspace = workspace;
                      session = session;
                      delivery = delivery;
                      marker = marker;
                      events = chain;
                    })
                    s.active_chains;
            },
          ))

    abbrev pub with_binding :
        Option String → (String → Action Emitter (Unit {0})) → Action Emitter (Unit {0})
    with_binding none next = pure tt
    with_binding (some binding_id) next = if is_empty binding_id then pure tt else next binding_id

    abbrev pub with_delivery :
        String
        → SourceEventRef
        → SourceEventRef
        → Option (Delivery × DeliveryMarker)
        → Action Emitter (Unit {0})
    with_delivery session input prompt none = pure tt
    with_delivery session input prompt (some (delivery, marker)) =
        with_binding delivery.binding_id (accept_prompt session input prompt delivery marker)

    abbrev pub with_chain :
        String
        → Option SourceEventRef
        → Option SourceEventRef
        → Option WireMarker
        → Action Emitter (Unit {0})
    with_chain session (some input) (some prompt) (some decoded) =
        with_delivery session input prompt (given.delivery_lookup (marker_delivery_id decoded))
    with_chain session _ _ _ = pure tt

    abbrev pub with_pending : String → Option PendingChain → Action Emitter (Unit {0})
    with_pending session none = pure tt
    with_pending session (some c) = with_chain session c.input_event c.prompt_event c.decoded_marker

    abbrev pub with_session :
        Option String → (String → Action Emitter (Unit {0})) → Action Emitter (Unit {0})
    with_session none next = pure tt
    with_session (some session) next = if is_empty session then pure tt else next session

    abbrev pub drop_pending : Emitter → Emitter
    drop_pending s = record s {
      pending_chains = filter (λ c. not (in_workspace workspace c)) s.pending_chains;
    }

    unfoldable pub on_user_prompt_submit : Action Emitter (Unit {0})
    on_user_prompt_submit s =
        with_session event.session_id
          (λ session. with_pending session (find (in_workspace workspace) s.pending_chains))
          (drop_pending s)

    abbrev pub complete : String → Option ActiveChain → Action Emitter (Unit {0})
    complete session none = pure tt
    complete session (some c) = with_binding c.delivery.binding_id (λ binding_id. emit (
        harness_receipt harness_turn_completed (some completed) c.delivery binding_id event
          observed_at (proof_of session c.marker (c.events ++ event ∷ []))))

    abbrev pub drop_active : String → Emitter → Emitter
    drop_active session s = record s {
      active_chains = filter (λ c. not (of_session workspace session c)) s.active_chains;
    }

    unfoldable pub on_stop : Action Emitter (Unit {0})
    on_stop s =
        with_session event.session_id
          (λ session u.
            complete session (find (of_session workspace session) s.active_chains)
              (drop_active session u))
          s

    unfoldable pub observe_in : Fields → Action Emitter (Unit {0})
    observe_in payload s =
        if event.event_name == input_sent
        then on_input s
        else if event.event_name == prompt_submitted
        then on_prompt payload s
        else if event.event_name == user_prompt_submit
        then on_user_prompt_submit s
        else if event.event_name == stop_hook
        then on_stop s
        else (returned tt, s)

  abbrev pub observe : SourceEventRef → Fields → String → Option String → Action Emitter (Unit {0})
  observe event payload observed_at workspace_id =
      observe_in event observed_at (workspace_key workspace_id) payload
