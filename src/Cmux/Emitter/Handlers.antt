-- ===== src/Cmux/Emitter/Handlers.antt =====
-- Every handler of plugins/cmux/yatagarasu_cmux/receipt_emitter.py keeps the chains and the receipts
-- linked.
use yatagarasu.Cmux.Emitter.Honesty.{
  In-snoc, IsPrompted, IsActive, IsNamed, IsLinked, emit-IsLinked, sent-IsLinked,
  set_pending-IsLinked, set_active-IsLinked,
}
use yatagarasu.Prelude.{
  String, Bool, not, Option, none, some, List, [], ◌∷◌, ◌++◌, ◌==◌, string_eq, find, filter,
  is_empty, ◌≡◌, refl, sym, ◌∙◌, inl, inr, arith, Bool-cases,
}
use yatagarasu.Prelude.Rows.{All-filter, find-All, find_meets}
use yatagarasu.Types.{
  Delivery, DeliveryMarker, Receipt, SourceEventRef, completed, harness_prompt_accepted,
  harness_turn_completed,
}
use yatagarasu.Proofs.Chain.{input_sent, prompt_submitted, user_prompt_submit, stop_hook}
use yatagarasu.Receipts.Session.{last_source_id}
use yatagarasu.Cmux.Calls.{Action, Answer, returned, raised}
use yatagarasu.Cmux.Json.{Fields}
use yatagarasu.Cmux.Marker.{WireMarker}
use yatagarasu.Cmux.Emitter.{
  PendingChain, ActiveChain, Emitter, Collaborators, in_workspace, of_session, preview_of, emit,
  proof_of, harness_receipt, on_input, prompted, on_prompt, note_prompt, accept_prompt,
  with_binding, with_delivery, marker_delivery_id, with_chain, with_pending, with_session,
  drop_pending, on_user_prompt_submit, complete, drop_active, on_stop, observe_in,
}

module _ (given : Collaborators) where
  dropped_active :
      (p : ActiveChain → Bool) (s : Emitter)
      → IsLinked given s
      → IsLinked given (record s { active_chains = filter p s.active_chains })
  dropped_active p s k = record {
    pending = k.pending;
    active = All-filter (IsActive given s.sent) p s.active_chains k.active;
    honest = k.honest;
  }

  dropped_pending :
      (p : PendingChain → Bool) (s : Emitter)
      → IsLinked given s
      → IsLinked given (record s { pending_chains = filter p s.pending_chains })
  dropped_pending p s k = record {
    pending = All-filter (IsNamed given) p s.pending_chains k.pending;
    active = k.active;
    honest = k.honest;
  }

  module _ (event : SourceEventRef) (observed_at workspace : String) where
    on_input-IsLinked :
        (s : Emitter)
        → event.event_name ≡ input_sent
        → IsLinked given s
        → IsLinked given (on_input given event observed_at workspace s).1
    unfolding on_input
    on_input-IsLinked s named k =
        set_pending-IsLinked given _ s k ((λ e is. ground arith), (λ e is. cc))

    prompted-IsNamed :
        (found : Option PendingChain) (marker : Option WireMarker)
        → event.event_name ≡ prompt_submitted
        → ((c : PendingChain) → found ≡ some c → IsNamed given c)
        → IsNamed given (prompted given event observed_at workspace found marker)
    prompted-IsNamed none marker named k = ((λ e is. cc), (λ e is. ground arith))
    prompted-IsNamed (some c) marker named k = ((k c refl).0, (λ e is. ground arith))

    note_prompt-IsLinked :
        (found : Option PendingChain) (read : Answer (Option WireMarker)) (s : Emitter)
        → event.event_name ≡ prompt_submitted
        → ((c : PendingChain) → found ≡ some c → IsNamed given c)
        → IsLinked given s
        → IsLinked given (note_prompt given event observed_at workspace found read s).1
    note_prompt-IsLinked found (returned marker) s named before k =
        set_pending-IsLinked given (prompted given event observed_at workspace found marker) s k
          (prompted-IsNamed found marker named before)
    note_prompt-IsLinked found (raised e) s named before k =
        set_pending-IsLinked given (prompted given event observed_at workspace found none) s k
          (prompted-IsNamed found none named before)

    pending-IsNamed :
        (s : Emitter)
        → IsLinked given s
        → (c : PendingChain) → find (in_workspace workspace) s.pending_chains ≡ some c
        → IsNamed given c
    pending-IsNamed s k c is =
        find-All (IsNamed given) (in_workspace workspace) s.pending_chains c k.pending is

    on_prompt-IsLinked :
        (payload : Fields) (s : Emitter)
        → event.event_name ≡ prompt_submitted
        → IsLinked given s
        → IsLinked given (on_prompt given event observed_at workspace payload s).1
    unfolding on_prompt
    on_prompt-IsLinked payload s named k =
        note_prompt-IsLinked (find (in_workspace workspace) s.pending_chains)
          (preview_of given.wire payload) s named (pending-IsNamed s k) k

    with_binding-IsLinked :
        (binding : Option String) (next : String → Action Emitter (Unit {0})) (s : Emitter)
        → IsLinked given s
        → ((binding_id : String) → IsLinked given (next binding_id s).1)
        → IsLinked given (with_binding given event observed_at workspace binding next s).1
    with_binding-IsLinked none next s k h = k
    with_binding-IsLinked (some binding_id) next s k h = elim (Bool-cases (is_empty binding_id)) [
      | inl blank ↦ rw blank k
      | inr filled ↦ rw filled (h binding_id)
    ]

    with_session-IsLinked :
        (session : Option String) (next : String → Action Emitter (Unit {0})) (s : Emitter)
        → IsLinked given s
        → ((session_id : String) → IsLinked given (next session_id s).1)
        → IsLinked given (with_session given event observed_at workspace session next s).1
    with_session-IsLinked none next s k h = k
    with_session-IsLinked (some session_id) next s k h = elim (Bool-cases (is_empty session_id)) [
      | inl blank ↦ rw blank k
      | inr filled ↦ rw filled (h session_id)
    ]

    module _ (session : String) (input prompt : SourceEventRef) (delivery : Delivery)
        (marker : DeliveryMarker) (binding_id : String) where
      abbrev chain : List SourceEventRef
      chain = input ∷ prompt ∷ event ∷ []

      abbrev opened : Receipt
      opened =
          harness_receipt given harness_prompt_accepted none delivery binding_id event observed_at
            (proof_of given session marker chain)

      abbrev opening_of :
          input.event_name ≡ input_sent
          → prompt.event_name ≡ prompt_submitted
          → event.event_name ≡ user_prompt_submit
          → IsPrompted given opened
      unfolding last_source_id
      opening_of a b c = record {
        session = session;
        marker = marker;
        events = chain;
        evidence = refl;
        proven = refl;
        names = rw (a, b, c);
        sourced = refl;
      }

      accept_prompt-IsLinked :
          (s : Emitter)
          → input.event_name ≡ input_sent
          → prompt.event_name ≡ prompt_submitted
          → event.event_name ≡ user_prompt_submit
          → IsLinked given s
          → IsLinked given
              (accept_prompt given event observed_at workspace session input prompt delivery marker
                binding_id s).1
      unfolding accept_prompt emit opening_of
      accept_prompt-IsLinked s a b c k = elim (Bool-cases (given.core_raises s.sent opened)) [
        | inl raises ↦ rw raises k
        | inr takes ↦ rw takes (
            set_active-IsLinked given
              (record {
                workspace = workspace;
                session = session;
                delivery = delivery;
                marker = marker;
                events = chain;
              })
              (record s { sent = s.sent ++ opened ∷ [] })
              (sent-IsLinked given opened s k (inl (opening_of a b c)))
              (record {
                accepted = opened;
                earlier = In-snoc opened s.sent;
                opening = opening_of a b c;
                session = refl;
                marker = refl;
                events = refl;
                delivery = refl;
              }))
      ]

    with_delivery-IsLinked :
        (session : String) (input prompt : SourceEventRef)
        (found : Option (Delivery × DeliveryMarker)) (s : Emitter)
        → input.event_name ≡ input_sent
        → prompt.event_name ≡ prompt_submitted
        → event.event_name ≡ user_prompt_submit
        → IsLinked given s
        → IsLinked given
            (with_delivery given event observed_at workspace session input prompt found s).1
    with_delivery-IsLinked session input prompt none s a b c k = k
    with_delivery-IsLinked session input prompt (some (delivery, marker)) s a b c k =
        with_binding-IsLinked delivery.binding_id
          (accept_prompt given event observed_at workspace session input prompt delivery marker) s k
          (λ binding_id.
            accept_prompt-IsLinked session input prompt delivery marker binding_id s a b c k)

    with_chain-IsLinked :
        (session : String) (input prompt : Option SourceEventRef) (decoded : Option WireMarker)
        (s : Emitter)
        → event.event_name ≡ user_prompt_submit
        → ((e : SourceEventRef) → input ≡ some e → e.event_name ≡ input_sent)
        → ((e : SourceEventRef) → prompt ≡ some e → e.event_name ≡ prompt_submitted)
        → IsLinked given s
        → IsLinked given
            (with_chain given event observed_at workspace session input prompt decoded s).1
    with_chain-IsLinked session (some input) (some prompt) (some decoded) s c a b k =
        with_delivery-IsLinked session input prompt
          (given.delivery_lookup (marker_delivery_id decoded)) s (a input refl) (b prompt refl) c k
    with_chain-IsLinked session _ _ _ s c a b k = k

    with_pending-IsLinked :
        (session : String) (found : Option PendingChain) (s : Emitter)
        → event.event_name ≡ user_prompt_submit
        → ((c : PendingChain) → found ≡ some c → IsNamed given c)
        → IsLinked given s
        → IsLinked given (with_pending given event observed_at workspace session found s).1
    with_pending-IsLinked session none s named names k = k
    with_pending-IsLinked session (some c) s named names k =
        with_chain-IsLinked session c.input_event c.prompt_event c.decoded_marker s named
          (names c refl).0 (names c refl).1 k

    on_user_prompt_submit-IsLinked :
        (s : Emitter)
        → event.event_name ≡ user_prompt_submit
        → IsLinked given s
        → IsLinked given (on_user_prompt_submit given event observed_at workspace s).1
    unfolding on_user_prompt_submit
    on_user_prompt_submit-IsLinked s named k =
        let dropped = dropped_pending (λ c. not (in_workspace workspace c)) s k in
        let found = find (in_workspace workspace) s.pending_chains in
        with_session-IsLinked event.session_id
          (λ session. with_pending given event observed_at workspace session found)
          (drop_pending given event observed_at workspace s) dropped
          (λ session.
            with_pending-IsLinked session found (drop_pending given event observed_at workspace s)
              named (pending-IsNamed s k) dropped)

    complete-IsLinked :
        (session : String) (found : Option ActiveChain) (s : Emitter)
        → event.event_name ≡ stop_hook
        → ((c : ActiveChain) → found ≡ some c → IsActive given s.sent c × (c.session ≡ session))
        → IsLinked given s
        → IsLinked given (complete given event observed_at workspace session found s).1
    complete-IsLinked session none s named linked k = k
    complete-IsLinked session (some c) s named linked k =
        let (a, same) = linked c refl in
        with_binding-IsLinked c.delivery.binding_id _ s k (λ binding_id.
          emit-IsLinked given
            (harness_receipt given harness_turn_completed (some completed) c.delivery binding_id
              event observed_at (proof_of given session c.marker (c.events ++ event ∷ [])))
            s k
            (inr (record {
              accepted = a.accepted;
              earlier = a.earlier;
              opening = a.opening;
              last = event;
              evidence = refl;
              disposed = refl;
              proven = rw (a.session ∙ same, a.marker, a.events) refl;
              named = named;
              same_delivery = sym a.delivery;
              sourced = refl;
            })))

    on_stop-IsLinked :
        (s : Emitter)
        → event.event_name ≡ stop_hook
        → IsLinked given s
        → IsLinked given (on_stop given event observed_at workspace s).1
    unfolding on_stop
    on_stop-IsLinked s named k =
        with_session-IsLinked event.session_id
          (λ session u.
            complete given event observed_at workspace session
              (find (of_session workspace session) s.active_chains)
              (drop_active given event observed_at workspace session u))
          s k
          (λ session.
            complete-IsLinked session (find (of_session workspace session) s.active_chains)
              (drop_active given event observed_at workspace session s) named
              (λ c is. (
                find-All (IsActive given s.sent) (of_session workspace session) s.active_chains c
                    k.active is,
                ground (arith, find_meets (of_session workspace session) s.active_chains c is),
              ))
              (dropped_active (λ c. not (of_session workspace session c)) s k))

    pub observe_in-IsLinked :
        (payload : Fields) (s : Emitter)
        → IsLinked given s
        → IsLinked given (observe_in given event observed_at workspace payload s).1
    unfolding observe_in
    observe_in-IsLinked payload s k = elim (Bool-cases (event.event_name == input_sent)) [
      | inl e₁ ↦ rw e₁ (on_input-IsLinked s (ground arith) k)
      | inr n₁ ↦ elim (Bool-cases (event.event_name == prompt_submitted)) [
        | inl e₂ ↦ rw (n₁, e₂) (on_prompt-IsLinked payload s (ground arith) k)
        | inr n₂ ↦ elim (Bool-cases (event.event_name == user_prompt_submit)) [
          | inl e₃ ↦ rw (n₁, n₂, e₃) (on_user_prompt_submit-IsLinked s (ground arith) k)
          | inr n₃ ↦ elim (Bool-cases (event.event_name == stop_hook)) [
            | inl e₄ ↦ rw (n₁, n₂, n₃, e₄) (on_stop-IsLinked s (ground arith) k)
            | inr n₄ ↦ rw (n₁, n₂, n₃, n₄) k
          ]
        ]
      ]
    ]
