-- ===== src/Cmux/Producer/Chains.antt =====
-- Whatever is observed and recovered, the receipts that the core has taken are honest, and a callback
-- that is repeated goes on once: plugins/cmux/yatagarasu_cmux/receipt_producer.py.
use yatagarasu.Prelude.{
  String, true, false, ◌&&◌, Option, none, some, List, [], ◌∷◌, ◌++◌, ◌==◌, string_eq, option_eq,
  any, All, ◌≡◌, refl, ap, sym, ◌∙◌, inl, inr, arith, subst, Bool-cases,
}
use yatagarasu.Prelude.Rows.{any-append}
use yatagarasu.Types.{SourceEventRef}
use yatagarasu.Proofs.Chain.{prompt_submitted}
use yatagarasu.Cmux.Calls.Laws.{Answer-cases}
use yatagarasu.Cmux.Outbox.{DerivedEvent}
use yatagarasu.Cmux.Emitter.{Collaborators, new_emitter, workspace_key}
use yatagarasu.Cmux.Emitter.Honesty.{IsHonest, IsLinked}
use yatagarasu.Cmux.Emitter.Handlers.{observe_in-IsLinked}
use yatagarasu.Cmux.Producer.{
  TranslatedObservation, Producer, WorkspaceChain, AcceptedKey, accept_for_emission, accept_in,
  signed_chain, is_deduplicated, has_key_accepted, key_of, other_signature, observe_translated,
  observe, observe_all, recover, restarted, translate_derived_event,
}

module _ (given : Collaborators) where
  observe_translated-IsLinked :
      (event : TranslatedObservation) (s : Producer)
      → IsLinked given s.emitter
      → IsLinked given (observe_translated given event s).1.emitter
  unfolding observe_translated
  observe_translated-IsLinked event s k =
      elim (Bool-cases (accept_for_emission event s.workspace_chains).0) [
        | inl goes ↦ rw goes (
            observe_in-IsLinked given event.source_event event.observed_at
              (workspace_key event.workspace_id) event.payload s.emitter k)
        | inr stays ↦ rw stays k
      ]

  observe-IsLinked :
      (event : DerivedEvent) (s : Producer)
      → IsLinked given s.emitter
      → IsLinked given (observe given event s).1.emitter
  unfolding observe
  observe-IsLinked event s k = elim (Answer-cases (translate_derived_event given.wire event)) [
    | inl (translated, e) ↦ rw e (observe_translated-IsLinked translated s k)
    | inr (_, e) ↦ rw e k
  ]

  observe_all-IsLinked :
      (events : List DerivedEvent) (s : Producer)
      → IsLinked given s.emitter
      → IsLinked given (observe_all given events s).1.emitter
  unfolding observe_all
  observe_all-IsLinked [] s k = k
  observe_all-IsLinked (event ∷ events) s k = elim (Answer-cases (observe given event s).0) [
    | inl (_, e) ↦
        rw e (observe_all-IsLinked events (observe given event s).1 (observe-IsLinked event s k))
    | inr (_, e) ↦ rw e (observe-IsLinked event s k)
  ]

  restarted-IsLinked :
      (s : Producer) → IsLinked given s.emitter → IsLinked given (restarted given s).emitter
  restarted-IsLinked s k = record { pending = tt; active = tt; honest = k.honest }

-- What the resident does with a producer.
pub data Call : Type 0 where
  observing : DerivedEvent → Call
  recovering : List DerivedEvent → Call

abbrev pub call : Collaborators → Call → Producer → Producer
call given (observing event) s = (observe given event s).1
call given (recovering events) s = (recover given events s).1

unfoldable pub calls : Collaborators → List Call → Producer → Producer
calls given [] s = s
calls given (c ∷ cs) s = calls given cs (call given c s)

abbrev pub new_producer : Producer
new_producer = record { emitter = new_emitter; workspace_chains = [] }

call-IsLinked :
    (given : Collaborators) (c : Call) (s : Producer)
    → IsLinked given s.emitter
    → IsLinked given (call given c s).emitter
unfolding recover
call-IsLinked given (observing event) s k = observe-IsLinked given event s k
call-IsLinked given (recovering events) s k =
    observe_all-IsLinked given events (restarted given s) (restarted-IsLinked given s k)

calls-IsLinked :
    (given : Collaborators) (cs : List Call) (s : Producer)
    → IsLinked given s.emitter
    → IsLinked given (calls given cs s).emitter
unfolding calls
calls-IsLinked given [] s k = k
calls-IsLinked given (c ∷ cs) s k =
    calls-IsLinked given cs (call given c s) (call-IsLinked given c s k)

-- Whatever a new producer observes and recovers, in whatever order, and whether the core raises or
-- not: every receipt that the core has taken is that of an accepted prompt, with the three source
-- events in order and the last one named; or that of a completed turn, whose chain is that of a
-- prompt of the same delivery and session that the core took as well, and the stop, which is named.
pub calls-IsHonest :
    (given : Collaborators) (cs : List Call)
    → All
        (IsHonest given (calls given cs new_producer).emitter.sent)
        (calls given cs new_producer).emitter.sent
calls-IsHonest given cs =
    (calls-IsLinked given cs new_producer
      (record { pending = tt; active = tt; honest = tt })).honest

other_signature_refl : (s : Option String) → other_signature s s ≡ false
other_signature_refl none = refl
other_signature_refl (some s) = ground arith

signed_again :
    (event : SourceEventRef) (c : WorkspaceChain) (keys : List AcceptedKey)
    → signed_chain event (record (signed_chain event c) { accepted = keys })
      ≡ record (signed_chain event c) { accepted = keys }
signed_again event c keys = elim (Bool-cases (event.event_name == prompt_submitted)) [
  | inl prompt ↦ rw (prompt, other_signature_refl event.marker_signature)
  | inr hook ↦ rw hook refl
]

has_key_accepted-append :
    (key : AcceptedKey) (c : WorkspaceChain)
    → has_key_accepted key (record c { accepted = c.accepted ++ key ∷ [] }) ≡ true
unfolding any
has_key_accepted-append key c =
    any-append (λ (k : AcceptedKey). k.name == key.name && k.signature == key.signature) c.accepted
      (key ∷ [])
    ∙ ground arith

accepted_chain :
    (event : SourceEventRef) (c after : WorkspaceChain)
    → is_deduplicated event.event_name ≡ true
    → accept_in event c ≡ (true, after)
    → after ≡ record (signed_chain event c) {
      accepted = (signed_chain event c).accepted ++ key_of event (signed_chain event c) ∷ [];
    }
unfolding accept_in
accepted_chain event c after named h =
    elim (Bool-cases
      (has_key_accepted (key_of event (signed_chain event c)) (signed_chain event c))) [
        | inl known ↦ let goes = ap (λ r. r.0) (rw (named, known) at h) in absurd (cc)
        | inr new ↦ sym (ap (λ r. r.1) (rw (named, new) at h))
      ]

known_stays :
    (event : SourceEventRef) (c : WorkspaceChain)
    → is_deduplicated event.event_name ≡ true
    → let signed = signed_chain event c in
      let known : WorkspaceChain = record signed {
        accepted = signed.accepted ++ key_of event signed ∷ [];
      } in
      accept_in event known ≡ (false, known)
unfolding accept_in
known_stays event c named =
    let signed = signed_chain event c in
    rw (
      named,
      signed_again event c (signed.accepted ++ key_of event signed ∷ []),
      has_key_accepted-append (key_of event signed) signed,
    )

-- A prompt, a prompt hook or a stop hook that goes on to the emitter does not go on again when it is
-- repeated in its chain, and leaves the chain as it is.
pub accept_in-accept_in :
    (event : SourceEventRef) (c after : WorkspaceChain)
    → is_deduplicated event.event_name ≡ true
    → accept_in event c ≡ (true, after)
    → accept_in event after ≡ (false, after)
accept_in-accept_in event c after named h =
    subst (λ (a : WorkspaceChain). accept_in event a ≡ (false, a))
      (sym (accepted_chain event c after named h)) (known_stays event c named)
