-- ===== src/Cmux/Emitter/Honesty.antt =====
-- What the receipts of the emitter claim: plugins/cmux/yatagarasu_cmux/receipt_emitter.py.
use yatagarasu.Prelude.{
  String, not, some, List, [], ◌∷◌, ◌++◌, map, string_eq, filter, All, ◌≡◌, ◌⊎◌, inl, inr,
  Bool-cases,
}
use yatagarasu.Prelude.Rows.{All-append, All-filter, All-imp}
use yatagarasu.Types.{
  DeliveryMarker, Receipt, SourceEventRef, completed, harness_prompt_accepted,
  harness_turn_completed,
}
use yatagarasu.Proofs.Chain.{input_sent, prompt_submitted, stop_hook, prompt_chain}
use yatagarasu.Receipts.Session.{last_source_id}
use yatagarasu.Cmux.Emitter.{
  PendingChain, ActiveChain, Emitter, Collaborators, in_workspace, of_session, set_pending,
  set_active, emit, proof_of,
}

-- `x` stands in the list
pub data In {ℓ} {A : Type ℓ} (x : A) : List A → Type ℓ where
  first : {xs : List A} → In x (x ∷ xs)
  later : {y : A} {xs : List A} → In x xs → In x (y ∷ xs)

In-append {ℓ} : {A : Type ℓ} {x : A} {xs : List A} (ys : List A) → In x xs → In x (xs ++ ys)
In-append ys first = first
In-append ys (later i) = later (In-append ys i)

pub In-snoc {ℓ} : {A : Type ℓ} (x : A) (xs : List A) → In x (xs ++ x ∷ [])
In-snoc x [] = first
In-snoc x (y ∷ xs) = later (In-snoc x xs)

module _ (given : Collaborators) where
  -- The receipt of an accepted prompt: three source events in order, of which the last is named.
  pub record IsPrompted (r : Receipt) : Type 0 where
    pub session : String
    pub marker : DeliveryMarker
    pub events : List SourceEventRef
    pub evidence : r.evidence_class ≡ harness_prompt_accepted
    pub proven : r.proof ≡ some (proof_of given session marker events)
    pub names : map (λ event. event.event_name) events ≡ prompt_chain
    pub sourced : r.source_event_id ≡ last_source_id events

  -- The receipt of a completed turn: the chain of a prompt of the same delivery and session that the
  -- core has taken before, and the stop, which is named.
  pub record IsCompleted (sent : List Receipt) (r : Receipt) : Type 0 where
    pub accepted : Receipt
    pub earlier : In accepted sent
    pub opening : IsPrompted accepted
    pub last : SourceEventRef
    pub evidence : r.evidence_class ≡ harness_turn_completed
    pub disposed : r.disposition ≡ some completed
    pub proven :
        r.proof ≡ some (proof_of given opening.session opening.marker (opening.events ++ last ∷ []))
    pub named : last.event_name ≡ stop_hook
    pub same_delivery : r.delivery_id ≡ accepted.delivery_id
    pub sourced : r.source_event_id ≡ some last.source_event_id

  abbrev pub IsHonest : List Receipt → Receipt → Type 0
  IsHonest sent r = IsPrompted r ⊎ IsCompleted sent r

  pub record IsActive (sent : List Receipt) (c : ActiveChain) : Type 0 where
    pub accepted : Receipt
    pub earlier : In accepted sent
    pub opening : IsPrompted accepted
    pub session : opening.session ≡ c.session
    pub marker : opening.marker ≡ c.marker
    pub events : opening.events ≡ c.events
    pub delivery : accepted.delivery_id ≡ c.delivery.delivery_id

  abbrev pub IsNamed : PendingChain → Type 0
  IsNamed c =
      ((e : SourceEventRef) → c.input_event ≡ some e → e.event_name ≡ input_sent)
      × ((e : SourceEventRef) → c.prompt_event ≡ some e → e.event_name ≡ prompt_submitted)

  pub record IsLinked (s : Emitter) : Type 0 where
    pub pending : All IsNamed s.pending_chains
    pub active : All (IsActive s.sent) s.active_chains
    pub honest : All (IsHonest s.sent) s.sent

  IsActive-grows :
      (r : Receipt) (sent : List Receipt) (c : ActiveChain)
      → IsActive sent c
      → IsActive (sent ++ r ∷ []) c
  IsActive-grows r sent c h = record {
    accepted = h.accepted;
    earlier = In-append (r ∷ []) h.earlier;
    opening = h.opening;
    session = h.session;
    marker = h.marker;
    events = h.events;
    delivery = h.delivery;
  }

  IsHonest-grows :
      (r : Receipt) (sent : List Receipt) (q : Receipt)
      → IsHonest sent q
      → IsHonest (sent ++ r ∷ []) q
  IsHonest-grows r sent q (inl h) = inl h
  IsHonest-grows r sent q (inr h) = inr (record {
    accepted = h.accepted;
    earlier = In-append (r ∷ []) h.earlier;
    opening = h.opening;
    last = h.last;
    evidence = h.evidence;
    disposed = h.disposed;
    proven = h.proven;
    named = h.named;
    same_delivery = h.same_delivery;
    sourced = h.sourced;
  })

  pub sent-IsLinked :
      (r : Receipt) (s : Emitter)
      → IsLinked s
      → IsHonest s.sent r
      → IsLinked (record s { sent = s.sent ++ r ∷ [] })
  sent-IsLinked r s k h = record {
    pending = k.pending;
    active =
        All-imp (IsActive s.sent) (IsActive (s.sent ++ r ∷ [])) (IsActive-grows r s.sent)
          s.active_chains k.active;
    honest =
        All-append (IsHonest (s.sent ++ r ∷ [])) s.sent (r ∷ [])
          (All-imp (IsHonest s.sent) (IsHonest (s.sent ++ r ∷ [])) (IsHonest-grows r s.sent) s.sent
            k.honest)
          (IsHonest-grows r s.sent r h, tt);
  }

  pub emit-IsLinked :
      (r : Receipt) (s : Emitter) → IsLinked s → IsHonest s.sent r → IsLinked (emit given r s).1
  unfolding emit
  emit-IsLinked r s k h = elim (Bool-cases (given.core_raises s.sent r)) [
    | inl raises ↦ rw raises k
    | inr takes ↦ rw takes (sent-IsLinked r s k h)
  ]

  pub set_pending-IsLinked :
      (c : PendingChain) (s : Emitter)
      → IsLinked s
      → IsNamed c
      → IsLinked (record s { pending_chains = set_pending c s.pending_chains })
  set_pending-IsLinked c s k h = record {
    pending =
        All-append IsNamed (filter (λ d. not (in_workspace c.workspace d)) s.pending_chains)
          (c ∷ [])
          (All-filter IsNamed (λ d. not (in_workspace c.workspace d)) s.pending_chains k.pending)
          (h, tt);
    active = k.active;
    honest = k.honest;
  }

  pub set_active-IsLinked :
      (c : ActiveChain) (s : Emitter)
      → IsLinked s
      → IsActive s.sent c
      → IsLinked (record s { active_chains = set_active c s.active_chains })
  set_active-IsLinked c s k h = record {
    pending = k.pending;
    active =
        All-append (IsActive s.sent)
          (filter (λ d. not (of_session c.workspace c.session d)) s.active_chains) (c ∷ [])
          (All-filter (IsActive s.sent) (λ d. not (of_session c.workspace c.session d))
            s.active_chains k.active)
          (h, tt);
    honest = k.honest;
  }
