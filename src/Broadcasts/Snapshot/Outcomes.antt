-- ===== src/Broadcasts/Snapshot/Outcomes.antt =====
-- What `BroadcastKernel._outcome` of core/yatagarasu_core/broadcasts.py says of a seat, and when all
-- seats are delivered.
use yatagarasu.Prelude.{
  String, true, false, not, ◌&&◌, ◌==◌, string_eq, option_eq, Option, none, some, List, [], ◌∷◌,
  all, filter, All, if◌then◌else◌, ◌≡◌, ◌≢◌, ◌↔◌, refl, subst, ◌⊎◌, inl, inr, Bool-cases,
  Option-cases, arith,
}
use yatagarasu.Types.{
  Delivery, DeliveryState, queued, dispatching, transport_submitted, in_session, processed, active,
  binding_state_eq, BroadcastOutcome,
}
use yatagarasu.Store.Tables.{Store, BroadcastRecipient, SessionBindingRow}
use yatagarasu.Store.Deliveries.{get_delivery}
use yatagarasu.Store.Bindings.{session_binding}
use yatagarasu.Broadcasts.Snapshot.{
  is_none, joined_state, join_rows, load_bearing, outcome_of, map_outcomes, delivered,
  all_delivered_of,
}
use yatagarasu.Broadcasts.Snapshot.Seats.{has_delivery}

-- the delivery has not left the core yet, or has reached at least the transport
abbrev pub IsWaiting : DeliveryState → Type 0
IsWaiting state = (state ≡ queued) ⊎ (state ≡ dispatching)

abbrev pub IsDelivered : DeliveryState → Type 0
IsDelivered state = (state ≡ transport_submitted) ⊎ (state ≡ in_session) ⊎ (state ≡ processed)

abbrev pub IsActive : Store → String → Type 0
IsActive s binding_id =
    (b : SessionBindingRow) × (session_binding binding_id s ≡ some b) × (b.state ≡ active)

-- Why a seat cannot be reached: only of a delivery that waits, and by its binding.
pub data Availability (s : Store) (binding_id : Option String) (state : DeliveryState)
    : Option String → Type 0 where
  settled : ¬ IsWaiting state → Availability s binding_id state none
  bound :
      (id : String)
      → IsWaiting state
      → binding_id ≡ some id
      → IsActive s id
      → Availability s binding_id state none
  absent :
      (reason : Option String)
      → reason ≡ some "binding-absent"
      → IsWaiting state
      → binding_id ≡ none
      → Availability s binding_id state reason
  lapsed :
      (reason : Option String)
      → reason ≡ some "binding-revoked-or-superseded"
      → (id : String) → IsWaiting state
      → binding_id ≡ some id
      → ¬ IsActive s id
      → Availability s binding_id state reason

-- The outcome of a seat: its row, the state of its delivery, and whether it can be reached.
pub record IsOutcome (s : Store) (r : BroadcastRecipient) (o : BroadcastOutcome) : Type 0 where
  pub same_recipient : o.recipient_id ≡ r.recipient_id
  pub same_delivery : o.delivery_id ≡ r.delivery_id
  pub same_binding : o.binding_id ≡ r.binding_id
  pub delivery : Delivery
  pub found : get_delivery r.delivery_id s ≡ some delivery
  pub same_state : o.state ≡ delivery.state
  pub same_disposition : o.disposition ≡ delivery.disposition
  pub available : Availability s r.binding_id delivery.state o.unavailable_reason

-- one outcome for each seat, in the order of the seats
abbrev pub Reports : Store → List BroadcastRecipient → List BroadcastOutcome → Type 0
Reports s [] [] = Unit
Reports s [] (o ∷ os) = ⊥
Reports s (r ∷ rs) [] = ⊥
Reports s (r ∷ rs) (o ∷ os) = IsOutcome s r o × Reports s rs os

load_bearing-IsWaiting : (state : DeliveryState) → load_bearing state ≡ true → IsWaiting state
load_bearing-IsWaiting queued h = inl refl
load_bearing-IsWaiting dispatching h = inr refl
load_bearing-IsWaiting transport_submitted h = cc
load_bearing-IsWaiting in_session h = cc
load_bearing-IsWaiting processed h = cc

not_load_bearing : (state : DeliveryState) → load_bearing state ≡ false → ¬ IsWaiting state
not_load_bearing state h (inl e) = ground arith
not_load_bearing state h (inr e) = ground arith

delivered_iff : (state : DeliveryState) → (delivered state ≡ true) ↔ IsDelivered state
delivered_iff queued = ((λ h. cc), (λ h. ground arith))
delivered_iff dispatching = ((λ h. cc), (λ h. ground arith))
delivered_iff transport_submitted = ((λ h. inl refl), (λ h. refl))
delivered_iff in_session = ((λ h. inr (inl refl)), (λ h. refl))
delivered_iff processed = ((λ h. inr (inr refl)), (λ h. refl))

abbrev reason_of : Store → Option String → DeliveryState → Option String
reason_of s binding_id state =
    if load_bearing state && is_none binding_id
    then some "binding-absent"
    else if load_bearing state && not (joined_state binding_id s == some active)
    then some "binding-revoked-or-superseded"
    else none

joined_active :
    (s : Store) (id : String) → (joined_state (some id) s == some active) ≡ true → IsActive s id
joined_active s id h = elim (Option-cases (session_binding id s)) [
  | inl missing ↦ absurd (ground arith)
  | inr (b, found) ↦ (b, found, ground arith)
]

active_joined :
    (s : Store) (id : String) → (joined_state (some id) s == some active) ≡ false → ¬ IsActive s id
active_joined s id h (b, found, is) = ground arith

waiting-Availability :
    (s : Store) (binding_id : Option String) (state : DeliveryState)
    → load_bearing state ≡ true
    → Availability s binding_id state (reason_of s binding_id state)
waiting-Availability s none state waits =
    absent (reason_of s none state) (rw waits refl) (load_bearing-IsWaiting state waits) refl
waiting-Availability s (some id) state waits =
    elim (Bool-cases (joined_state (some id) s == some active)) [
      | inl is ↦
          subst (Availability s (some id) state) (rw (waits, is) refl)
            (bound id (load_bearing-IsWaiting state waits) refl (joined_active s id is))
      | inr other ↦
          lapsed (reason_of s (some id) state) (rw (waits, other) refl) id
            (load_bearing-IsWaiting state waits) refl (active_joined s id other)
    ]

reason_of-Availability :
    (s : Store) (binding_id : Option String) (state : DeliveryState)
    → Availability s binding_id state (reason_of s binding_id state)
reason_of-Availability s binding_id state = elim (Bool-cases (load_bearing state)) [
  | inl waits ↦ waiting-Availability s binding_id state waits
  | inr rests ↦
      subst (Availability s binding_id state) (rw rests refl)
        (settled (not_load_bearing state rests))
]

-- the seats are those of the rows that the join kept
pub map_outcomes-Reports :
    (s : Store) (rs : List BroadcastRecipient)
    → Reports s (filter (has_delivery s) rs) (map_outcomes (join_rows rs s))
unfolding join_rows map_outcomes outcome_of filter
map_outcomes-Reports s [] = tt
map_outcomes-Reports s (r ∷ rs) = elim (Option-cases (get_delivery r.delivery_id s)) [
  | inl missing ↦ rw (missing, join_rows) (map_outcomes-Reports s rs)
  | inr (d, found) ↦
      rw (found, join_rows)
        (
          record {
            same_recipient = refl;
            same_delivery = refl;
            same_binding = refl;
            delivery = d;
            found = found;
            same_state = refl;
            same_disposition = refl;
            available = reason_of-Availability s r.binding_id d.state;
          },
          map_outcomes-Reports s rs,
        )
]

all_delivered :
    (outcomes : List BroadcastOutcome)
    → all (λ o. delivered o.state) outcomes ≡ true
    → All (λ o. IsDelivered o.state) outcomes
unfolding all
all_delivered [] h = tt
all_delivered (o ∷ os) h =
    ((delivered_iff o.state).0 (ground arith), all_delivered os (ground arith))

delivered_of_All :
    (outcomes : List BroadcastOutcome)
    → All (λ o. IsDelivered o.state) outcomes
    → all (λ o. delivered o.state) outcomes ≡ true
unfolding all
delivered_of_All [] h = refl
delivered_of_All (o ∷ os) h = rw ((delivered_iff o.state).1 h.0) (delivered_of_All os h.1)

pub all_delivered_of_iff :
    (outcomes : List BroadcastOutcome)
    → (all_delivered_of outcomes ≡ true)
      ↔ ((outcomes ≢ []) × All (λ o. IsDelivered o.state) outcomes)
unfolding all_delivered_of
all_delivered_of_iff [] = ((λ h. cc), (λ h. absurd (h.0 refl)))
all_delivered_of_iff (o ∷ os) =
    ((λ h. ((λ e. cc), all_delivered (o ∷ os) h)), (λ h. delivered_of_All (o ∷ os) h.1))
