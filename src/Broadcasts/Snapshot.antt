-- ===== src/Broadcasts/Snapshot.antt =====
-- `BroadcastKernel.result` of core/yatagarasu_core/broadcasts.py: the frozen roster with the current
-- state of each delivery.
pub mod Consistency
pub mod Outcomes
pub mod Seats
use yatagarasu.Prelude.{
  ℕ, String, Bool, true, false, not, ◌&&◌, ◌||◌, Option, none, some, List, [], ◌∷◌, ◌==◌, string_eq,
  nat_eq, option_eq, find, all, filter, length, leb, if◌then◌else◌,
}
use yatagarasu.Environment.{Environment}
use yatagarasu.Types.{
  Delivery, DeliveryState, queued, dispatching, transport_submitted, in_session, processed,
  delivery_state_eq, BindingState, active, binding_state_eq, BroadcastOutcome, BroadcastResult,
}
use yatagarasu.Store.Tables.{
  Store, BroadcastRow, BroadcastRecipient, BroadcastAudit, SessionBindingRow,
}
use yatagarasu.Store.Exec.{Exec, Result, ok, err, key_error, broadcast_conflict_error, lift, ◌>>=◌}
use yatagarasu.Store.Deliveries.{get_delivery}
use yatagarasu.Store.Bindings.{session_binding}
use yatagarasu.Store.Rooms.{broadcast_audit}
use yatagarasu.Broadcasts.Expansion.{IdFactory, expand}

-- ORDER BY br.roster_ordinal
unfoldable pub insert_by_ordinal :
    BroadcastRecipient → List BroadcastRecipient → List BroadcastRecipient
insert_by_ordinal r [] = r ∷ []
insert_by_ordinal r (x ∷ xs) =
    if leb r.roster_ordinal x.roster_ordinal then r ∷ x ∷ xs else x ∷ insert_by_ordinal r xs

unfoldable pub order_recipients : List BroadcastRecipient → List BroadcastRecipient
unfolding insert_by_ordinal
order_recipients [] = []
order_recipients (r ∷ rs) = insert_by_ordinal r (order_recipients rs)

-- a row of the join, with the binding's state if there is a binding
pub record JoinedRow : Type 0 where
  pub recipient : BroadcastRecipient
  pub delivery : Delivery
  pub binding_state : Option BindingState

abbrev state_of : Option SessionBindingRow → Option BindingState
state_of none = none
state_of (some b) = some b.state

-- LEFT JOIN session_bindings; a NULL binding meets no row
abbrev joined_state : Option String → Store → Option BindingState
joined_state none s = none
joined_state (some binding_id) s = state_of (session_binding binding_id s)

-- JOIN deliveries
unfoldable pub join_rows : List BroadcastRecipient → Store → List JoinedRow
join_rows [] s = []
join_rows (r ∷ rs) s =
    let rest = join_rows rs s in
    elim (get_delivery r.delivery_id s) [
      | none ↦ rest
      | some d ↦
          record { recipient = r; delivery = d; binding_state = joined_state r.binding_id s } ∷ rest
    ]

abbrev pub load_bearing : DeliveryState → Bool
load_bearing queued = true
load_bearing dispatching = true
load_bearing _ = false

abbrev pub is_none : Option String → Bool
is_none none = true
is_none (some x) = false

unfoldable pub outcome_of : JoinedRow → BroadcastOutcome
outcome_of row = record {
  recipient_id = row.recipient.recipient_id;
  delivery_id = row.recipient.delivery_id;
  binding_id = row.recipient.binding_id;
  state = row.delivery.state;
  disposition = row.delivery.disposition;
  unavailable_reason =
      if load_bearing row.delivery.state && is_none row.recipient.binding_id
      then some "binding-absent"
      else if load_bearing row.delivery.state && not (row.binding_state == some active)
      then some "binding-revoked-or-superseded"
      else none;
}

unfoldable pub map_outcomes : List JoinedRow → List BroadcastOutcome
unfolding outcome_of
map_outcomes [] = []
map_outcomes (row ∷ rows) = outcome_of row ∷ map_outcomes rows

abbrev pub delivered : DeliveryState → Bool
delivered transport_submitted = true
delivered in_session = true
delivered processed = true
delivered _ = false

-- bool(outcomes) and all(...)
unfoldable pub all_delivered_of : List BroadcastOutcome → Bool
all_delivered_of [] = false
all_delivered_of (o ∷ os) = all (λ outcome. delivered outcome.state) (o ∷ os)

abbrev audit_agrees : Option BroadcastAudit → BroadcastRow → Bool
audit_agrees none header = false
audit_agrees (some audit) header =
    audit.event_id == header.event_id && audit.roster_snapshot_size == header.roster_snapshot_size

unfoldable pub snapshot_of : BroadcastRow → List JoinedRow → Store → Result BroadcastResult
unfolding map_outcomes all_delivered_of
snapshot_of header rows s =
    if not (length rows == header.roster_snapshot_size)
      || not (audit_agrees (broadcast_audit header.broadcast_id s) header)
    then err (broadcast_conflict_error "broadcast snapshot is inconsistent")
    else ok (record {
      broadcast_id = header.broadcast_id;
      event_id = header.event_id;
      room_id = header.room_id;
      roster_snapshot_size = header.roster_snapshot_size;
      outcomes = map_outcomes rows;
      all_delivered = all_delivered_of (map_outcomes rows);
    })

unfoldable pub rows_of : String → Store → List JoinedRow
unfolding order_recipients join_rows
rows_of broadcast_id s =
    join_rows
      (order_recipients (filter (λ r. r.broadcast_id == broadcast_id) s.broadcast_recipients)) s

unfoldable pub result : String → Store → Result BroadcastResult
unfolding snapshot_of rows_of
result broadcast_id s = elim (find (λ b. b.broadcast_id == broadcast_id) s.broadcasts) [
  | none ↦ err (key_error broadcast_id)
  | some header ↦ snapshot_of header (rows_of broadcast_id s) s
]

-- the whole of `broadcast`
unfoldable pub broadcast :
    Environment → IdFactory → String → String → String → String → ℕ → Exec BroadcastResult
broadcast env id_factory actor_id room_id content accepted_at n = do
  broadcast_id ← expand env id_factory actor_id room_id content accepted_at n
  λ s. lift (result broadcast_id s) s
