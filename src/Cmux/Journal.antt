-- ===== src/Cmux/Journal.antt =====
-- `InjectionJournal` of plugins/cmux/yatagarasu_cmux/journal.py: the table of injection attempts, keyed on the
-- delivery. Times are ticks of the caller's clock.
pub mod Crashes
pub mod History
pub mod Lifecycle
pub mod Preparing
use yatagarasu.Prelude.{
  ℕ, String, ◌<>◌, Bool, true, false, not, ◌&&◌, Option, none, some, List, [], ◌∷◌, ◌++◌, ◌==◌,
  string_eq, filter, find, any, contains, is_empty, leb, if◌then◌else◌, update,
}

-- JournalState
pub data JournalState : Type 0 where
  prepared injected acked ambiguous : JournalState

abbrev pub state_text : JournalState → String
state_text prepared = "prepared"
state_text injected = "injected"
state_text acked = "acked"
state_text ambiguous = "ambiguous"

abbrev pub same_state : JournalState → JournalState → Bool
same_state prepared prepared = true
same_state injected injected = true
same_state acked acked = true
same_state ambiguous ambiguous = true
same_state _ _ = false

abbrev terminal : List JournalState
terminal = acked ∷ ambiguous ∷ []

-- LEGAL_TRANSITIONS
abbrev pub legal_transitions : JournalState → List JournalState
legal_transitions prepared = injected ∷ ambiguous ∷ []
legal_transitions injected = acked ∷ []
legal_transitions acked = []
legal_transitions ambiguous = []

pub record JournalRow : Type 0 where
  pub delivery_id : String
  pub binding_id : String
  pub seat_id : String
  pub marker : String
  pub state : JournalState
  pub prepared_at : ℕ
  pub settled_at : Option ℕ
  pub source_events : List String
  pub detail : String

abbrev pub is_terminal : JournalRow → Bool
is_terminal row = any (same_state row.state) terminal

abbrev pub needs_reconciliation : JournalRow → Bool
needs_reconciliation row = same_state row.state prepared

abbrev pub Journal : Type 0
Journal = List JournalRow

pub data JournalResult : Type 0 where
  row_of : JournalRow → JournalResult
  journal_error : String → JournalResult
  assertion_error : JournalResult

unfoldable pub get : String → Journal → Option JournalRow
get delivery_id journal = find (λ row. row.delivery_id == delivery_id) journal

-- row = self.get(delivery_id); assert row is not None; return row
abbrev pub asserted : Option JournalRow → JournalResult
asserted none = assertion_error
asserted (some row) = row_of row

abbrev pub existing_state : Option JournalRow → String
existing_state none = "unknown"
existing_state (some row) = state_text row.state

abbrev pub prepared_row : String → String → String → String → ℕ → JournalRow
prepared_row delivery_id binding_id seat_id marker now = record {
  delivery_id = delivery_id;
  binding_id = binding_id;
  seat_id = seat_id;
  marker = marker;
  state = prepared;
  prepared_at = now;
  settled_at = none;
  source_events = [];
  detail = "";
}

-- The primary key decides, and the failed transaction is rolled back.
unfoldable pub prepare : String → String → String → String → ℕ → Journal → JournalResult × Journal
prepare delivery_id binding_id seat_id marker now journal =
    let row = prepared_row delivery_id binding_id seat_id marker now in
    if any (λ r. r.delivery_id == delivery_id) journal
    then (
      journal_error (
          "delivery "
          <> delivery_id
          <> " already journaled in state "
          <> existing_state (get delivery_id journal)),
      journal,
    )
    else (asserted (get delivery_id (journal ++ row ∷ [])), journal ++ row ∷ [])

-- for event in source_events: append it to `merged` if it is not there
unfoldable pub merge_events : List String → List String → List String
merge_events merged [] = merged
merge_events merged (event ∷ events) =
    merge_events (if contains merged event then merged else merged ++ event ∷ []) events

abbrev pub settled_row : JournalState → ℕ → List String → String → JournalRow → JournalRow
settled_row state now source_events detail row = record row {
  state = state;
  settled_at = some now;
  source_events = source_events;
  detail = detail;
}

-- UPDATE injection_journal SET … WHERE delivery_id = ?
abbrev pub update_row : String → (JournalRow → JournalRow) → Journal → Journal
update_row delivery_id change journal =
    update (λ row. row.delivery_id == delivery_id) change journal

abbrev pub merged_detail : String → JournalRow → String
merged_detail detail row = if is_empty detail then row.detail else detail

abbrev pub legal : JournalState → JournalState → Bool
legal before after = any (same_state after) (legal_transitions before)

unfoldable pub settle_row :
    String
    → JournalState
    → ℕ
    → List String
    → String
    → JournalRow
    → Journal
    → JournalResult × Journal
settle_row delivery_id state now source_events detail row journal =
    let events = merge_events row.source_events source_events in
    let change = settled_row state now events (merged_detail detail row) in
    if not (same_state row.state state) && not (legal row.state state)
    then (
      journal_error (
          "illegal transition "
          <> state_text row.state
          <> " -> "
          <> state_text state
          <> " for delivery "
          <> delivery_id),
      journal,
    )
    else (
      asserted (get delivery_id (update_row delivery_id change journal)),
      update_row delivery_id change journal,
    )

unfoldable pub settle :
    String → JournalState → ℕ → List String → String → Journal → JournalResult × Journal
settle delivery_id state now source_events detail journal =
    if same_state state prepared
    then (journal_error "settle() cannot move a row back to prepared", journal)
    else elim (get delivery_id journal) [
      | none ↦ (journal_error ("delivery " <> delivery_id <> " was never prepared"), journal)
      | some row ↦ settle_row delivery_id state now source_events detail row journal
    ]

-- ORDER BY prepared_at
unfoldable pub insert_by_time : JournalRow → List JournalRow → List JournalRow
insert_by_time row [] = row ∷ []
insert_by_time row (r ∷ rows) =
    if leb row.prepared_at r.prepared_at then row ∷ r ∷ rows else r ∷ insert_by_time row rows

unfoldable pub order_by_time : List JournalRow → List JournalRow
order_by_time [] = []
order_by_time (row ∷ rows) = insert_by_time row (order_by_time rows)

unfoldable pub unsettled : Journal → List JournalRow
unsettled journal = order_by_time (filter needs_reconciliation journal)
