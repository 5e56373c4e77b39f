-- ===== src/Tests/JournalExamples.antt =====
-- The theorems on the journal at one delivery that is injected and acknowledged.
use yatagarasu.Prelude.{
  String, ◌<>◌, Bool, ◌&&◌, none, some, [], ◌∷◌, ◌++◌, find, any, count, string_eq, ◌≡◌, ◌⊎◌, refl,
}
use yatagarasu.Cmux.Journal.{
  injected, acked, state_text, JournalRow, Journal, row_of, journal_error, get, prepared_row,
  prepare, settle, needs_reconciliation, unsettled,
}
use yatagarasu.Cmux.Journal.Crashes.{IsOrdered, unsettled-exact}
use yatagarasu.Cmux.Journal.History.{
  History, start, next, preparing, settling, Later, History-Later, History-terminal,
}
use yatagarasu.Cmux.Journal.Lifecycle.{Refused, Settled, settle-cases}
use yatagarasu.Cmux.Journal.Preparing.{prepare-cases}

abbrev intent : JournalRow
intent = prepared_row "delivery-1" "binding-1" "seat-1" "marker-1" 7

abbrev prepared_once : Journal
prepared_once = intent ∷ []

abbrev injected_row : JournalRow
injected_row = record intent {
  state = injected;
  settled_at = some 8;
  source_events = "surface.input_sent" ∷ [];
}

abbrev acked_row : JournalRow
acked_row = record injected_row { state = acked; settled_at = some 9 }

abbrev calls : Journal → Journal
calls journal =
    let once = (settle "delivery-1" acked 9 ("surface.input_sent" ∷ []) "" journal).1 in
    (prepare "delivery-2" "binding-1" "seat-1" "marker-2" 10 once).1

past : (journal : Journal) → History journal (calls journal)
past journal =
    next (next start (settling "delivery-1" acked 9 ("surface.input_sent" ∷ []) ""))
      (preparing "delivery-2" "binding-1" "seat-1" "marker-2" 10)

found_injected : get "delivery-1" (injected_row ∷ []) ≡ some injected_row
unfolding get find string_eq
found_injected = refl

found_acked : get "delivery-1" (acked_row ∷ []) ≡ some acked_row
unfolding get find string_eq
found_acked = refl

History-Later_example :
    (row : JournalRow) × (get "delivery-1" (calls (injected_row ∷ [])) ≡ some row)
    × Later injected_row row
History-Later_example =
    History-Later (past (injected_row ∷ [])) "delivery-1" injected_row found_injected

History-terminal_example :
    (row : JournalRow) × (get "delivery-1" (calls (acked_row ∷ [])) ≡ some row)
    × (row.state ≡ acked)
unfolding any
History-terminal_example =
    History-terminal (past (acked_row ∷ [])) "delivery-1" acked_row found_acked refl

settle-cases_example :
    ((message : String) × (settle "delivery-1" injected 8 [] "" prepared_once
        ≡ (journal_error message, prepared_once))
      × Refused "delivery-1" injected 8 [] "" prepared_once)
    ⊎ Settled "delivery-1" injected 8 [] "" prepared_once
        (settle "delivery-1" injected 8 [] "" prepared_once).0
        (settle "delivery-1" injected 8 [] "" prepared_once).1
settle-cases_example = settle-cases "delivery-1" injected 8 [] "" prepared_once

prepare-cases_example :
    ((get "delivery-1" prepared_once ≡ none)
      × (prepare "delivery-1" "binding-1" "seat-1" "marker-1" 7 prepared_once
          ≡ (row_of intent, prepared_once ++ intent ∷ [])))
    ⊎ ((row : JournalRow) × (get "delivery-1" prepared_once ≡ some row)
        × (prepare "delivery-1" "binding-1" "seat-1" "marker-1" 7 prepared_once ≡ (
          journal_error (
              "delivery "
              <> "delivery-1"
              <> " already journaled in state "
              <> state_text row.state),
          prepared_once,
        )))
prepare-cases_example = prepare-cases "delivery-1" "binding-1" "seat-1" "marker-1" 7 prepared_once

unsettled-exact_example :
    IsOrdered (unsettled (acked_row ∷ intent ∷ []))
    × ((p : JournalRow → Bool)
        → count p (unsettled (acked_row ∷ intent ∷ []))
          ≡ count (λ row. needs_reconciliation row && p row) (acked_row ∷ intent ∷ []))
unsettled-exact_example = unsettled-exact (acked_row ∷ intent ∷ [])
