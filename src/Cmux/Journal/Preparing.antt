-- ===== src/Cmux/Journal/Preparing.antt =====
-- `prepare` of plugins/cmux/yatagarasu_cmux/journal.py: the primary key admits one attempt for each delivery.
use yatagarasu.Prelude.{
  ℕ, String, ◌<>◌, none, some, [], ◌∷◌, ◌++◌, ◌==◌, string_eq, ◌≡◌, refl, inl, inr, ◌⊎◌,
  Option-cases, arith,
}
use yatagarasu.Prelude.Rows.{find-append_self, any_of_find, any_of_none}
use yatagarasu.Cmux.Journal.{
  state_text, JournalRow, Journal, row_of, journal_error, get, prepared_row, prepare,
}

module _ (delivery_id binding_id seat_id marker : String) (now : ℕ) (journal : Journal) where
  abbrev new_row : JournalRow
  new_row = prepared_row delivery_id binding_id seat_id marker now

  -- A delivery without a row gets one, in state prepared and at the end of the table, and that row is
  -- the answer; a delivery with a row is refused with an error that names the row's state, and the
  -- table stays as it is.
  pub prepare-cases :
      ((get delivery_id journal ≡ none)
        × (prepare delivery_id binding_id seat_id marker now journal
            ≡ (row_of new_row, journal ++ new_row ∷ [])))
      ⊎ ((row : JournalRow) × (get delivery_id journal ≡ some row)
          × (prepare delivery_id binding_id seat_id marker now journal ≡ (
            journal_error (
                "delivery "
                <> delivery_id
                <> " already journaled in state "
                <> state_text row.state),
            journal,
          )))
  unfolding prepare get
  prepare-cases = elim (Option-cases (get delivery_id journal)) [
    | inl absent ↦ inl (
      absent,
      rw
          (
            any_of_none (λ (r : JournalRow). r.delivery_id == delivery_id) journal absent,
            find-append_self (λ (r : JournalRow). r.delivery_id == delivery_id) journal new_row
                absent (ground arith),
          )
          refl,
    )
    | inr (row, found) ↦ inr (
      row,
      found,
      rw (any_of_find (λ (r : JournalRow). r.delivery_id == delivery_id) journal row found, found)
          refl,
    )
  ]
