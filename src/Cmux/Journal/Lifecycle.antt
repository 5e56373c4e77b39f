-- ===== src/Cmux/Journal/Lifecycle.antt =====
-- `settle` of plugins/cmux/yatagarasu_cmux/journal.py, on each branch.
use yatagarasu.Prelude.{
  ℕ, String, ◌<>◌, true, false, not, ◌&&◌, none, some, List, ◌==◌, string_eq, ◌≡◌, ◌≢◌, refl, ap,
  ◌∙◌, inl, inr, ◌⊎◌, Option-cases, Bool-cases, arith,
}
use yatagarasu.Prelude.Rows.{find-update, find_meets}
use yatagarasu.Cmux.Journal.{
  JournalState, prepared, injected, acked, ambiguous, same_state, state_text, legal, JournalRow,
  Journal, JournalResult, row_of, journal_error, get, merge_events, settled_row, update_row,
  merged_detail, settle_row, settle,
}

same_state-eq : (a b : JournalState) → same_state a b ≡ true → a ≡ b
same_state-eq prepared prepared h = refl
same_state-eq injected injected h = refl
same_state-eq acked acked h = refl
same_state-eq ambiguous ambiguous h = refl
same_state-eq a b h = cc

same_state_refl : (a : JournalState) → same_state a a ≡ true
same_state_refl prepared = refl
same_state_refl injected = refl
same_state_refl acked = refl
same_state_refl ambiguous = refl

other_state : (a b : JournalState) → same_state a b ≡ false → a ≢ b
other_state a b h e = ground (arith, same_state_refl b)

module _ (delivery_id : String) (state : JournalState) (now : ℕ) (source_events : List String)
    (detail : String) where
  abbrev pub change_of : JournalRow → JournalRow → JournalRow
  change_of row =
      settled_row state now (merge_events row.source_events source_events)
        (merged_detail detail row)

  -- What `settle` writes.
  pub record Settled (journal : Journal) (result : JournalResult) (after : Journal) : Type 0 where
    pub row : JournalRow
    pub found : get delivery_id journal ≡ some row
    pub allowed : (row.state ≡ state) ⊎ (legal row.state state ≡ true)
    pub returns : result ≡ row_of (change_of row row)
    pub updates : after ≡ update_row delivery_id (change_of row) journal

  -- Why `settle` raises.
  abbrev pub Refused : Journal → Type 0
  Refused journal =
      (state ≡ prepared)
      ⊎ (get delivery_id journal ≡ none)
      ⊎ ((row : JournalRow) × (get delivery_id journal ≡ some row)
          × (row.state ≢ state)
          × (legal row.state state ≡ false))

  abbrev outcome : Journal → JournalResult × Journal
  outcome journal = settle delivery_id state now source_events detail journal

  found_again :
      (row : JournalRow) (journal : Journal)
      → get delivery_id journal ≡ some row
      → get delivery_id (update_row delivery_id (change_of row) journal) ≡ some (change_of row row)
  unfolding get
  found_again row journal h =
      rw
        (
          find-update (λ r. r.delivery_id == delivery_id) (λ r. r.delivery_id == delivery_id)
              (change_of row) (λ r. refl) journal,
          h,
        )
        (ground
          (arith, find_meets (λ (r : JournalRow). r.delivery_id == delivery_id) journal row h))

  settled :
      (row : JournalRow) (journal : Journal)
      → get delivery_id journal ≡ some row
      → outcome journal ≡ settle_row delivery_id state now source_events detail row journal
      → (row.state ≡ state) ⊎ (legal row.state state ≡ true)
      → (not (same_state row.state state) && not (legal row.state state)) ≡ false
      → Settled journal (outcome journal).0 (outcome journal).1
  unfolding settle_row
  settled row journal h is allowed passes =
      let saved = found_again row journal h in
      let done = is ∙ rw (passes, saved) refl in
      record {
        row = row;
        found = h;
        allowed = allowed;
        returns = ap (λ r. r.0) done;
        updates = ap (λ r. r.1) done;
      }

  settle_row-cases :
      (row : JournalRow) (journal : Journal)
      → get delivery_id journal ≡ some row
      → outcome journal ≡ settle_row delivery_id state now source_events detail row journal
      → ((message : String) × (outcome journal ≡ (journal_error message, journal))
          × Refused journal)
        ⊎ Settled journal (outcome journal).0 (outcome journal).1
  unfolding settle_row
  settle_row-cases row journal h is = elim (Bool-cases (same_state row.state state)) [
    | inl same ↦
        inr (settled row journal h is (inl (same_state-eq row.state state same)) (rw same refl))
    | inr other ↦ elim (Bool-cases (legal row.state state)) [
      | inl moves ↦ inr (settled row journal h is (inr moves) (rw (other, moves) refl))
      | inr illegal ↦ inl (
        "illegal transition "
            <> state_text row.state
            <> " -> "
            <> state_text state
            <> " for delivery "
            <> delivery_id,
        is ∙ rw (other, illegal) refl,
        inr (inr (row, h, other_state row.state state other, illegal)),
      )
    ]
  ]

  pub settle-cases :
      (journal : Journal)
      → ((message : String) × (outcome journal ≡ (journal_error message, journal))
          × Refused journal)
        ⊎ Settled journal (outcome journal).0 (outcome journal).1
  unfolding settle
  settle-cases journal = elim (Bool-cases (same_state state prepared)) [
    | inl back ↦ inl (
      "settle() cannot move a row back to prepared",
      rw back refl,
      inl (same_state-eq state prepared back),
    )
    | inr forth ↦ elim (Option-cases (get delivery_id journal)) [
      | inl absent ↦ inl (
        "delivery " <> delivery_id <> " was never prepared",
        rw (forth, absent) refl,
        inr (inl absent),
      )
      | inr (row, found) ↦ settle_row-cases row journal found (rw (forth, found) refl)
    ]
  ]
