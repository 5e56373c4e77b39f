-- ===== src/Cmux/Journal/Crashes.antt =====
-- `unsettled` of plugins/cmux/yatagarasu_cmux/journal.py: the rows that a crash may have left open.
use yatagarasu.Prelude.{
  ◌+◌, ◌≤◌, Bool, ◌&&◌, List, [], ◌∷◌, ◌≡◌, refl, ap, ◌∙◌, filter, count, All, leb, inl, inr,
  Bool-cases, if◌then◌else◌, arith,
}
use yatagarasu.Prelude.Rows.{All-imp, filter-count}
use yatagarasu.Cmux.Journal.{
  JournalRow, Journal, needs_reconciliation, insert_by_time, order_by_time, unsettled,
}

-- in the order of preparation
abbrev pub IsOrdered : List JournalRow → Type 0
IsOrdered [] = Unit
IsOrdered (row ∷ rows) = All (λ later. row.prepared_at ≤ later.prepared_at) rows × IsOrdered rows

insert_by_time-All :
    (P : JournalRow → Type 0) (row : JournalRow) (rows : List JournalRow)
    → P row
    → All P rows
    → All P (insert_by_time row rows)
unfolding insert_by_time
insert_by_time-All P row [] h hs = (h, tt)
insert_by_time-All P row (r ∷ rows) h hs = elim (Bool-cases (leb row.prepared_at r.prepared_at)) [
  | inl e ↦ rw e (h, hs)
  | inr e ↦ rw e (hs.0, insert_by_time-All P row rows h hs.1)
]

insert_by_time-IsOrdered :
    (row : JournalRow) (rows : List JournalRow)
    → IsOrdered rows
    → IsOrdered (insert_by_time row rows)
unfolding insert_by_time
insert_by_time-IsOrdered row [] h = (tt, tt)
insert_by_time-IsOrdered row (r ∷ rows) h = elim (Bool-cases (leb row.prepared_at r.prepared_at)) [
  | inl e ↦
      let first : row.prepared_at ≤ r.prepared_at = ground arith in
      rw e (
        (
          first,
          All-imp (λ (x : JournalRow). r.prepared_at ≤ x.prepared_at)
              (λ (x : JournalRow). row.prepared_at ≤ x.prepared_at) (λ x le. omega arith) rows h.0,
        ),
        h,
      )
  | inr e ↦
      let first : r.prepared_at ≤ row.prepared_at = ground arith in
      rw e (
        insert_by_time-All (λ (x : JournalRow). r.prepared_at ≤ x.prepared_at) row rows first h.0,
        insert_by_time-IsOrdered row rows h.1,
      )
]

order_by_time-IsOrdered : (rows : List JournalRow) → IsOrdered (order_by_time rows)
unfolding order_by_time
order_by_time-IsOrdered [] = tt
order_by_time-IsOrdered (row ∷ rows) =
    insert_by_time-IsOrdered row (order_by_time rows) (order_by_time-IsOrdered rows)

module _ (p : JournalRow → Bool) where
  insert_by_time-count :
      (row : JournalRow) (rows : List JournalRow)
      → count p (insert_by_time row rows) ≡ count p (row ∷ rows)
  unfolding insert_by_time count
  insert_by_time-count row [] = refl
  insert_by_time-count row (r ∷ rows) = ground (arith, insert_by_time-count row rows)

  order_by_time-count : (rows : List JournalRow) → count p (order_by_time rows) ≡ count p rows
  unfolding order_by_time count
  order_by_time-count [] = refl
  order_by_time-count (row ∷ rows) =
      insert_by_time-count row (order_by_time rows)
      ∙ ap (λ n. (if p row then 1 else 0) + n) (order_by_time-count rows)

-- `unsettled` lists the rows in order of preparation, and exactly the journal's rows in state
-- prepared, each as often as the journal has it.
pub unsettled-exact :
    (journal : Journal)
    → IsOrdered (unsettled journal)
      × ((p : JournalRow → Bool)
          → count p (unsettled journal) ≡ count (λ row. needs_reconciliation row && p row) journal)
unfolding unsettled
unsettled-exact journal = (
  order_by_time-IsOrdered (filter needs_reconciliation journal),
  λ p.
      order_by_time-count p (filter needs_reconciliation journal)
      ∙ filter-count p needs_reconciliation journal,
)
