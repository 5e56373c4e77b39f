-- ===== src/Cmux/Outbox/Cursors.antt =====
-- Reading the cursor of a source after an upsert.
use yatagarasu.Prelude.{
  String, Bool, false, some, List, ◌==◌, string_eq, find, any, ◌≡◌, refl, inl, inr, Option-cases,
  Bool-cases, arith,
}
use yatagarasu.Prelude.Int.{ℤ, pos, negsuc, int_eq, lt_int, le_int}
use yatagarasu.Prelude.Rows.{
  find-update, find-append_self, find-append_ne, find_meets, any_of_none, any_of_find,
}
use yatagarasu.Cmux.Outbox.{EventCursor, same_source}
use yatagarasu.Cmux.Outbox.Commits.{set_cursor}

abbrev of_source : String → EventCursor → Bool
of_source source row = row.source_instance_id == source

abbrev moved : EventCursor → EventCursor → EventCursor
moved c row = record row { boot_id = c.boot_id; seq = c.seq }

-- the cursor that was set is the one that is read, and the others stay
pub find-set_cursor_self :
    (c : EventCursor) (cursors : List EventCursor)
    → find (of_source c.source_instance_id) (set_cursor c cursors) ≡ some c
find-set_cursor_self c cursors =
    elim (Option-cases (find (of_source c.source_instance_id) cursors)) [
      | inl absent ↦
          rw (any_of_none (of_source c.source_instance_id) cursors absent)
            (find-append_self (of_source c.source_instance_id) cursors c absent (ground arith))
      | inr (row, found) ↦
          rw
            (
              any_of_find (of_source c.source_instance_id) cursors row found,
              find-update (of_source c.source_instance_id) (same_source c) (moved c) (λ x. refl)
                  cursors,
              found,
            )
            (ground (arith, find_meets (of_source c.source_instance_id) cursors row found))
    ]

pub find-set_cursor_ne :
    (source : String) (c : EventCursor) (cursors : List EventCursor)
    → (c.source_instance_id == source) ≡ false
    → find (of_source source) (set_cursor c cursors) ≡ find (of_source source) cursors
find-set_cursor_ne source c cursors other = elim (Bool-cases (any (same_source c) cursors)) [
  | inl known ↦
      rw (known, find-update (of_source source) (same_source c) (moved c) (λ x. refl) cursors)
        (elim (Option-cases (find (of_source source) cursors)) [
          | inl absent ↦ rw absent
          | inr (row, found) ↦
              rw found (ground (arith, find_meets (of_source source) cursors row found))
        ])
  | inr fresh ↦ rw fresh (find-append_ne (of_source source) cursors c other)
]

pub lt_int-of_le_int : (a b : ℤ) → le_int a b ≡ false → lt_int a b ≡ false
lt_int-of_le_int (pos a) (pos b) h = ground arith
lt_int-of_le_int (pos a) (negsuc b) h = refl
lt_int-of_le_int (negsuc a) (pos b) h = ground arith
lt_int-of_le_int (negsuc a) (negsuc b) h = ground arith

pub lt_int_irrefl : (a : ℤ) → lt_int a a ≡ false
lt_int_irrefl (pos a) = ground arith
lt_int_irrefl (negsuc a) = ground arith
