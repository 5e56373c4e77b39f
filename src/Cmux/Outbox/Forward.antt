-- ===== src/Cmux/Outbox/Forward.antt =====
-- The durable cursor of plugins/cmux/yatagarasu_cmux/event_outbox.py does not go back in a boot.
use yatagarasu.Cmux.Outbox.Steps.{Step, Outcome, Step-Outcome}
use yatagarasu.Prelude.{
  String, Bool, false, some, ◌==◌, string_eq, find, ◌≡◌, ap, sym, ◌∙◌, inl, inr, Bool-cases, arith,
}
use yatagarasu.Prelude.Int.{int_eq, lt_int}
use yatagarasu.Cmux.Calls.{returned}
use yatagarasu.Cmux.Json.{Wire}
use yatagarasu.Cmux.Outbox.{
  Outbox, DerivedEvent, EventCursor, cursor, cursor_of, regresses, check_cursor,
}
use yatagarasu.Cmux.Outbox.Commits.{set_cursor}
use yatagarasu.Cmux.Outbox.Cursors.{
  find-set_cursor_self, find-set_cursor_ne, lt_int-of_le_int, lt_int_irrefl,
}

abbrev IsForward : EventCursor → EventCursor → Type 0
IsForward c c' = c'.boot_id ≡ c.boot_id → lt_int c'.seq c.seq ≡ false

check_cursor-IsForward :
    (event : DerivedEvent) (permit : Bool) (c : EventCursor)
    → check_cursor event permit (some c) ≡ returned tt
    → IsForward c (cursor_of event)
unfolding check_cursor
check_cursor-IsForward event permit c h same = lt_int-of_le_int event.seq c.seq (ground arith)

regresses-IsForward :
    (c current : EventCursor) → regresses c (some current) ≡ false → IsForward current c
regresses-IsForward c current h same = ground arith

module _ (source : String) (s : Outbox) (c : EventCursor) (stood : cursor source s ≡ some c) where
  abbrev Reads : Outbox → Type 0
  Reads t = (c' : EventCursor) × (cursor source t ≡ some c') × IsForward c c'

  -- the cursors after an upsert of a cursor that is forward where it is of this source
  set-Reads :
      (t : Outbox) (set : EventCursor)
      → t.cursors ≡ set_cursor set s.cursors
      → (cursor set.source_instance_id s ≡ some c → IsForward c set)
      → Reads t
  unfolding cursor
  set-Reads t set after forward = elim (Bool-cases (set.source_instance_id == source)) [
    | inl own ↦
        let same : set.source_instance_id ≡ source = ground arith in
        (
          set,
          ap (λ k. find (λ row. row.source_instance_id == k) t.cursors) (sym same)
              ∙ rw after (find-set_cursor_self set s.cursors),
          forward (ap (λ k. find (λ row. row.source_instance_id == k) s.cursors) same ∙ stood),
        )
    | inr other ↦ (
      c,
      rw after (find-set_cursor_ne source set s.cursors other ∙ stood),
      λ same. lt_int_irrefl c.seq,
    )
  ]

  Outcome-Reads : (t : Outbox) → Outcome s t → Reads t
  unfolding cursor
  Outcome-Reads t (inl kept) = (c, rw kept.1 stood, λ same. lt_int_irrefl c.seq)
  Outcome-Reads t (inr (inl (event, permit, new))) =
      set-Reads t (cursor_of event) (ap (λ x. x.cursors) new.after)
        (λ found. check_cursor-IsForward event permit c (rw found at new.permitted))
  Outcome-Reads t (inr (inr (set, moved))) =
      set-Reads t set moved.set (λ found. regresses-IsForward set c (rw found at moved.forwards))

  -- A call never takes the durable cursor of a source away, and as long as the boot stays the same
  -- it does not move it back.
  pub Step-forward :
      {wire : Wire} {t : Outbox}
      → Step wire s t
      → (c' : EventCursor) × (cursor source t ≡ some c')
        × (c'.boot_id ≡ c.boot_id → lt_int c'.seq c.seq ≡ false)
  Step-forward {wire} {t} step = Outcome-Reads t (Step-Outcome step)
