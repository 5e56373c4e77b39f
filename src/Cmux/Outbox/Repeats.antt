-- ===== src/Cmux/Outbox/Repeats.antt =====
-- `commit_event` of plugins/cmux/yatagarasu_cmux/event_outbox.py, a second time.
use yatagarasu.Prelude.{Bool, true, some, string_eq, find, ◌≡◌, inl, inr, arith}
use yatagarasu.Prelude.Int.{int_eq}
use yatagarasu.Prelude.Rows.{find-eq-none, find-append_self}
use yatagarasu.Cmux.Calls.{returned}
use yatagarasu.Cmux.Json.{Wire}
use yatagarasu.Cmux.Outbox.{
  Outbox, DerivedEvent, CommitDisposition, duplicate, same_triple, same_event, validate_event,
  commit_body, commit_event,
}
use yatagarasu.Cmux.Outbox.Commits.{commit_event-cases}

same_triple_refl : (event : DerivedEvent) → same_triple event event ≡ true
same_triple_refl event = ground arith

same_event_refl : (event : DerivedEvent) → same_event event event ≡ true
same_event_refl event = ground arith

module _ (wire : Wire) (event : DerivedEvent) (permit again : Bool) (s : Outbox) where
  known_again :
      (row : DerivedEvent) (t : Outbox)
      → validate_event wire event ≡ returned tt
      → find (same_triple event) t.events ≡ some row
      → same_event row event ≡ true
      → commit_event wire event again t ≡ (returned duplicate, t)
  unfolding commit_event commit_body
  known_again row t valid found same = rw (valid, commit_body, found, same)

  -- An event that was committed is a duplicate when it is committed again, whether a change of
  -- boot is then permitted or not, and nothing changes.
  pub commit_event-commit_event :
      {d : CommitDisposition} {t : Outbox}
      → commit_event wire event permit s ≡ (returned d, t)
      → commit_event wire event again t ≡ (returned duplicate, t)
  commit_event-commit_event {d} {t} h =
      let (valid, outcome) = commit_event-cases wire event permit s h in
      elim outcome [
        | inl (_, new) ↦
            let fresh = find-eq-none (same_triple event) s.events new.new_triple in
            let stored =
              find-append_self (same_triple event) s.events event fresh (same_triple_refl event) in
            known_again event t valid (rw new.after stored) (same_event_refl event)
        | inr (_, known) ↦ known_again known.row t valid (rw known.unchanged known.found) known.same
      ]
