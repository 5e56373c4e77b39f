-- ===== src/Cmux/Outbox/Steps.antt =====
-- Any sequence of calls on the outbox of plugins/cmux/yatagarasu_cmux/event_outbox.py.
use mathlib.Core.List.{append-nil, append_assoc}
use yatagarasu.Prelude.{Bool, List, [], ◌∷◌, ◌++◌, string_eq, ◌≡◌, ap, sym, ◌∙◌, ◌⊎◌, inl, inr}
use yatagarasu.Prelude.Int.{ℤ, int_eq}
use yatagarasu.Cmux.Calls.Laws.{Answer-cases, whole_answer}
use yatagarasu.Cmux.Json.{Wire}
use yatagarasu.Cmux.Outbox.{
  Outbox, DerivedEvent, EventCursor, SnapshotBaseline, ReplayCounts, commit_event,
  record_resnapshot, record_reconnect_replay,
}
use yatagarasu.Cmux.Outbox.Commits.{Inserted, commit_event-cases, commit_event-raised}
use yatagarasu.Cmux.Outbox.Resnapshots.{
  Moved, Keeps, record_resnapshot-Moved, record_resnapshot-raised, record_reconnect_replay-Keeps,
}

pub data Step (wire : Wire) (before : Outbox) : Outbox → Type 0 where
  committing :
      (event : DerivedEvent) (permit : Bool)
      → Step wire before (commit_event wire event permit before).1
  resnapshotting :
      (c : EventCursor) (snapshots : List SnapshotBaseline) (replay_count : ℤ)
      → Step wire before (record_resnapshot wire c snapshots replay_count before).1
  replaying :
      (c : EventCursor) (counts : ReplayCounts)
      → Step wire before (record_reconnect_replay wire c counts before).1

pub data History (wire : Wire) (before : Outbox) : Outbox → Type 0 where
  start : History wire before before
  next :
      {middle after : Outbox}
      → History wire before middle
      → Step wire middle after
      → History wire before after

abbrev pub Outcome : Outbox → Outbox → Type 0
Outcome s t =
    Keeps s t
    ⊎ ((event : DerivedEvent) × (permit : Bool) × Inserted event permit s t)
    ⊎ ((c : EventCursor) × Moved c s t)

pub Step-Outcome : {wire : Wire} {s t : Outbox} → Step wire s t → Outcome s t
Step-Outcome {wire} {s} (committing event permit) =
    elim (Answer-cases (commit_event wire event permit s).0) [
      | inl (d, e) ↦
          elim (commit_event-cases wire event permit s
            (whole_answer (commit_event wire event permit s) e)).1 [
              | inl (_, new) ↦ inr (inl (event, permit, new))
              | inr (_, known) ↦
                  inl (ap (λ x. x.events) known.unchanged, ap (λ x. x.cursors) known.unchanged)
            ]
      | inr (_, e) ↦
          let same =
            (commit_event-raised wire event permit s
              (whole_answer (commit_event wire event permit s) e)).0 in
          inl (ap (λ x. x.events) same, ap (λ x. x.cursors) same)
    ]
Step-Outcome {wire} {s} (resnapshotting c snapshots n) =
    elim (Answer-cases (record_resnapshot wire c snapshots n s).0) [
      | inl (_, e) ↦ inr (
          inr (
            c,
            record_resnapshot-Moved wire c snapshots n s
                (whole_answer (record_resnapshot wire c snapshots n s) e),
          ))
      | inr (_, e) ↦
          let same =
            record_resnapshot-raised wire c snapshots n s
              (whole_answer (record_resnapshot wire c snapshots n s) e) in
          inl (ap (λ x. x.events) same, ap (λ x. x.cursors) same)
    ]
Step-Outcome {wire} {s} (replaying c counts) = inl (record_reconnect_replay-Keeps wire c counts s)

-- The events of the outbox are never changed, dropped or reordered: those of any earlier time are a
-- prefix of those of any later time.
pub History-appends :
    {wire : Wire} {s t : Outbox}
    → History wire s t
    → (extra : List DerivedEvent) × (t.events ≡ s.events ++ extra)
History-appends {s} start = ([], sym (append-nil s.events))
History-appends {s} (next past step) =
    let (extra, e) = History-appends past in
    elim (Step-Outcome step) [
      | inl kept ↦ (extra, kept.0 ∙ e)
      | inr (inl (event, _, new)) ↦ (
        extra ++ event ∷ [],
        ap (λ x. x.events) new.after
            ∙ ap (λ xs. xs ++ event ∷ []) e
            ∙ append_assoc s.events extra (event ∷ []),
      )
      | inr (inr (_, moved)) ↦ (extra, moved.same_events ∙ e)
    ]
