-- ===== src/Cmux/Outbox/Resnapshots.antt =====
-- `record_resnapshot` and `record_reconnect_replay` of
-- plugins/cmux/yatagarasu_cmux/event_outbox.py, by what they change.
use yatagarasu.Prelude.{
  String, false, Option, List, [], ◌∷◌, string_eq, ◌≡◌, ap, sym, ◌∙◌, inl, inr, arith,
}
use yatagarasu.Prelude.Int.{ℤ, is_negative}
use yatagarasu.Cmux.Calls.{Action, Error, returned, raised, transaction, for_each}
use yatagarasu.Cmux.Calls.Laws.{
  both_answer, checked-eq-returned, checked-eq-raised, transaction-eq-raised,
  transaction-eq-returned,
}
use yatagarasu.Cmux.Json.{Wire}
use yatagarasu.Cmux.Outbox.{
  Outbox, EventCursor, SnapshotBaseline, StoredBaseline, StreamAudit, ReplayCounts, cursor,
  upsert_baseline, baseline_row, insert_audit, upsert_cursor, check_resnapshot, regresses,
  resnapshot_detail, write_resnapshot, record_resnapshot, record_reconnect_replay,
}
use yatagarasu.Cmux.Outbox.Commits.{set_cursor}

-- the events and the cursors are as they were
abbrev pub Keeps : Outbox → Outbox → Type 0
Keeps s t = (t.events ≡ s.events) × (t.cursors ≡ s.cursors)

upsert_baseline-Keeps :
    (row : StoredBaseline) (s : Outbox) {t : Outbox}
    → upsert_baseline row s ≡ (returned tt, t)
    → Keeps s t
unfolding upsert_baseline
upsert_baseline-Keeps row s h = (ground arith, ground arith)

insert_audit-Keeps :
    (row : StreamAudit) (s : Outbox) {t : Outbox}
    → insert_audit row s ≡ (returned tt, t)
    → Keeps s t
unfolding insert_audit
insert_audit-Keeps row s h = (ground arith, ground arith)

all_baselines-Keeps :
    (c : EventCursor) (snapshots : List SnapshotBaseline) (s : Outbox) {t : Outbox}
    → for_each (λ snapshot. upsert_baseline (baseline_row c snapshot)) snapshots s
      ≡ (returned tt, t)
    → Keeps s t
unfolding for_each
all_baselines-Keeps c [] s h = (ap (λ r. r.1.events) (sym h), ap (λ r. r.1.cursors) (sym h))
all_baselines-Keeps c (snapshot ∷ snapshots) s h =
    let (_, u, first, rest) = both_answer (upsert_baseline (baseline_row c snapshot)) _ s h in
    let kept = upsert_baseline-Keeps (baseline_row c snapshot) s first in
    let after = all_baselines-Keeps c snapshots u rest in (after.0 ∙ kept.0, after.1 ∙ kept.1)

upsert_cursor-set :
    (c : EventCursor) (s : Outbox) {t : Outbox}
    → upsert_cursor c s ≡ (returned tt, t)
    → (is_negative c.seq ≡ false) × (t.events ≡ s.events) × (t.cursors ≡ set_cursor c s.cursors)
unfolding upsert_cursor
upsert_cursor-set c s h = (ground arith, ground arith, ground arith)

-- The cursor was set, not backwards in its boot, and no event was touched.
pub record Moved (c : EventCursor) (s t : Outbox) : Type 0 where
  pub same_events : t.events ≡ s.events
  pub set : t.cursors ≡ set_cursor c s.cursors
  pub forwards : regresses c (cursor c.source_instance_id s) ≡ false
  pub not_negative : is_negative c.seq ≡ false

check_resnapshot-forwards :
    (wire : Wire) (c : EventCursor) (snapshots : List SnapshotBaseline)
    (current : Option EventCursor)
    → check_resnapshot wire c snapshots current ≡ returned tt
    → regresses c current ≡ false
unfolding check_resnapshot
check_resnapshot-forwards wire c snapshots current h = ground arith

module _ (wire : Wire) (c : EventCursor) where
  write_resnapshot-set :
      (snapshots : List SnapshotBaseline) (detail : String) (s : Outbox) {t : Outbox}
      → write_resnapshot c snapshots detail s ≡ (returned tt, t)
      → (is_negative c.seq ≡ false) × (t.events ≡ s.events) × (t.cursors ≡ set_cursor c s.cursors)
  unfolding write_resnapshot
  write_resnapshot-set snapshots detail s h =
      let (_, u, e₁, h₁) =
        both_answer (for_each (λ snapshot. upsert_baseline (baseline_row c snapshot)) snapshots) _ s
          h in
      let row : StreamAudit = record {
        source_instance_id = c.source_instance_id;
        kind = "gap_resnapshot";
        boot_id = c.boot_id;
        seq = c.seq;
        detail_json = detail;
      } in
      let (_, v, e₂, h₂) = both_answer (insert_audit row) _ u h₁ in
      let first = all_baselines-Keeps c snapshots s e₁ in
      let second = insert_audit-Keeps row u e₂ in
      let (positive, same, set) = upsert_cursor-set c v h₂ in
      (positive, same ∙ second.0 ∙ first.0, set ∙ ap (set_cursor c) (second.1 ∙ first.1))

  module _ (snapshots : List SnapshotBaseline) (replay_count : ℤ) (s : Outbox) where
    abbrev current : Option EventCursor
    current = cursor c.source_instance_id s

    abbrev write : Action Outbox (Unit {0})
    write = write_resnapshot c snapshots (resnapshot_detail wire snapshots replay_count)

    pub record_resnapshot-Moved :
        {t : Outbox}
        → record_resnapshot wire c snapshots replay_count s ≡ (returned tt, t)
        → Moved c s t
    unfolding record_resnapshot
    record_resnapshot-Moved h =
        let (passes, h₁) =
          checked-eq-returned (check_resnapshot wire c snapshots current) (transaction write) s h in
        let (positive, same, set) =
          write_resnapshot-set snapshots (resnapshot_detail wire snapshots replay_count) s
            (transaction-eq-returned write s h₁) in
        record {
          same_events = same;
          set = set;
          forwards = check_resnapshot-forwards wire c snapshots current passes;
          not_negative = positive;
        }

    pub record_resnapshot-raised :
        {e : Error} {t : Outbox}
        → record_resnapshot wire c snapshots replay_count s ≡ (raised e, t)
        → t ≡ s
    unfolding record_resnapshot
    record_resnapshot-raised h =
        elim (checked-eq-raised (check_resnapshot wire c snapshots current) (transaction write) s
          h) [ inl kept ↦ kept | inr late ↦ (transaction-eq-raised write s late).2 ]

pub record_reconnect_replay-Keeps :
    (wire : Wire) (c : EventCursor) (counts : ReplayCounts) (s : Outbox)
    → Keeps s (record_reconnect_replay wire c counts s).1
unfolding record_reconnect_replay insert_audit
record_reconnect_replay-Keeps wire c counts s = (ground arith, ground arith)
