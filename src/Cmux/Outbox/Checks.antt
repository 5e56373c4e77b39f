-- ===== src/Cmux/Outbox/Checks.antt =====
-- The tables stream_audit and stream_snapshot_baseline of
-- plugins/cmux/yatagarasu_cmux/event_outbox.py: their CHECKs on seq, and the baselines' key.
use yatagarasu.Prelude.{
  String, Bool, false, not, List, [], ◌∷◌, string_eq, any, update, All, ◌≡◌, refl, ap, ◌∙◌, inl,
  inr, Bool-cases, arith,
}
use yatagarasu.Prelude.Int.{ℤ, int_eq, is_negative}
use yatagarasu.Prelude.Rows.{adjust, any-update, All-append}
use yatagarasu.Cmux.Calls.{
  Action, Answer, returned, raised, outbox_error, refuse_if, lift, transaction, close, for_each,
  ◌>>=◌,
}
use yatagarasu.Cmux.Calls.Laws.{Answer-cases, whole_answer}
use yatagarasu.Cmux.Calls.Related
use yatagarasu.Cmux.Calls.Related.{IsRelated, Relates}
use yatagarasu.Cmux.Json.{Wire}
use yatagarasu.Cmux.Outbox.{
  Outbox, DerivedEvent, EventCursor, SnapshotBaseline, StoredBaseline, StreamAudit, ReplayCounts,
  cursor, same_baseline, is_durable, upsert_baseline, baseline_row, insert_audit, upsert_cursor,
  check_resnapshot, resnapshot_detail, write_resnapshot, record_resnapshot, record_reconnect_replay,
  commit_event,
}
use yatagarasu.Cmux.Outbox.Commits.{commit_event-cases, commit_event-raised}
use yatagarasu.Cmux.Outbox.Unique.{IsUnique, IsUnique-append}

-- no audit row and no baseline has a negative sequence number, and no two baselines of a source are
-- of one method
pub record IsChecked (s : Outbox) : Type 0 where
  pub audits : All (λ row. is_negative row.seq ≡ false) s.audits
  pub baselines : All (λ row. is_negative row.seq ≡ false) s.baselines
  pub methods : IsUnique same_baseline s.baselines

abbrev Keeps : Outbox → Outbox → Type 0
Keeps s t = IsChecked s → IsChecked t

Keeps-trans : (s t u : Outbox) → Keeps s t → Keeps t u → Keeps s u
Keeps-trans s t u first second k = second (first k)

abbrev KeepsChecked : {A : Type 0} → Action Outbox A → Type 0
KeepsChecked m = Relates Keeps m

module _ (row : StoredBaseline) where
  abbrev replaced : StoredBaseline → StoredBaseline
  replaced old = record old {
    boot_id = row.boot_id;
    seq = row.seq;
    snapshot_json = row.snapshot_json;
  }

  replaced_key :
      (x b : StoredBaseline)
      → same_baseline (adjust (same_baseline row) replaced x) b ≡ same_baseline x b
  replaced_key x b = ground arith

  any-replaced :
      (x : StoredBaseline) (rows : List StoredBaseline)
      → any (same_baseline (adjust (same_baseline row) replaced x)) rows
        ≡ any (same_baseline x) rows
  unfolding any
  any-replaced x [] = refl
  any-replaced x (b ∷ rows) = ground (arith, replaced_key x b, any-replaced x rows)

  update-methods :
      (rows : List StoredBaseline)
      → IsUnique same_baseline rows
      → IsUnique same_baseline (update (same_baseline row) replaced rows)
  unfolding update
  update-methods [] h = tt
  update-methods (x ∷ xs) h = (
    any-replaced x (update (same_baseline row) replaced xs)
        ∙ any-update (same_baseline x) (same_baseline row) replaced (λ _. refl) xs
        ∙ h.0,
    update-methods xs h.1,
  )

  update-baselines :
      (rows : List StoredBaseline)
      → is_negative row.seq ≡ false
      → All (λ b. is_negative b.seq ≡ false) rows
      → All (λ b. is_negative b.seq ≡ false) (update (same_baseline row) replaced rows)
  unfolding update
  update-baselines [] positive h = tt
  update-baselines (x ∷ xs) positive h = (ground arith, update-baselines xs positive h.1)

  upserted :
      (s : Outbox) → is_negative row.seq ≡ false → IsChecked s → IsChecked (upsert_baseline row s).1
  unfolding upsert_baseline
  upserted s positive k = elim (Bool-cases (any (same_baseline row) s.baselines)) [
    | inl known ↦
        rw (positive, known)
          (record {
            audits = k.audits;
            baselines = update-baselines s.baselines positive k.baselines;
            methods = update-methods s.baselines k.methods;
          })
    | inr new ↦
        rw (positive, new)
          (record {
            audits = k.audits;
            baselines =
                All-append (λ (b : StoredBaseline). is_negative b.seq ≡ false) s.baselines
                  (row ∷ []) k.baselines (positive, tt);
            methods =
                IsUnique-append same_baseline (λ a b. ground arith) s.baselines row k.methods new;
          })
  ]

  upsert_baseline-Keeps : KeepsChecked (upsert_baseline row)
  unfolding upsert_baseline
  upsert_baseline-Keeps s = elim (Bool-cases (is_negative row.seq)) [
    | inl negative ↦ record { related = λ k. rw negative k }
    | inr positive ↦ record { related = upserted s positive }
  ]

insert_audit-Keeps : (row : StreamAudit) → KeepsChecked (insert_audit row)
unfolding insert_audit
insert_audit-Keeps row s = elim (Bool-cases (is_negative row.seq)) [
  | inl negative ↦ record { related = λ k. rw negative k }
  | inr positive ↦ record {
    related = λ k. rw positive (record {
      audits =
          All-append (λ (a : StreamAudit). is_negative a.seq ≡ false) s.audits (row ∷ []) k.audits
            (positive, tt);
      baselines = k.baselines;
      methods = k.methods;
    });
  }
]

-- an action that leaves both tables alone
abbrev Spares : Outbox → Outbox → Type 0
Spares s t = (t.audits ≡ s.audits) × (t.baselines ≡ s.baselines)

Spares-trans : (s t u : Outbox) → Spares s t → Spares t u → Spares s u
Spares-trans s t u first second = (second.0 ∙ first.0, second.1 ∙ first.1)

Spares-Keeps : (s t : Outbox) → Spares s t → Keeps s t
Spares-Keeps s t same k = record {
  audits = rw same.0 k.audits;
  baselines = rw same.1 k.baselines;
  methods = rw same.1 k.methods;
}

upsert_cursor-Spares : (c : EventCursor) → Relates Spares (upsert_cursor c)
unfolding upsert_cursor
upsert_cursor-Spares c s = record { related = (ground arith, ground arith) }

spared : {A : Type 0} (m : Action Outbox A) → Relates Spares m → KeepsChecked m
spared m h s = record { related = Spares-Keeps s (m s).1 (h s).related }

bind_Keeps :
    {A B : Type 0} (m : Action Outbox A) (f : A → Action Outbox B)
    → KeepsChecked m
    → ((a : A) → KeepsChecked (f a))
    → KeepsChecked (m >>= f)
bind_Keeps m f first rest s = Related.bind_IsRelated Keeps Keeps-trans m f s first rest

lift_Keeps : {A : Type 0} (answer : Answer A) → KeepsChecked (lift answer)
lift_Keeps answer s = record { related = λ k. k }

close-Keeps :
    {A : Type 0} (s : Outbox) (answer : Answer A) (t : Outbox)
    → Keeps s t
    → IsRelated Keeps A s (close s answer t)
close-Keeps s (returned a) t h = record { related = h }
close-Keeps s (raised e) t h = record { related = λ k. k }

transaction_Keeps :
    {A : Type 0} (m : Action Outbox A) → KeepsChecked m → KeepsChecked (transaction m)
transaction_Keeps m h s = close-Keeps s (m s).0 (m s).1 (h s).related

for_each_Keeps :
    {A : Type 0} (body : A → Action Outbox (Unit {0}))
    → ((a : A) → KeepsChecked (body a))
    → (xs : List A) → KeepsChecked (for_each body xs)
unfolding for_each
for_each_Keeps body h [] s = record { related = λ k. k }
for_each_Keeps body h (x ∷ xs) s =
    bind_Keeps (body x) (λ _. for_each body xs) (h x) (λ _. for_each_Keeps body h xs) s

write_resnapshot-Keeps :
    (c : EventCursor) (snapshots : List SnapshotBaseline) (detail : String)
    → KeepsChecked (write_resnapshot c snapshots detail)
unfolding write_resnapshot
write_resnapshot-Keeps c snapshots detail =
    bind_Keeps (for_each (λ snapshot. upsert_baseline (baseline_row c snapshot)) snapshots) _
      (for_each_Keeps _ (λ snapshot. upsert_baseline-Keeps (baseline_row c snapshot)) snapshots)
      (λ _.
        bind_Keeps (insert_audit _) _ (insert_audit-Keeps _)
          (λ _. spared (upsert_cursor c) (upsert_cursor-Spares c)))

module _ (wire : Wire) where
  pub record_resnapshot-Keeps :
      (c : EventCursor) (snapshots : List SnapshotBaseline) (replay_count : ℤ) (s : Outbox)
      → IsChecked s
      → IsChecked (record_resnapshot wire c snapshots replay_count s).1
  unfolding record_resnapshot
  record_resnapshot-Keeps c snapshots replay_count s =
      (bind_Keeps (lift (check_resnapshot wire c snapshots (cursor c.source_instance_id s))) _
        (lift_Keeps _)
        (λ _.
          transaction_Keeps _
            (write_resnapshot-Keeps c snapshots (resnapshot_detail wire snapshots replay_count)))
        s).related

  pub record_reconnect_replay-Keeps :
      (c : EventCursor) (counts : ReplayCounts) (s : Outbox)
      → IsChecked s
      → IsChecked (record_reconnect_replay wire c counts s).1
  unfolding record_reconnect_replay
  record_reconnect_replay-Keeps c counts s =
      (bind_Keeps
        (lift (
          refuse_if (not (is_durable c (cursor c.source_instance_id s)))
            (outbox_error "reconnect audit cursor is not the durable winner")))
        _ (lift_Keeps _) (λ _. transaction_Keeps _ (insert_audit-Keeps _)) s).related

  commit_event-Spares :
      (event : DerivedEvent) (permit : Bool) (s : Outbox)
      → Spares s (commit_event wire event permit s).1
  commit_event-Spares event permit s = elim (Answer-cases (commit_event wire event permit s).0) [
    | inl (d, e) ↦
        elim (commit_event-cases wire event permit s
          (whole_answer (commit_event wire event permit s) e)).1 [
            | inl (_, new) ↦ (ap (λ x. x.audits) new.after, ap (λ x. x.baselines) new.after)
            | inr (_, known) ↦
                (ap (λ x. x.audits) known.unchanged, ap (λ x. x.baselines) known.unchanged)
          ]
    | inr (_, e) ↦
        let same =
          (commit_event-raised wire event permit s
            (whole_answer (commit_event wire event permit s) e)).0 in
        (ap (λ x. x.audits) same, ap (λ x. x.baselines) same)
  ]

  pub commit_event-Keeps :
      (event : DerivedEvent) (permit : Bool) (s : Outbox)
      → IsChecked s
      → IsChecked (commit_event wire event permit s).1
  commit_event-Keeps event permit s =
      Spares-Keeps s (commit_event wire event permit s).1 (commit_event-Spares event permit s)
