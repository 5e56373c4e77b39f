-- ===== src/Cmux/Outbox/Keys.antt =====
-- The keys of the outbox of plugins/cmux/yatagarasu_cmux/event_outbox.py stay keys.
use yatagarasu.Cmux.Outbox.Steps.{
  Step, committing, resnapshotting, replaying, History, start, next, Outcome, Step-Outcome,
}
use yatagarasu.Cmux.Outbox.Checks.{
  IsChecked, commit_event-Keeps, record_resnapshot-Keeps, record_reconnect_replay-Keeps,
}
use yatagarasu.Prelude.{
  false, List, [], ◌∷◌, ◌++◌, ◌==◌, string_eq, any, update, All, ◌≡◌, refl, ap, ◌∙◌, inl, inr,
  Bool-cases, arith,
}
use yatagarasu.Prelude.Int.{int_eq, is_negative}
use yatagarasu.Prelude.Rows.{adjust, any-update}
use yatagarasu.Cmux.Json.{Wire}
use yatagarasu.Cmux.Outbox.{Outbox, EventCursor, cursor_of, same_triple, same_id, same_source}
use yatagarasu.Cmux.Outbox.Commits.{set_cursor}
use yatagarasu.Cmux.Outbox.Unique.{IsUnique, IsUnique-append}

-- the keys of the four tables, and their CHECKs on seq
pub record IsConsistent (s : Outbox) : Type 0 where
  pub triples : IsUnique same_triple s.events
  pub ids : IsUnique same_id s.events
  pub sources : IsUnique same_source s.cursors
  pub not_negative : All (λ event. is_negative event.seq ≡ false) s.events
  pub cursors_not_negative : All (λ c. is_negative c.seq ≡ false) s.cursors
  pub checked : IsChecked s

All-snoc {ℓ κ} :
    {A : Type ℓ} (P : A → Type κ) (xs : List A) (y : A) → All P xs → P y → All P (xs ++ y ∷ [])
All-snoc P [] y h hy = (hy, tt)
All-snoc P (x ∷ xs) y h hy = (h.0, All-snoc P xs y h.1 hy)

module _ (c : EventCursor) where
  abbrev moved : EventCursor → EventCursor
  moved row = record row { boot_id = c.boot_id; seq = c.seq }

  moved_key :
      (x : EventCursor) → (adjust (same_source c) moved x).source_instance_id ≡ x.source_instance_id
  moved_key x = ground arith

  update-IsUnique :
      (cursors : List EventCursor)
      → IsUnique same_source cursors
      → IsUnique same_source (update (same_source c) moved cursors)
  unfolding update
  update-IsUnique [] h = tt
  update-IsUnique (x ∷ xs) h = (
    ap (λ source. any (λ b. b.source_instance_id == source) (update (same_source c) moved xs))
          (moved_key x)
        ∙ any-update (same_source x) (same_source c) moved (λ _. refl) xs
        ∙ h.0,
    update-IsUnique xs h.1,
  )

  update-not_negative :
      (cursors : List EventCursor)
      → is_negative c.seq ≡ false
      → All (λ row. is_negative row.seq ≡ false) cursors
      → All (λ row. is_negative row.seq ≡ false) (update (same_source c) moved cursors)
  unfolding update
  update-not_negative [] positive h = tt
  update-not_negative (x ∷ xs) positive h = (ground arith, update-not_negative xs positive h.1)

  set_cursor-keys :
      (cursors : List EventCursor)
      → is_negative c.seq ≡ false
      → IsUnique same_source cursors
      → All (λ row. is_negative row.seq ≡ false) cursors
      → IsUnique same_source (set_cursor c cursors)
        × All (λ row. is_negative row.seq ≡ false) (set_cursor c cursors)
  set_cursor-keys cursors positive unique h = elim (Bool-cases (any (same_source c) cursors)) [
    | inl known ↦ rw known (update-IsUnique cursors unique, update-not_negative cursors positive h)
    | inr new ↦ rw new (
      IsUnique-append same_source (λ a b. ground arith) cursors c unique new,
      All-snoc (λ row. is_negative row.seq ≡ false) cursors c h positive,
    )
  ]

Outcome-IsConsistent : (s t : Outbox) → IsConsistent s → Outcome s t → IsChecked t → IsConsistent t
Outcome-IsConsistent s t k (inl kept) checked = record {
  triples = rw kept.0 k.triples;
  ids = rw kept.0 k.ids;
  sources = rw kept.1 k.sources;
  not_negative = rw kept.0 k.not_negative;
  cursors_not_negative = rw kept.1 k.cursors_not_negative;
  checked = checked;
}
Outcome-IsConsistent s t k (inr (inl (event, _, new))) checked =
    let set =
      set_cursor-keys (cursor_of event) s.cursors new.not_negative k.sources
        k.cursors_not_negative in
    rw new.after (record {
      triples =
          IsUnique-append same_triple (λ a b. ground arith) s.events event k.triples new.new_triple;
      ids = IsUnique-append same_id (λ a b. ground arith) s.events event k.ids new.new_id;
      sources = set.0;
      not_negative =
          All-snoc (λ e. is_negative e.seq ≡ false) s.events event k.not_negative new.not_negative;
      cursors_not_negative = set.1;
      checked = rw new.after at checked;
    })
Outcome-IsConsistent s t k (inr (inr (c, moved_to))) checked =
    let set = set_cursor-keys c s.cursors moved_to.not_negative k.sources k.cursors_not_negative in
    record {
      triples = rw moved_to.same_events k.triples;
      ids = rw moved_to.same_events k.ids;
      sources = rw moved_to.set set.0;
      not_negative = rw moved_to.same_events k.not_negative;
      cursors_not_negative = rw moved_to.set set.1;
      checked = checked;
    }

Step-IsChecked : {wire : Wire} {s t : Outbox} → Step wire s t → IsChecked s → IsChecked t
Step-IsChecked {wire} {s} (committing event permit) = commit_event-Keeps wire event permit s
Step-IsChecked {wire} {s} (resnapshotting c snapshots n) =
    record_resnapshot-Keeps wire c snapshots n s
Step-IsChecked {wire} {s} (replaying c counts) = record_reconnect_replay-Keeps wire c counts s

-- Whatever calls are made on an outbox whose keys are unique and whose sequence numbers are not
-- negative: no two events share their triple, no two events of a source share their ID, no source
-- has two cursors or two baselines of one method, and no event, cursor, audit row or baseline has a
-- negative sequence number.
pub History-IsConsistent :
    {wire : Wire} {s t : Outbox} → History wire s t → IsConsistent s → IsConsistent t
History-IsConsistent start k = k
History-IsConsistent {s} {t} (next {middle} past step) k =
    let before = History-IsConsistent past k in
    Outcome-IsConsistent middle t before (Step-Outcome step) (Step-IsChecked step before.checked)
