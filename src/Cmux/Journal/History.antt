-- ===== src/Cmux/Journal/History.antt =====
-- The life of a row of the journal under `prepare` and `settle` of plugins/cmux/yatagarasu_cmux/journal.py.
use yatagarasu.Cmux.Journal.Lifecycle.{change_of, settle-cases}
use mathlib.Core.List.{append-nil, append_assoc}
use yatagarasu.Prelude.{
  ℕ, String, Bool, true, false, some, List, [], ◌∷◌, ◌++◌, ◌==◌, string_eq, ◌≡◌, refl, sym, ◌∙◌,
  inl, inr, ◌⊎◌, any, update, contains, Bool-cases, arith, subst,
}
use yatagarasu.Prelude.Rows.{adjust, find-update, find-append, any_of_find, find_meets}
use yatagarasu.Cmux.Journal.{
  is_terminal, JournalState, prepared, injected, acked, ambiguous, same_state, legal, JournalRow,
  Journal, get, prepare, merge_events, update_row, settle,
}

-- by moves of LEGAL_TRANSITIONS
pub data Reaches (before : JournalState) : JournalState → Type 0 where
  stay : Reaches before before
  move :
      {middle after : JournalState}
      → Reaches before middle
      → legal middle after ≡ true
      → Reaches before after

merge_events-extra :
    (merged events : List String)
    → (extra : List String) × (merge_events merged events ≡ merged ++ extra)
unfolding merge_events
merge_events-extra merged [] = ([], sym (append-nil merged))
merge_events-extra merged (event ∷ events) = elim (Bool-cases (contains merged event)) [
  | inl known ↦ let (extra, e) = merge_events-extra merged events in (extra, rw (known, e) refl)
  | inr fresh ↦
      let (extra, e) = merge_events-extra (merged ++ event ∷ []) events in
      (event ∷ extra, rw (fresh, e) (append_assoc merged (event ∷ []) extra))
]

-- What two looks at a delivery's row have in common, the second the later one.
pub record Later (before after : JournalRow) : Type 0 where
  pub same_delivery : after.delivery_id ≡ before.delivery_id
  pub same_binding : after.binding_id ≡ before.binding_id
  pub same_seat : after.seat_id ≡ before.seat_id
  pub same_marker : after.marker ≡ before.marker
  pub same_time : after.prepared_at ≡ before.prepared_at
  pub reaches : Reaches before.state after.state
  pub extra : List String
  pub appends : after.source_events ≡ before.source_events ++ extra

Later-refl : (row : JournalRow) → Later row row
Later-refl row = record {
  same_delivery = refl;
  same_binding = refl;
  same_seat = refl;
  same_marker = refl;
  same_time = refl;
  reaches = stay;
  extra = [];
  appends = sym (append-nil row.source_events);
}

Reaches-trans : {a b c : JournalState} → Reaches a b → Reaches b c → Reaches a c
Reaches-trans r stay = r
Reaches-trans r (move q step) = move (Reaches-trans r q) step

Later-trans : {a b c : JournalRow} → Later a b → Later b c → Later a c
Later-trans {a} p q = record {
  same_delivery = q.same_delivery ∙ p.same_delivery;
  same_binding = q.same_binding ∙ p.same_binding;
  same_seat = q.same_seat ∙ p.same_seat;
  same_marker = q.same_marker ∙ p.same_marker;
  same_time = q.same_time ∙ p.same_time;
  reaches = Reaches-trans p.reaches q.reaches;
  extra = p.extra ++ q.extra;
  appends = rw (q.appends, p.appends) (append_assoc a.source_events p.extra q.extra);
}

pub data Step (before : Journal) : Journal → Type 0 where
  preparing :
      (delivery_id binding_id seat_id marker : String) (now : ℕ)
      → Step before (prepare delivery_id binding_id seat_id marker now before).1
  settling :
      (delivery_id : String) (state : JournalState) (now : ℕ) (source_events : List String)
      (detail : String)
      → Step before (settle delivery_id state now source_events detail before).1

-- any number of calls, one after the other
pub data History (before : Journal) : Journal → Type 0 where
  start : History before before
  next : {middle after : Journal} → History before middle → Step middle after → History before after

abbrev Kept : String → JournalRow → Journal → Type 0
Kept id row journal = (row' : JournalRow) × (get id journal ≡ some row') × Later row row'

prepare-Kept :
    (delivery_id binding_id seat_id marker : String) (now : ℕ) (journal : Journal) (id : String)
    (row : JournalRow)
    → get id journal ≡ some row
    → Kept id row (prepare delivery_id binding_id seat_id marker now journal).1
unfolding prepare get
prepare-Kept delivery_id binding_id seat_id marker now journal id row h =
    elim (Bool-cases (any (λ r. r.delivery_id == delivery_id) journal)) [
      | inl known ↦ rw known (row, h, Later-refl row)
      | inr fresh ↦ rw fresh (
        row,
        rw
            (
              find-append (λ (r : JournalRow). r.delivery_id == id) journal,
              any_of_find (λ (r : JournalRow). r.delivery_id == id) journal row h,
            )
            h,
        Later-refl row,
      )
    ]

reached :
    (before after : JournalState)
    → (before ≡ after) ⊎ (legal before after ≡ true)
    → Reaches before after
reached before after (inl same) = subst (Reaches before) same stay
reached before after (inr moves) = move stay moves

changed-Later :
    (delivery_id : String) (state : JournalState) (now : ℕ) (source_events : List String)
    (detail : String) (row : JournalRow)
    → (row.state ≡ state) ⊎ (legal row.state state ≡ true)
    → Later row (change_of delivery_id state now source_events detail row row)
changed-Later delivery_id state now source_events detail row allowed =
    let (extra, e) = merge_events-extra row.source_events source_events in
    record {
      same_delivery = refl;
      same_binding = refl;
      same_seat = refl;
      same_marker = refl;
      same_time = refl;
      reaches = reached row.state state allowed;
      extra = extra;
      appends = e;
    }

same_key :
    (id delivery_id : String) (row found : JournalRow) (journal : Journal)
    → get id journal ≡ some row
    → get delivery_id journal ≡ some found
    → (row.delivery_id == delivery_id) ≡ true
    → found ≡ row
unfolding get
same_key id delivery_id row found journal h h' same =
    ground (arith, find_meets (λ (r : JournalRow). r.delivery_id == id) journal row h)

lookup :
    (id : String) (q : JournalRow → Bool) (change : JournalRow → JournalRow)
    (keeps : (r : JournalRow) → (change r).delivery_id ≡ r.delivery_id) (journal : Journal)
    (row : JournalRow)
    → get id journal ≡ some row
    → get id (update q change journal) ≡ some (adjust q change row)
unfolding get
lookup id q change keeps journal row h =
    rw (find-update (λ r. r.delivery_id == id) q change (λ r. rw (keeps r)) journal, h)

updated-Kept :
    (delivery_id : String) (state : JournalState) (now : ℕ) (source_events : List String)
    (detail : String) (journal : Journal) (id : String) (row found : JournalRow)
    → get id journal ≡ some row
    → get delivery_id journal ≡ some found
    → (found.state ≡ state) ⊎ (legal found.state state ≡ true)
    → Kept id row (
        update_row delivery_id (change_of delivery_id state now source_events detail found) journal)
updated-Kept delivery_id state now source_events detail journal id row found h h' allowed =
    let change = change_of delivery_id state now source_events detail found in
    let same_key_as : JournalRow → Bool = λ r. r.delivery_id == delivery_id in
    let e = lookup id same_key_as change (λ r. refl) journal row h in
    elim (Bool-cases (row.delivery_id == delivery_id)) [
      | inl same ↦
          let is = same_key id delivery_id row found journal h h' same in
          (
            change row,
            e ∙ rw same refl,
            subst (λ (r : JournalRow). Later r (change r)) is
                (changed-Later delivery_id state now source_events detail found allowed),
          )
      | inr other ↦ (row, e ∙ rw other refl, Later-refl row)
    ]

settle-Kept :
    (delivery_id : String) (state : JournalState) (now : ℕ) (source_events : List String)
    (detail : String) (journal : Journal) (id : String) (row : JournalRow)
    → get id journal ≡ some row
    → Kept id row (settle delivery_id state now source_events detail journal).1
settle-Kept delivery_id state now source_events detail journal id row h =
    elim (settle-cases delivery_id state now source_events detail journal) [
      | inl (message, e, why) ↦ rw e (row, h, Later-refl row)
      | inr done ↦ rw done.updates (
          updated-Kept delivery_id state now source_events detail journal id row done.row h
            done.found done.allowed)
    ]

-- Once a delivery has a row, it has one after any further calls of `prepare` and `settle`, with the
-- same binding, seat, marker and time of preparation; its state has moved by legal transitions only,
-- and the earlier evidence is a prefix of the later.
pub History-Later :
    {before after : Journal}
    → History before after
    → (id : String) (row : JournalRow) → get id before ≡ some row
    → (row' : JournalRow) × (get id after ≡ some row') × Later row row'
History-Later start id row h = (row, h, Later-refl row)
History-Later (next {middle} past (preparing d b s m now)) id row h =
    let (row', found, later) = History-Later past id row h in
    let (row'', found', later') = prepare-Kept d b s m now middle id row' found in
    (row'', found', Later-trans later later')
History-Later (next {middle} past (settling d state now events detail)) id row h =
    let (row', found, later) = History-Later past id row h in
    let (row'', found', later') = settle-Kept d state now events detail middle id row' found in
    (row'', found', Later-trans later later')

closed_states :
    (before after : JournalState)
    → any (same_state before) (acked ∷ ambiguous ∷ []) ≡ true
    → legal before after ≡ false
unfolding any
closed_states prepared after h = cc
closed_states injected after h = cc
closed_states acked after h = refl
closed_states ambiguous after h = refl

Reaches-terminal :
    {before after : JournalState}
    → any (same_state before) (acked ∷ ambiguous ∷ []) ≡ true
    → Reaches before after
    → after ≡ before
Reaches-terminal h stay = refl
Reaches-terminal {before} {after} h (move {middle} r step) =
    let e = Reaches-terminal h r in
    let shut = closed_states before after h in let step' = rw e at step in cc

-- A row in state acked or ambiguous keeps that state, whatever calls of `prepare` and `settle`
-- follow.
pub History-terminal :
    {before after : Journal}
    → History before after
    → (id : String) (row : JournalRow) → get id before ≡ some row
    → is_terminal row ≡ true
    → (row' : JournalRow) × (get id after ≡ some row') × (row'.state ≡ row.state)
History-terminal past id row h closed =
    let (row', found, later) = History-Later past id row h in
    (row', found, Reaches-terminal closed later.reaches)
