-- ===== src/Tests/OutboxExamples.antt =====
-- The theorems on the event outbox at the event of an input.
use yatagarasu.Prelude.{
  true, false, some, [], ◌∷◌, ◌++◌, find, any, update, ◌≡◌, ◌≢◌, refl, List, ◌⊎◌, string_eq, nat_eq,
}
use native.Mathlib.Decide.{ℕ_discrete}
use yatagarasu.Prelude.Int.{pos, lt_int, int_eq}
use yatagarasu.Cmux.Calls.{returned, raised, outbox_error, sqlite_integrity_error}
use yatagarasu.Cmux.Outbox.{
  Outbox, DerivedEvent, EventCursor, cursor, cursor_of, inserted, duplicate, commit_event,
  validate_event, commit_body, commit_new, check_cursor, insert_event, upsert_cursor,
}
use yatagarasu.Cmux.Outbox.Commits.{Inserted, Known, commit_event-cases, commit_event-raised}
use yatagarasu.Cmux.Outbox.Repeats.{commit_event-commit_event}
use yatagarasu.Cmux.Outbox.Steps.{committing, History, start, next, History-appends}
use yatagarasu.Cmux.Outbox.Keys.{IsConsistent, History-IsConsistent}
use yatagarasu.Cmux.Outbox.Forward.{Step-forward}
use yatagarasu.Tests.Wiring.{wire, input_event, prompt_event}

abbrev empty_outbox : Outbox
empty_outbox = record { cursors = []; events = []; audits = []; baselines = [] }

abbrev one_event : Outbox
one_event = record {
  cursors = cursor_of input_event ∷ [];
  events = input_event ∷ [];
  audits = [];
  baselines = [];
}

abbrev contradicting : DerivedEvent
contradicting = record input_event { event_name = "agent.hook.Stop" }

committed : commit_event wire input_event false empty_outbox ≡ (returned inserted, one_event)
unfolding commit_event validate_event commit_body commit_new check_cursor insert_event upsert_cursor
    cursor any find update string_eq nat_eq ℕ_discrete int_eq
committed = refl

contradicted :
    commit_event wire contradicting false one_event
    ≡ (raised (outbox_error "cursor triple already names different evidence"), one_event)
unfolding commit_event validate_event commit_body commit_new check_cursor insert_event upsert_cursor
    cursor any find update string_eq nat_eq ℕ_discrete int_eq
contradicted = refl

commit_event-cases_example :
    (validate_event wire input_event ≡ returned tt)
    × (((inserted ≡ inserted) × Inserted input_event false empty_outbox one_event)
        ⊎ ((inserted ≡ duplicate) × Known input_event empty_outbox one_event))
commit_event-cases_example = commit_event-cases wire input_event false empty_outbox committed

commit_event-raised_example :
    (one_event ≡ one_event)
    × (outbox_error "cursor triple already names different evidence" ≢ sqlite_integrity_error)
commit_event-raised_example = commit_event-raised wire contradicting false one_event contradicted

commit_event-commit_event_example :
    commit_event wire input_event true one_event ≡ (returned duplicate, one_event)
commit_event-commit_event_example =
    commit_event-commit_event wire input_event false true empty_outbox committed

abbrev after_two : Outbox
after_two = (commit_event wire prompt_event false one_event).1

history : History wire one_event after_two
history = next start (committing prompt_event false)

History-appends_example :
    (extra : List DerivedEvent) × (after_two.events ≡ one_event.events ++ extra)
History-appends_example = History-appends history

one_event-IsConsistent : IsConsistent one_event
unfolding any
one_event-IsConsistent = record {
  triples = (refl, tt);
  ids = (refl, tt);
  sources = (refl, tt);
  not_negative = (refl, tt);
  cursors_not_negative = (refl, tt);
  checked = record { audits = tt; baselines = tt; methods = tt };
}

History-IsConsistent_example : IsConsistent after_two
History-IsConsistent_example = History-IsConsistent history one_event-IsConsistent

one_event-cursor : cursor "cmux-1" one_event ≡ some (cursor_of input_event)
unfolding cursor find string_eq
one_event-cursor = refl

Step-forward_example :
    (c' : EventCursor) × (cursor "cmux-1" after_two ≡ some c')
    × (c'.boot_id ≡ "boot-1" → lt_int c'.seq (pos 1) ≡ false)
Step-forward_example =
    Step-forward "cmux-1" one_event (cursor_of input_event) one_event-cursor {wire = wire}
      (committing prompt_event false)
