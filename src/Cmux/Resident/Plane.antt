-- ===== src/Cmux/Resident/Plane.antt =====
-- A run of the resident of plugins/cmux/yatagarasu_cmux/resident.py, and the outbox under it.
use yatagarasu.Prelude.{ℕ, String, Bool, ◌||◌, Option, ◌≡◌, refl}
use yatagarasu.Cmux.Calls.{Error, returned, raised}
use yatagarasu.Cmux.Calls.Related
use yatagarasu.Cmux.Calls.Related.{IsRelated}
use yatagarasu.Cmux.Json.{Fields}
use yatagarasu.Cmux.Outbox.{DerivedEvent, EventCursor, cursor}
use yatagarasu.Cmux.Protocol.{StreamAck, project}
use yatagarasu.Cmux.Emitter.{Collaborators}
use yatagarasu.Cmux.Producer.{Producer}
use yatagarasu.Cmux.Resident.{Resident, Client, feed, on_event, boot_changed}
use yatagarasu.Cmux.Resident.Trail.{Trail}

module _ (given : Collaborators) (client : Client) (source : String) where
  abbrev Follows : Resident → Resident → Type 0
  Follows = Trail given client source

  abbrev gap_of : Option EventCursor → StreamAck → Bool
  gap_of durable ack = ack.resume.gap || boot_changed given client source durable ack.boot_id

  module _ (s before : Resident) (same : before.outbox ≡ s.outbox) (n : ℕ) where
    abbrev durable : Option EventCursor
    durable = cursor source s.outbox

  -- An event whose receipts the producer fails to write is not committed: the exception leaves
  -- `on_event` with the outbox, and so the durable cursor, as it was.
  pub on_event-uncommitted :
      (ack : StreamAck) (gap : Bool) (frame : Fields) (event : DerivedEvent) (e : Error)
      (after : Option Producer) (s : Resident)
      → project given.wire source frame ack.boot_id ≡ returned event
      → feed given client source s.producer event ≡ (raised e, after)
      → on_event given client source ack gap frame s ≡ (raised e, record s { producer = after })
  unfolding on_event
  on_event-uncommitted ack gap frame event e after s projected failed = rw (projected, failed) refl
