-- ===== src/Cmux/Notifications.antt =====
-- `NotificationLifecycle` of plugins/cmux/yatagarasu_cmux/notifications.py: the table of banners, and
-- how a banner is retired. Times are integers of one unit, of which the order and sums are read; the
-- clock's answer is an argument.
pub mod Publish
pub mod Retired
pub mod Operations
pub mod Hooks
pub mod Entry
use yatagarasu.Prelude.{
  ℕ, zero, suc, ◌+◌, ◌-◌, String, ◌<>◌, Bool, true, false, not, ◌&&◌, ◌||◌, Option, none, some,
  List, [], ◌∷◌, ◌++◌, map, ◌==◌, string_eq, option_eq, find, filter, any, update, length, is_empty,
  if◌then◌else◌,
}
use yatagarasu.Prelude.Int.{ℤ, int_eq, le_int, lt_int}
use yatagarasu.Cmux.Calls.{
  Action, Answer, Error, returned, raised, outbox_error, protocol_error, producer_error,
  marker_error, value_error, lifecycle_error, sqlite_integrity_error, sink_error, type_error,
  assertion_error, pure, lift, continue, for_each, ◌>>=◌, ◌>>◌,
}
use yatagarasu.Cmux.Json.{
  Value, Values, Fields, null, text, list, object, end, item, get, as_text, is_text,
}

pub data BannerState : Type 0 where
  prepared active dismissed expired evicted : BannerState

abbrev pub is_prepared : BannerState → Bool
is_prepared prepared = true
is_prepared _ = false

abbrev pub is_active : BannerState → Bool
is_active active = true
is_active _ = false

-- `state in {"prepared", "active"}`
abbrev pub is_open : BannerState → Bool
is_open state = is_prepared state || is_active state

pub record Banner : Type 0 where
  pub event_id : String
  pub delivery_id : String
  pub seat_id : String
  pub notification_id : Option String
  pub workspace_id : String
  pub surface_id : String
  pub correlation_token : String
  pub title : String
  pub subtitle : String
  pub body : String
  pub state : BannerState
  pub created_at : ℤ
  pub expires_at : ℤ
  pub retired_reason : Option String

-- the calls of the CMUX client
pub data Command : Type 0 where
  list_notifications : Command
  create_for_target : (workspace_id surface_id title subtitle body : String) → Command
  dismiss : (notification_id : String) → Command

-- The table, and the calls that were made.
pub record Lifecycle : Type 0 where
  pub banners : List Banner
  pub called : List Command

-- What the lifecycle is given: the client's answer to a call after those before it, the settings,
-- the token of a claim (a truncated SHA-256 digest), SQLite's strict order of texts, and Python's
-- `str` of an int.
pub record Setup : Type 0 where
  pub answer : List Command → Command → Answer Value
  pub per_seat_cap : ℕ
  pub mailbox_ttl : ℕ
  pub token : String → String → String
  pub text_before : String → String → Bool
  pub decimal : ℕ → String

abbrev pub of_delivery : String → Banner → Bool
of_delivery delivery_id row = row.delivery_id == delivery_id

unfoldable pub row_for_delivery : String → Lifecycle → Option Banner
row_for_delivery delivery_id s = find (of_delivery delivery_id) s.banners

unfoldable pub update_banners : (Banner → Bool) → (Banner → Banner) → Action Lifecycle (Unit {0})
update_banners p f s = (returned tt, record s { banners = update p f s.banners })

-- the items of a list of notifications that are dicts and meet the test
items_where : (Fields → Bool) → Values → List Fields
items_where p end = []
items_where p (item (object x) rest) = if p x then x ∷ items_where p rest else items_where p rest
items_where p (item _ rest) = items_where p rest

abbrev pub shows : Banner → Fields → Bool
shows row x =
    is_text row.workspace_id (get "workspace_id" x)
    && is_text row.surface_id (get "surface_id" x)
    && is_text row.subtitle (get "subtitle" x)

abbrev bad_shape : Answer (List Fields)
bad_shape = raised (lifecycle_error "notification_list_shape_invalid")

abbrev listed_items : (Fields → Bool) → Value → Answer (List Fields)
listed_items p (list items) = returned (items_where p items)
listed_items p _ = bad_shape

unfoldable pub listed : (Fields → Bool) → Value → Answer (List Fields)
unfolding items_where
listed p (object x) = listed_items p (get "notifications" x)
listed p _ = bad_shape

abbrev has_items : Answer (List Fields) → Bool
has_items (returned []) = false
has_items (returned (x ∷ xs)) = true
has_items (raised e) = false

abbrev texts_of : List Fields → List String
texts_of [] = []
texts_of (x ∷ xs) = elim (as_text (get "id" x)) [ none ↦ texts_of xs | some id ↦ id ∷ texts_of xs ]

module _ (given : Setup) where
  unfoldable pub call : Command → Action Lifecycle Value
  call command s = (given.answer s.called command, record s { called = s.called ++ command ∷ [] })

  -- `_matching_notifications`
  unfoldable pub matching_notifications : Banner → Action Lifecycle (List Fields)
  matching_notifications row = do result ← call list_notifications; lift (listed (shows row) result)

  -- `_notification_exists`
  unfoldable pub notification_exists : String → Action Lifecycle Bool
  notification_exists notification_id = do
    result ← call list_notifications
    pure (has_items (listed (λ x. is_text notification_id (get "id" x)) result))

  -- A StreamProtocolError is passed over when the banner is gone.
  abbrev pub recovered : String → Answer Value → Action Lifecycle (Unit {0})
  recovered notification_id (returned value) = pure tt
  recovered notification_id (raised (protocol_error message)) = do
    remains ← notification_exists notification_id
    lift (if remains then raised (protocol_error message) else returned tt)
  recovered notification_id (raised e) = lift (raised e)

  unfoldable pub dismiss_one : String → Action Lifecycle (Unit {0})
  dismiss_one notification_id s =
      let (answer, t) = call (dismiss notification_id) s in recovered notification_id answer t

  unfoldable pub dismiss_all : List String → Action Lifecycle (Unit {0})
  dismiss_all [] = pure tt
  dismiss_all (id ∷ ids) = let rest = dismiss_all ids in (do dismiss_one id; rest)

  abbrev pub found_ids : Banner → Action Lifecycle (List String)
  found_ids row = do items ← matching_notifications row; pure (texts_of items)

  abbrev pub ids_of : Banner → Option String → Action Lifecycle (List String)
  ids_of row none s = found_ids row s
  ids_of row (some id) s = if is_empty id then found_ids row s else (returned (id ∷ []), s)

  abbrev pub retired : String → BannerState → Banner → Banner
  retired reason state row = record row { state = state; retired_reason = some reason }

  abbrev pub retire_row : String → String → BannerState → Option Banner → Action Lifecycle Bool
  retire_row delivery_id reason state none = pure false
  retire_row delivery_id reason state (some row) =
      let go = (do
        ids ← ids_of row row.notification_id
        dismiss_all ids
        update_banners (of_delivery delivery_id) (retired reason state)
        pure true) in
      if is_open row.state then go else pure false

  -- `_retire_delivery`
  unfoldable pub retire_delivery : String → String → BannerState → Action Lifecycle Bool
  retire_delivery delivery_id reason state s =
      retire_row delivery_id reason state (row_for_delivery delivery_id s) s

  -- ORDER BY created_at, event_id
  abbrev row_before : Banner → Banner → Bool
  row_before a b =
      lt_int a.created_at b.created_at
      || a.created_at == b.created_at && given.text_before a.event_id b.event_id

  insert_banner_row : Banner → List Banner → List Banner
  insert_banner_row row [] = row ∷ []
  insert_banner_row row (x ∷ xs) =
      if row_before x row then x ∷ insert_banner_row row xs else row ∷ x ∷ xs

  unfoldable pub order_by_creation : List Banner → List Banner
  unfolding insert_banner_row
  order_by_creation [] = []
  order_by_creation (row ∷ rows) = insert_banner_row row (order_by_creation rows)

  unfoldable pub retire_all : String → BannerState → List Banner → Action Lifecycle (Unit {0})
  retire_all reason state [] = pure tt
  retire_all reason state (row ∷ rows) =
      let rest = retire_all reason state rows in
      (do changed ← retire_delivery row.delivery_id reason state; rest)

  unfoldable pub expire : ℤ → Action Lifecycle ℕ
  expire cutoff s =
      let rows =
        order_by_creation
          (filter (λ row. is_open row.state && le_int row.expires_at cutoff) s.banners) in
      (do retire_all "expired" expired rows; pure (length rows)) s

  -- IN_SESSION_EVIDENCE
  abbrev in_session_evidence : String → Bool
  in_session_evidence evidence =
      evidence == "harness.prompt_accepted" || evidence == "harness.turn_started"

  abbrev claims_event : String → Option Banner → Bool
  claims_event event_id none = false
  claims_event event_id (some row) = row.event_id == event_id

  -- an accepted receipt that proves the entry of this event's delivery
  abbrev pub proves_entry : (event_id status state evidence_class : String) → Option Banner → Bool
  proves_entry event_id status state evidence_class found =
      status == "accepted"
      && state == "in-session"
      && in_session_evidence evidence_class
      && claims_event event_id found

  unfoldable pub on_receipt :
      (event_id delivery_id status state evidence_class : String) → Action Lifecycle Bool
  on_receipt event_id delivery_id status state evidence_class s =
      if proves_entry event_id status state evidence_class (row_for_delivery delivery_id s)
      then retire_delivery delivery_id "in-session-receipt" dismissed s
      else (returned false, s)

  abbrev pub read_row : Option Banner → Action Lifecycle Bool
  read_row none = pure false
  read_row (some row) = retire_delivery row.delivery_id "explicit-mark-read" dismissed

  unfoldable pub on_notification_read : String → Action Lifecycle Bool
  on_notification_read id s =
      read_row (find (λ row. row.notification_id == some id && is_active row.state) s.banners) s
