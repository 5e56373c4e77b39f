-- ===== src/Cmux/Notifications/Publish.antt =====
-- `publish` of plugins/cmux/yatagarasu_cmux/notifications.py, its cap for each seat, and the active
-- records.
use yatagarasu.Prelude.{
  ℕ, zero, suc, ◌+◌, ◌-◌, String, ◌<>◌, Bool, true, not, ◌&&◌, ◌||◌, Option, none, some, List, [],
  ◌∷◌, ◌++◌, ◌==◌, string_eq, option_eq, filter, any, length, is_empty, leb, if◌then◌else◌,
}
use yatagarasu.Prelude.Int.{ℤ, pos, negsuc}
use yatagarasu.Cmux.Calls.{
  Action, Answer, returned, raised, lifecycle_error, sqlite_integrity_error, assertion_error, pure,
  lift, ◌>>=◌, ◌>>◌,
}
use yatagarasu.Cmux.Json.{Value, Fields, text, get}
use yatagarasu.Cmux.Notifications.{
  Banner, BannerState, prepared, active, dismissed, expired, evicted, is_prepared, is_active,
  Lifecycle, Setup, create_for_target, of_delivery, row_for_delivery, update_banners, call,
  matching_notifications, retire_all, expire, order_by_creation,
}

pub record NotificationRecord : Type 0 where
  pub event_id : String
  pub delivery_id : String
  pub seat_id : String
  pub notification_id : String
  pub workspace_id : String
  pub surface_id : String
  pub correlation_token : String
  pub created_at : ℤ
  pub expires_at : ℤ

-- the arguments of `publish`
pub record Claim : Type 0 where
  pub event_id : String
  pub delivery_id : String
  pub seat_id : String
  pub workspace_id : String
  pub surface_id : String
  pub title : String
  pub body : String
  pub subtitle : String

abbrev pub record_with : Banner → Option String → Answer NotificationRecord
record_with row none = raised (lifecycle_error "notification_not_active")
record_with row (some id) = returned (record {
  event_id = row.event_id;
  delivery_id = row.delivery_id;
  seat_id = row.seat_id;
  notification_id = id;
  workspace_id = row.workspace_id;
  surface_id = row.surface_id;
  correlation_token = row.correlation_token;
  created_at = row.created_at;
  expires_at = row.expires_at;
})

-- `_record`
abbrev pub record_of : Banner → Answer NotificationRecord
record_of row = record_with row row.notification_id

abbrev same_claim : Banner → Banner → Bool
same_claim row claimed =
    row.event_id == claimed.event_id
    && row.delivery_id == claimed.delivery_id
    && row.seat_id == claimed.seat_id
    && row.workspace_id == claimed.workspace_id
    && row.surface_id == claimed.surface_id
    && row.title == claimed.title
    && row.subtitle == claimed.subtitle
    && row.body == claimed.body

-- `_assert_same_claim`
abbrev pub assert_same_claim : Banner → Banner → Answer (Unit {0})
assert_same_claim row claimed =
    if same_claim row claimed
    then returned tt
    else raised (lifecycle_error "event_id_claim_contradiction")

abbrev pub banner_state_text : BannerState → String
banner_state_text prepared = "prepared"
banner_state_text active = "active"
banner_state_text dismissed = "dismissed"
banner_state_text expired = "expired"
banner_state_text evicted = "evicted"

-- INSERT, with the primary key and the UNIQUE token
unfoldable pub insert_banner : Banner → Action Lifecycle (Unit {0})
insert_banner row s =
    if any (of_delivery row.delivery_id) s.banners
      || any (λ r. r.correlation_token == row.correlation_token) s.banners
    then (raised sqlite_integrity_error, s)
    else (returned tt, record s { banners = s.banners ++ row ∷ [] })

take {ℓ} : {A : Type ℓ} → ℕ → List A → List A
take zero xs = []
take (suc n) [] = []
take (suc n) (x ∷ xs) = x ∷ take n xs

abbrev later_by : ℤ → ℕ → ℤ
later_by (pos now) n = pos (now + n)
later_by (negsuc now) n = if leb (suc now) n then pos (n - suc now) else negsuc (now - n)

abbrev id_or_raise : Value → Answer String
id_or_raise (text id) =
    if is_empty id then raised (lifecycle_error "notification_id_missing") else returned id
id_or_raise _ = raised (lifecycle_error "notification_id_missing")

module _ (given : Setup) where
  -- the row that a claim inserts
  abbrev pub claimed_row : Claim → ℤ → Banner
  claimed_row claim now =
      let token = given.token claim.event_id claim.delivery_id in
      record {
        event_id = claim.event_id;
        delivery_id = claim.delivery_id;
        seat_id = claim.seat_id;
        notification_id = none;
        workspace_id = claim.workspace_id;
        surface_id = claim.surface_id;
        correlation_token = token;
        title = claim.title;
        subtitle = if is_empty claim.subtitle then token else claim.subtitle <> " · " <> token;
        body = claim.body;
        state = prepared;
        created_at = now;
        expires_at = later_by now given.mailbox_ttl;
        retired_reason = none;
      }

  -- The winner of a refused INSERT must have made the same claim.
  abbrev winner_agrees : Banner → Option Banner → Answer (Unit {0})
  winner_agrees claimed none = raised (lifecycle_error "notification_claim_conflict")
  winner_agrees claimed (some winner) = assert_same_claim winner claimed

  abbrev pub conceded : Banner → Answer (Unit {0}) → Action Lifecycle (Unit {0})
  conceded claimed (returned u) s = (returned tt, s)
  conceded claimed (raised sqlite_integrity_error) s =
      (winner_agrees claimed (row_for_delivery claimed.delivery_id s), s)
  conceded claimed (raised e) s = (raised e, s)

  unfoldable pub insert_or_concede : Banner → Action Lifecycle (Unit {0})
  insert_or_concede claimed s =
      let (answer, t) = insert_banner claimed s in conceded claimed answer t

  abbrev pub one_match : List Fields → Answer String
  one_match (x ∷ []) = id_or_raise (get "id" x)
  one_match matches =
      raised
        (lifecycle_error ("notification_correlation_ambiguous:" <> given.decimal (length matches)))

  abbrev pub create_unless_listed : Banner → Banner → List Fields → Action Lifecycle (List Fields)
  create_unless_listed existing claimed [] = do
    created ← call given (
        create_for_target claimed.workspace_id claimed.surface_id existing.title existing.subtitle
          existing.body)
    matching_notifications given existing
  create_unless_listed existing claimed (x ∷ xs) = pure (x ∷ xs)

  abbrev pub is_pending : String → Banner → Bool
  is_pending delivery_id row = of_delivery delivery_id row && is_prepared row.state

  -- UPDATE … WHERE state = 'prepared', with the UNIQUE notification_id
  unfoldable pub activate : String → String → Action Lifecycle (Unit {0})
  activate delivery_id id s =
      if any (is_pending delivery_id) s.banners
        && any (λ r. r.notification_id == some id && not (is_pending delivery_id r)) s.banners
      then (raised sqlite_integrity_error, s)
      else update_banners (is_pending delivery_id)
          (λ row. record row { notification_id = some id; state = active }) s

  -- `_enforce_cap`
  unfoldable pub enforce_cap : String → String → Action Lifecycle (Unit {0})
  unfolding take
  enforce_cap seat_id keep s =
      let rows =
        order_by_creation given
          (filter (λ row. row.seat_id == seat_id && is_active row.state) s.banners) in
      let evictable = filter (λ row. not (of_delivery keep row)) rows in
      retire_all given "per-seat-cap" evicted (take (length rows - given.per_seat_cap) evictable) s

  abbrev pub stored_record : Option Banner → Answer NotificationRecord
  stored_record none = raised assertion_error
  stored_record (some row) = record_of row

  -- from the prepared row on
  unfoldable pub show : Banner → Banner → Action Lifecycle NotificationRecord
  show claimed existing = do
    matches ← matching_notifications given existing
    shown ← create_unless_listed existing claimed matches
    id ← lift (one_match shown)
    activate claimed.delivery_id id
    enforce_cap claimed.seat_id claimed.delivery_id
    λ s. (stored_record (row_for_delivery claimed.delivery_id s), s)

  abbrev pub show_inserted : Banner → Option Banner → Action Lifecycle NotificationRecord
  show_inserted claimed none = lift (raised assertion_error)
  show_inserted claimed (some row) = show claimed row

  abbrev pub known_claim : Banner → Banner → Action Lifecycle NotificationRecord
  known_claim claimed row s =
      if is_active row.state
      then (record_of row, s)
      else if is_prepared row.state
      then show claimed row s
      else (raised (lifecycle_error ("event already retired: " <> banner_state_text row.state)), s)

  abbrev pub publish_row : Banner → Option Banner → Action Lifecycle NotificationRecord
  publish_row claimed none = do
    insert_or_concede claimed
    λ s. show_inserted claimed (row_for_delivery claimed.delivery_id s) s
  publish_row claimed (some row) = do lift (assert_same_claim row claimed); known_claim claimed row

  unfoldable pub publish : Claim → ℤ → Action Lifecycle NotificationRecord
  publish claim now = do
    count ← expire given now
    λ s. publish_row (claimed_row claim now) (row_for_delivery claim.delivery_id s) s

  abbrev in_seat : Option String → Banner → Bool
  in_seat none row = true
  in_seat (some seat_id) row = row.seat_id == seat_id

  records_of : List Banner → Answer (List NotificationRecord)
  records_of [] = returned []
  records_of (row ∷ rows) =
      let rest = records_of rows in
      elim (record_of row) [
        | raised e ↦ raised e
        | returned x ↦ elim rest [ raised e ↦ raised e | returned xs ↦ returned (x ∷ xs) ]
      ]

  unfoldable pub active_records : Option String → Lifecycle → Answer (List NotificationRecord)
  unfolding records_of
  active_records seat s =
      records_of (
        order_by_creation given (filter (λ row. is_active row.state && in_seat seat row) s.banners))
