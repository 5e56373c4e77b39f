-- ===== src/Cmux/Notifications/Retired.antt =====
-- A banner that was retired stays as it is: plugins/cmux/yatagarasu_cmux/notifications.py.
use yatagarasu.Prelude.{
  String, Bool, true, false, ◌&&◌, Option, none, some, List, [], ◌∷◌, ◌==◌, string_eq, option_eq,
  find, filter, is_empty, ◌≡◌, refl, ap, sym, ◌∙◌, inl, inr, arith, Bool-cases,
}
use yatagarasu.Prelude.Int.{ℤ, int_eq, le_int}
use yatagarasu.Prelude.Rows.{find-update, find_meets}
use yatagarasu.Cmux.Calls.{
  Answer, returned, raised, outbox_error, protocol_error, producer_error, marker_error, value_error,
  lifecycle_error, sqlite_integrity_error, sink_error, type_error, assertion_error,
}
use yatagarasu.Cmux.Calls.Related
use yatagarasu.Cmux.Calls.Related.{IsRelated, Relates}
use yatagarasu.Cmux.Json.{Value}
use yatagarasu.Cmux.Notifications.{
  Banner, BannerState, dismissed, expired, is_open, Lifecycle, Setup, list_notifications, dismiss,
  of_delivery, row_for_delivery, update_banners, call, matching_notifications, notification_exists,
  recovered, dismiss_one, dismiss_all, found_ids, ids_of, retired, retire_row, retire_delivery,
  order_by_creation, retire_all, expire, on_receipt, on_notification_read, read_row, proves_entry,
}

-- Every row that was retired is read back as it was.
abbrev pub Stays : Lifecycle → Lifecycle → Type 0
Stays s t =
    (id : String) (row : Banner)
    → row_for_delivery id s ≡ some row
    → is_open row.state ≡ false
    → row_for_delivery id t ≡ some row

abbrev pub SameBanners : Lifecycle → Lifecycle → Type 0
SameBanners s t = t.banners ≡ s.banners

pub Stays-trans : (s t u : Lifecycle) → Stays s t → Stays t u → Stays s u
Stays-trans s t u first second id row found closed =
    second id row (first id row found closed) closed

SameBanners-trans : (s t u : Lifecycle) → SameBanners s t → SameBanners t u → SameBanners s u
SameBanners-trans s t u first second = second ∙ first

pub SameBanners-Stays : (s t : Lifecycle) → SameBanners s t → Stays s t
unfolding row_for_delivery
SameBanners-Stays s t same id row found closed = ap (find (of_delivery id)) same ∙ found

module _ (given : Setup) where
  pub matching_notifications-Relates :
      (row : Banner) → Relates SameBanners (matching_notifications given row)
  unfolding matching_notifications call
  matching_notifications-Relates row s =
      Related.bind_IsRelated SameBanners SameBanners-trans (call given list_notifications) _ s
        (λ t. record { related = refl }) (λ r t. record { related = refl })

  notification_exists-Relates : (id : String) → Relates SameBanners (notification_exists given id)
  unfolding notification_exists call
  notification_exists-Relates id s =
      Related.bind_IsRelated SameBanners SameBanners-trans (call given list_notifications) _ s
        (λ t. record { related = refl }) (λ r t. record { related = refl })

  recovered-Relates :
      (id : String) (answer : Answer Value) → Relates SameBanners (recovered given id answer)
  recovered-Relates id (returned value) s = record { related = refl }
  recovered-Relates id (raised (protocol_error message)) s =
      Related.bind_IsRelated SameBanners SameBanners-trans (notification_exists given id) _ s
        (notification_exists-Relates id) (λ r t. record { related = refl })
  recovered-Relates id (raised (outbox_error m)) s = record { related = refl }
  recovered-Relates id (raised (producer_error m)) s = record { related = refl }
  recovered-Relates id (raised (marker_error m)) s = record { related = refl }
  recovered-Relates id (raised (value_error m)) s = record { related = refl }
  recovered-Relates id (raised (lifecycle_error m)) s = record { related = refl }
  recovered-Relates id (raised sqlite_integrity_error) s = record { related = refl }
  recovered-Relates id (raised sink_error) s = record { related = refl }
  recovered-Relates id (raised type_error) s = record { related = refl }
  recovered-Relates id (raised assertion_error) s = record { related = refl }

  dismiss_one-Relates : (id : String) → Relates SameBanners (dismiss_one given id)
  unfolding dismiss_one call
  dismiss_one-Relates id s = record {
    related =
        (recovered-Relates id (call given (dismiss id) s).0 (call given (dismiss id) s).1).related;
  }

  pub dismiss_all-Relates : (ids : List String) → Relates SameBanners (dismiss_all given ids)
  unfolding dismiss_all
  dismiss_all-Relates [] s = record { related = refl }
  dismiss_all-Relates (id ∷ ids) s =
      Related.bind_IsRelated SameBanners SameBanners-trans (dismiss_one given id) _ s
        (dismiss_one-Relates id) (λ u. dismiss_all-Relates ids)

  found_ids-Relates : (row : Banner) → Relates SameBanners (found_ids given row)
  found_ids-Relates row s =
      Related.bind_IsRelated SameBanners SameBanners-trans (matching_notifications given row) _ s
        (matching_notifications-Relates row) (λ r t. record { related = refl })

  pub ids_of-Relates :
      (row : Banner) (known : Option String) → Relates SameBanners (ids_of given row known)
  ids_of-Relates row none s = found_ids-Relates row s
  ids_of-Relates row (some id) s =
      Related.if-IsRelated SameBanners (is_empty id) (found_ids given row s) _
        (found_ids-Relates row s) (record { related = refl })

  -- the update of a row that was found open
  update-Stays :
      (delivery_id reason : String) (state : BannerState) (row : Banner) (s : Lifecycle)
      → row_for_delivery delivery_id s ≡ some row
      → is_open row.state ≡ true
      → Stays s (update_banners (of_delivery delivery_id) (retired given reason state) s).1
  unfolding update_banners row_for_delivery
  update-Stays delivery_id reason state row s found opened id row' found' closed =
      elim (Bool-cases (row'.delivery_id == delivery_id)) [
        | inl same ↦
            let met = find_meets (of_delivery id) s.banners row' found' in
            let e : id ≡ delivery_id = ground arith in
            let twice : some row ≡ some row' =
              sym found ∙ ap (λ k. find (of_delivery k) s.banners) (sym e) ∙ found' in
            absurd (ground arith)
        | inr other ↦
            find-update (of_delivery id) (of_delivery delivery_id) (retired given reason state)
              (λ r. refl) s.banners
            ∙ rw found' (ground arith)
      ]

  retire_row-Stays :
      (delivery_id reason : String) (state : BannerState) (row : Banner) (s : Lifecycle)
      → row_for_delivery delivery_id s ≡ some row
      → IsRelated Stays Bool s (retire_row given delivery_id reason state (some row) s)
  unfolding row_for_delivery update_banners
  retire_row-Stays delivery_id reason state row s found = elim (Bool-cases (is_open row.state)) [
    | inr closed ↦ rw closed (record { related = λ id r h c. h })
    | inl opened ↦
        let t = (ids_of given row row.notification_id s).1 in
        let same = (ids_of-Relates row row.notification_id s).related in
        rw opened (
          Related.continue-IsRelated Stays Stays-trans _ (ids_of given row row.notification_id s).0
            t (SameBanners-Stays s t same)
            (λ ids.
              let u = (dismiss_all given ids t).1 in
              let same' = (dismiss_all-Relates ids t).related in
              Related.continue-IsRelated Stays Stays-trans _ (dismiss_all given ids t).0 u
                (SameBanners-Stays t u same')
                (λ _. record {
                  related =
                      update-Stays delivery_id reason state row u
                        (ap (find (of_delivery delivery_id)) (same' ∙ same) ∙ found) opened;
                })))
  ]

  retire_found :
      (delivery_id reason : String) (state : BannerState) (found : Option Banner) (s : Lifecycle)
      → row_for_delivery delivery_id s ≡ found
      → IsRelated Stays Bool s (retire_row given delivery_id reason state found s)
  retire_found delivery_id reason state none s h = record { related = λ id r h c. h }
  retire_found delivery_id reason state (some row) s h =
      retire_row-Stays delivery_id reason state row s h

  pub retire_delivery-Relates :
      (delivery_id reason : String) (state : BannerState)
      → Relates Stays (retire_delivery given delivery_id reason state)
  unfolding retire_delivery
  retire_delivery-Relates delivery_id reason state s =
      retire_found delivery_id reason state (row_for_delivery delivery_id s) s refl

  pub retire_all-Relates :
      (reason : String) (state : BannerState) (rows : List Banner)
      → Relates Stays (retire_all given reason state rows)
  unfolding retire_all
  retire_all-Relates reason state [] s = record { related = λ id r h c. h }
  retire_all-Relates reason state (row ∷ rows) s =
      Related.bind_IsRelated Stays Stays-trans (retire_delivery given row.delivery_id reason state)
        _ s (retire_delivery-Relates row.delivery_id reason state)
        (λ _. retire_all-Relates reason state rows)

  pub expire-Relates : (cutoff : ℤ) → Relates Stays (expire given cutoff)
  unfolding expire
  expire-Relates cutoff s =
      let rows =
        order_by_creation given
          (filter (λ row. is_open row.state && le_int row.expires_at cutoff) s.banners) in
      Related.bind_IsRelated Stays Stays-trans (retire_all given "expired" expired rows) _ s
        (retire_all-Relates "expired" expired rows) (λ _ t. record { related = λ id r h c. h })

  pub on_receipt-Relates :
      (event_id delivery_id status state evidence_class : String)
      → Relates Stays (on_receipt given event_id delivery_id status state evidence_class)
  unfolding on_receipt
  on_receipt-Relates event_id delivery_id status state evidence_class s =
      Related.if-IsRelated Stays
        (proves_entry given event_id status state evidence_class (row_for_delivery delivery_id s)) _
        (returned false, s) (retire_delivery-Relates delivery_id "in-session-receipt" dismissed s)
        (record { related = λ id r h c. h })

  read_row-Relates : (found : Option Banner) → Relates Stays (read_row given found)
  read_row-Relates none s = record { related = λ id r h c. h }
  read_row-Relates (some row) s =
      retire_delivery-Relates row.delivery_id "explicit-mark-read" dismissed s

  pub on_notification_read-Relates : (id : String) → Relates Stays (on_notification_read given id)
  unfolding on_notification_read
  on_notification_read-Relates id s = read_row-Relates (find _ s.banners) s
