-- ===== src/Cmux/Notifications/Operations.antt =====
-- Any sequence of operations of plugins/cmux/yatagarasu_cmux/notifications.py.
use yatagarasu.Prelude.{
  String, false, not, ◌&&◌, ◌||◌, Option, none, some, List, [], ◌∷◌, ◌++◌, ◌==◌, string_eq,
  option_eq, any, ◌≡◌, refl, ◌∙◌, arith,
}
use yatagarasu.Prelude.Int.{ℤ}
use yatagarasu.Prelude.Rows.{find-update, find-append, any_of_find}
use yatagarasu.Cmux.Calls.{
  Answer, returned, raised, outbox_error, protocol_error, producer_error, marker_error, value_error,
  lifecycle_error, sqlite_integrity_error, sink_error, type_error, assertion_error, lift,
}
use yatagarasu.Cmux.Calls.Related
use yatagarasu.Cmux.Calls.Related.{IsRelated, Relates}
use yatagarasu.Cmux.Json.{Fields}
use yatagarasu.Cmux.Notifications.{
  Banner, active, evicted, is_prepared, is_active, is_open, Lifecycle, Setup, create_for_target,
  of_delivery, row_for_delivery, update_banners, call, matching_notifications, expire, on_receipt,
  on_notification_read,
}
use yatagarasu.Cmux.Notifications.Publish.{
  Claim, assert_same_claim, insert_banner, claimed_row, conceded, insert_or_concede, one_match,
  create_unless_listed, is_pending, activate, enforce_cap, show, show_inserted, known_claim,
  publish_row, publish,
}
use yatagarasu.Cmux.Notifications.Retired.{
  Stays, Stays-trans, SameBanners-Stays, matching_notifications-Relates, retire_all-Relates,
  expire-Relates, on_receipt-Relates, on_notification_read-Relates,
}

Stays-refl : (s : Lifecycle) → Stays s s
Stays-refl s id row found closed = found

append-Stays :
    (row : Banner) (s : Lifecycle) → Stays s (record s { banners = s.banners ++ row ∷ [] })
unfolding row_for_delivery
append-Stays row s id row' found closed =
    find-append (of_delivery id) s.banners (row ∷ [])
    ∙ rw (any_of_find (of_delivery id) s.banners row' found) found

insert_banner-Relates : (row : Banner) → Relates Stays (insert_banner row)
unfolding insert_banner
insert_banner-Relates row s =
    Related.if-IsRelated Stays
      (any (of_delivery row.delivery_id) s.banners
        || any (λ r. r.correlation_token == row.correlation_token) s.banners)
      _ _ (record { related = Stays-refl s }) (record { related = append-Stays row s })

module _ (given : Setup) where
  conceded-Relates :
      (row : Banner) (answer : Answer (Unit {0})) → Relates Stays (conceded given row answer)
  conceded-Relates row (returned u) s = record { related = Stays-refl s }
  conceded-Relates row (raised sqlite_integrity_error) s = record { related = Stays-refl s }
  conceded-Relates row (raised (protocol_error m)) s = record { related = Stays-refl s }
  conceded-Relates row (raised (outbox_error m)) s = record { related = Stays-refl s }
  conceded-Relates row (raised (producer_error m)) s = record { related = Stays-refl s }
  conceded-Relates row (raised (marker_error m)) s = record { related = Stays-refl s }
  conceded-Relates row (raised (value_error m)) s = record { related = Stays-refl s }
  conceded-Relates row (raised (lifecycle_error m)) s = record { related = Stays-refl s }
  conceded-Relates row (raised sink_error) s = record { related = Stays-refl s }
  conceded-Relates row (raised type_error) s = record { related = Stays-refl s }
  conceded-Relates row (raised assertion_error) s = record { related = Stays-refl s }

  insert_or_concede-Relates : (row : Banner) → Relates Stays (insert_or_concede given row)
  unfolding insert_or_concede
  insert_or_concede-Relates row s = record {
    related =
        Stays-trans s (insert_banner row s).1 _ (insert_banner-Relates row s).related
          (conceded-Relates row (insert_banner row s).0 (insert_banner row s).1).related;
  }

  activate-Stays :
      (delivery_id id : String) (s : Lifecycle)
      → Stays s
          (update_banners
            (is_pending given delivery_id)
            (λ row. record row { notification_id = some id; state = active })
            s).1
  unfolding update_banners row_for_delivery
  activate-Stays delivery_id id s key row found closed =
      find-update (of_delivery key) (is_pending given delivery_id)
        (λ row. record row { notification_id = some id; state = active }) (λ r. refl) s.banners
      ∙ rw found (ground arith)

  activate-Relates : (delivery_id id : String) → Relates Stays (activate given delivery_id id)
  unfolding activate
  activate-Relates delivery_id id s =
      Related.if-IsRelated Stays
        (any (is_pending given delivery_id) s.banners
          && any (λ r. r.notification_id == some id && not (is_pending given delivery_id r))
              s.banners)
        _ _ (record { related = Stays-refl s })
        (record { related = activate-Stays delivery_id id s })

  enforce_cap-Relates : (seat_id keep : String) → Relates Stays (enforce_cap given seat_id keep)
  unfolding enforce_cap
  enforce_cap-Relates seat_id keep s = retire_all-Relates given "per-seat-cap" evicted _ s

  listing : (row : Banner) → Relates Stays (matching_notifications given row)
  listing row s = record {
    related = SameBanners-Stays s _ (matching_notifications-Relates given row s).related;
  }

  create_unless_listed-Relates :
      (existing claimed : Banner) (found : List Fields)
      → Relates Stays (create_unless_listed given existing claimed found)
  unfolding call
  create_unless_listed-Relates existing claimed [] s =
      Related.bind_IsRelated Stays Stays-trans
        (call given (
          create_for_target claimed.workspace_id claimed.surface_id existing.title existing.subtitle
            existing.body))
        _ s (λ t. record { related = λ id r h c. SameBanners-Stays t _ refl id r h c })
        (λ u. listing existing)
  create_unless_listed-Relates existing claimed (x ∷ xs) s = record { related = Stays-refl s }

  show-Relates : (claimed existing : Banner) → Relates Stays (show given claimed existing)
  unfolding show
  show-Relates claimed existing s =
      Related.bind_IsRelated Stays Stays-trans (matching_notifications given existing) _ s
        (listing existing)
        (λ found t.
          Related.bind_IsRelated Stays Stays-trans
            (create_unless_listed given existing claimed found) _ t
            (create_unless_listed-Relates existing claimed found)
            (λ shown u.
              Related.bind_IsRelated Stays Stays-trans (lift (one_match given shown)) _ u
                (λ v. record { related = Stays-refl v })
                (λ id v.
                  Related.bind_IsRelated Stays Stays-trans (activate given claimed.delivery_id id) _
                    v (activate-Relates claimed.delivery_id id)
                    (λ _ w.
                      Related.bind_IsRelated Stays Stays-trans
                        (enforce_cap given claimed.seat_id claimed.delivery_id) _ w
                        (enforce_cap-Relates claimed.seat_id claimed.delivery_id)
                        (λ _ x. record { related = Stays-refl x })))))

  show_inserted-Relates :
      (claimed : Banner) (found : Option Banner) → Relates Stays (show_inserted given claimed found)
  show_inserted-Relates claimed none s = record { related = Stays-refl s }
  show_inserted-Relates claimed (some row) s = show-Relates claimed row s

  known_claim-Relates : (claimed row : Banner) → Relates Stays (known_claim given claimed row)
  known_claim-Relates claimed row s =
      Related.if-IsRelated Stays (is_active row.state) _ _ (record { related = Stays-refl s })
        (Related.if-IsRelated Stays (is_prepared row.state) _ _ (show-Relates claimed row s)
          (record { related = Stays-refl s }))

  publish_row-Relates :
      (claimed : Banner) (found : Option Banner) → Relates Stays (publish_row given claimed found)
  publish_row-Relates claimed none s =
      Related.bind_IsRelated Stays Stays-trans (insert_or_concede given claimed) _ s
        (insert_or_concede-Relates claimed)
        (λ _ t. show_inserted-Relates claimed (row_for_delivery claimed.delivery_id t) t)
  publish_row-Relates claimed (some row) s =
      Related.bind_IsRelated Stays Stays-trans (lift (assert_same_claim row claimed)) _ s
        (λ t. record { related = Stays-refl t }) (λ _. known_claim-Relates claimed row)

  publish-Relates : (claim : Claim) (now : ℤ) → Relates Stays (publish given claim now)
  unfolding publish
  publish-Relates claim now s =
      Related.bind_IsRelated Stays Stays-trans (expire given now) _ s (expire-Relates given now)
        (λ _ t.
          publish_row-Relates (claimed_row given claim now) (row_for_delivery claim.delivery_id t)
            t)

pub data Operation : Type 0 where
  publishing : Claim → ℤ → Operation
  receiving : (event_id delivery_id status state evidence_class : String) → Operation
  reading : (notification_id : String) → Operation
  expiring : ℤ → Operation

unfoldable pub operate : Setup → Operation → Lifecycle → Lifecycle
operate given (publishing claim now) s = (publish given claim now s).1
operate given (receiving e d status state evidence) s =
    (on_receipt given e d status state evidence s).1
operate given (reading id) s = (on_notification_read given id s).1
operate given (expiring now) s = (expire given now s).1

unfoldable pub operate_all : Setup → List Operation → Lifecycle → Lifecycle
operate_all given [] s = s
operate_all given (o ∷ os) s = operate_all given os (operate given o s)

operate-Stays : (given : Setup) (o : Operation) (s : Lifecycle) → Stays s (operate given o s)
unfolding operate
operate-Stays given (publishing claim now) s = (publish-Relates given claim now s).related
operate-Stays given (receiving e d status state evidence) s =
    (on_receipt-Relates given e d status state evidence s).related
operate-Stays given (reading id) s = (on_notification_read-Relates given id s).related
operate-Stays given (expiring now) s = (expire-Relates given now s).related

-- A banner that was retired keeps its row unchanged, whatever operations follow, whatever the client
-- answers to them, and whether they raise or not.
pub operate_all-Stays :
    (given : Setup) (os : List Operation) (s : Lifecycle) (id : String) (row : Banner)
    → row_for_delivery id s ≡ some row
    → is_open row.state ≡ false
    → row_for_delivery id (operate_all given os s) ≡ some row
unfolding operate_all
operate_all-Stays given [] s id row found closed = found
operate_all-Stays given (o ∷ os) s id row found closed =
    operate_all-Stays given os (operate given o s) id row
      (operate-Stays given o s id row found closed) closed
