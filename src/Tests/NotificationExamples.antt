-- ===== src/Tests/NotificationExamples.antt =====
-- The theorems on banners at a table of one banner.
use yatagarasu.Prelude.{false, none, some, [], ◌∷◌, ◌≡◌, refl, string_eq, find}
use yatagarasu.Prelude.Int.{pos}
use yatagarasu.Cmux.Calls.{returned}
use yatagarasu.Cmux.Json.{null}
use yatagarasu.Cmux.Notifications.{
  Banner, BannerState, active, evicted, dismissed, Lifecycle, Setup, dismiss, row_for_delivery,
  retired,
}
use yatagarasu.Cmux.Notifications.Publish.{Claim}
use yatagarasu.Cmux.Notifications.Operations.{
  publishing, receiving, reading, expiring, operate_all, operate_all-Stays,
}

abbrev setup : Setup
setup = record {
  answer = λ done command. returned null;
  per_seat_cap = 8;
  mailbox_ttl = 100;
  token = λ event_id delivery_id. "YGR-0";
  text_before = λ a b. false;
  decimal = λ n. "0";
}

abbrev banner : BannerState → Banner
banner state = record {
  event_id = "event-1";
  delivery_id = "delivery-1";
  seat_id = "tama";
  notification_id = some "n1";
  workspace_id = "main";
  surface_id = "surface-1";
  correlation_token = "YGR-1";
  title = "A message";
  subtitle = "YGR-1";
  body = "hello";
  state = state;
  created_at = pos 0;
  expires_at = pos 100;
  retired_reason = none;
}

abbrev table : BannerState → Lifecycle
table state = record { banners = banner state ∷ []; called = [] }

abbrev claim : Claim
claim = record {
  event_id = "event-1";
  delivery_id = "delivery-1";
  seat_id = "tama";
  workspace_id = "main";
  surface_id = "surface-1";
  title = "A message";
  body = "hello";
  subtitle = "";
}

found : row_for_delivery "delivery-1" (table evicted) ≡ some (banner evicted)
unfolding row_for_delivery find string_eq
found = refl

operate_all-Stays_example :
    row_for_delivery "delivery-1" (
      operate_all setup
        (reading "n1"
          ∷ publishing claim (pos 5)
          ∷ receiving "event-1" "delivery-1" "accepted" "in-session" "harness.turn_started"
          ∷ expiring (pos 200)
          ∷ [])
        (table evicted))
    ≡ some (banner evicted)
operate_all-Stays_example =
    operate_all-Stays setup
      (reading "n1"
        ∷ publishing claim (pos 5)
        ∷ receiving "event-1" "delivery-1" "accepted" "in-session" "harness.turn_started"
        ∷ expiring (pos 200)
        ∷ [])
      (table evicted) "delivery-1" (banner evicted) found refl

abbrev after : Lifecycle
after = record {
  banners = retired setup "in-session-receipt" dismissed (banner active) ∷ [];
  called = dismiss "n1" ∷ [];
}
