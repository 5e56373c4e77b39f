-- ===== src/Cmux/Notifications/Entry.antt =====
-- A receipt that dismisses a banner: plugins/cmux/yatagarasu_cmux/notifications.py.
use yatagarasu.Prelude.{String, Bool, true, some, string_eq, option_eq, ◌≡◌}
use yatagarasu.Cmux.Calls.{Action, pure, ◌>>◌}
use yatagarasu.Cmux.Notifications.{
  Banner, BannerState, dismissed, is_open, Lifecycle, Setup, of_delivery, row_for_delivery,
  update_banners, retired, proves_entry,
}

module _ (given : Setup) (delivery_id reason : String) (state : BannerState) (row : Banner) where
  abbrev mark : Action Lifecycle Bool
  mark = update_banners (of_delivery delivery_id) (retired given reason state) >> pure true

  abbrev Marked : Lifecycle → Type 0
  Marked t = row_for_delivery delivery_id t ≡ some (retired given reason state row)

module _ (given : Setup) (event_id delivery_id status state evidence_class : String)
    (s : Lifecycle) where
  abbrev Entered : Lifecycle → Type 0
  Entered t =
      (row : Banner) × (row_for_delivery delivery_id s ≡ some row)
      × (proves_entry given event_id status state evidence_class (some row) ≡ true)
      × (is_open row.state ≡ true)
      × (row_for_delivery delivery_id t ≡ some (retired given "in-session-receipt" dismissed row))
