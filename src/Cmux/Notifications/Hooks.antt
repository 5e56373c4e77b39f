-- ===== src/Cmux/Notifications/Hooks.antt =====
-- `validate_hook_effects` of plugins/cmux/yatagarasu_cmux/notifications.py.
use yatagarasu.Prelude.{Bool, false, not, ◌&&◌, Option, some, if◌then◌else◌}
use yatagarasu.Cmux.Calls.{Answer, returned, raised, lifecycle_error}
use yatagarasu.Cmux.Json.{Value, Fields, boolean, get, as_object}

-- `value is True`
abbrev pub is_true : Value → Bool
is_true (boolean b) = b
is_true _ = false

-- the effects before and after, and whether the user has marked the banner as read
abbrev pub compare_effects : Fields → Fields → Bool → Answer (Unit {0})
compare_effects before after explicit_mark_read =
    if is_true (get "desktop" before) && not (is_true (get "desktop" after))
    then raised (lifecycle_error "notification_hook_removed_desktop")
    else if not explicit_mark_read
        && is_true (get "markUnread" before)
        && not (is_true (get "markUnread" after))
    then raised (lifecycle_error "notification_hook_removed_mark_unread")
    else returned tt

abbrev pub effects_checked : Option Fields → Option Fields → Bool → Answer (Unit {0})
effects_checked (some before) (some after) explicit_mark_read =
    compare_effects before after explicit_mark_read
effects_checked _ _ explicit_mark_read =
    raised (lifecycle_error "notification_hook_effects_shape_invalid")

unfoldable pub validate_hook_effects : Fields → Fields → Bool → Answer (Unit {0})
validate_hook_effects before after explicit_mark_read =
    effects_checked (as_object (get "effects" before)) (as_object (get "effects" after))
      explicit_mark_read
