-- ===== src/Tests/ReceiptExamples.antt =====
-- The theorems on the reducer at the fixture.
use yatagarasu.Prelude.{◌≡◌, refl, none, some, inl, [], ◌∷◌, ◌++◌}
use yatagarasu.Types.{transport_submitted, in_session, Delivery}
use yatagarasu.Store.Tables.{Store}
use yatagarasu.Store.Deliveries.{get_delivery}
use yatagarasu.Store.Receipts.{rejection_row}
use yatagarasu.Reasons
use yatagarasu.Receipts.Session.Evidence.{Evidenced}
use yatagarasu.Receipts.Reducer.{accepted, rejected, duplicate, submit}
use yatagarasu.Receipts.Verdicts.{Advanced, submit-Advanced, submit-rejected}
use yatagarasu.Receipts.Repeats.{submit-submit}
use yatagarasu.Receipts.Proven.{submit-Evidenced}
use yatagarasu.Tests.Fixture.{env, authority, store, prompt_receipt}
use yatagarasu.Tests.Steps.{all_steps}

abbrev entered : Store
entered = (submit env (some authority) prompt_receipt (store transport_submitted)).1

prompt_accepted :
    submit env (some authority) prompt_receipt (store transport_submitted)
    ≡ (accepted in_session none, entered)
unfolding all_steps
prompt_accepted = refl

submit-Advanced_example :
    Advanced env (some authority) prompt_receipt (store transport_submitted) entered in_session none
submit-Advanced_example =
    submit-Advanced env (some authority) prompt_receipt (store transport_submitted) entered
      prompt_accepted

submit-Evidenced_example :
    (before : Delivery) × (get_delivery "delivery-1" (store transport_submitted) ≡ some before)
    × Evidenced env (some authority) prompt_receipt before (store transport_submitted)
submit-Evidenced_example =
    submit-Evidenced env (some authority) prompt_receipt (store transport_submitted) entered
      in_session none prompt_accepted (inl refl)

submit-submit_example :
    submit env (some authority) prompt_receipt entered ≡ (duplicate (some in_session) none, entered)
submit-submit_example =
    submit-submit env prompt_receipt (some authority) (store transport_submitted) entered
      prompt_accepted

-- The reducer without a key accepts no session proof.
abbrev refused : Store
refused = (submit env none prompt_receipt (store transport_submitted)).1

prompt_rejected :
    submit env none prompt_receipt (store transport_submitted)
    ≡ (rejected Reasons.marker_authority_unavailable, refused)
unfolding all_steps
prompt_rejected = refl

submit-rejected_example :
    (refused.deliveries ≡ (store transport_submitted).deliveries)
    × (refused.receipts ≡ (store transport_submitted).receipts)
    × (refused.audit_log ≡ (store transport_submitted).audit_log)
    × (refused.session_bindings ≡ (store transport_submitted).session_bindings)
    × (refused.receipt_rejections
        ≡ (store transport_submitted).receipt_rejections
          ++ rejection_row prompt_receipt Reasons.marker_authority_unavailable ∷ [])
submit-rejected_example =
    submit-rejected env none prompt_receipt (store transport_submitted) refused prompt_rejected
