-- ===== src/Cmux/Outcome.antt =====
-- plugins/cmux/yatagarasu_cmux/outcome.py: the three outcomes of an attempt to submit.
use yatagarasu.Prelude.{String, Bool, true, false, List}

pub data SubmitOutcome : Type 0 where
  submitted not_submitted unknown : SubmitOutcome

pub record SubmitResult : Type 0 where
  pub outcome : SubmitOutcome
  pub delivery_id : String
  pub source_events : List String
  pub detail : String

abbrev pub is_submitted : SubmitOutcome → Bool
is_submitted submitted = true
is_submitted _ = false

abbrev pub is_not_submitted : SubmitOutcome → Bool
is_not_submitted not_submitted = true
is_not_submitted _ = false

abbrev pub is_unknown : SubmitOutcome → Bool
is_unknown unknown = true
is_unknown _ = false

abbrev pub is_proven : SubmitResult → Bool
is_proven result = is_submitted result.outcome

abbrev pub may_requeue : SubmitResult → Bool
may_requeue result = is_not_submitted result.outcome

abbrev pub must_hold : SubmitResult → Bool
must_hold result = is_unknown result.outcome
