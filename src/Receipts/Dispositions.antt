-- ===== src/Receipts/Dispositions.antt =====
-- The disposition that a transition carries is the one that the duplicate check computes.
use yatagarasu.Prelude.{◌≡◌, arith}
use yatagarasu.Types.{
  Delivery, Receipt, EvidenceClass, transport_submit_ack, harness_prompt_accepted,
  harness_turn_started, harness_turn_completed, participant_reply_authored,
  participant_reaction_authored, ProviderKind,
}
use yatagarasu.Reasons.{ok}
use yatagarasu.Store.Tables.{Store}
use yatagarasu.Receipts.Transition.{
  Step, transition, transition_of, explicit_or, implied_disposition, canonical_disposition,
}

module _ (receipt : Receipt) (delivery : Delivery) (kind : ProviderKind) (s : Store) where
  transition_of-disposition :
      (e : EvidenceClass) (step : Step)
      → transition_of e receipt delivery kind s ≡ ok step
      → step.1 ≡ explicit_or receipt.disposition (implied_disposition e)
  unfolding transition
  transition_of-disposition transport_submit_ack step h = ground arith
  transition_of-disposition harness_prompt_accepted step h = ground arith
  transition_of-disposition harness_turn_started step h = ground arith
  transition_of-disposition harness_turn_completed step h = ground arith
  transition_of-disposition participant_reply_authored step h = ground arith
  transition_of-disposition participant_reaction_authored step h = ground arith
  transition_of-disposition _ step h = cc

  pub transition-disposition :
      (step : Step)
      → transition receipt delivery kind s ≡ ok step
      → step.1 ≡ canonical_disposition receipt
  unfolding transition canonical_disposition
  transition-disposition step h = transition_of-disposition receipt.evidence_class step h
