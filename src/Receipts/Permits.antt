-- ===== src/Receipts/Permits.antt =====
-- The table of transitions that the receipt reducer promises, and that its guards obey it.
use yatagarasu.Prelude.{◌≡◌, refl, Bool, true, false, ◌⊎◌, none, some, arith}
use yatagarasu.Types.{
  Delivery, Receipt, DeliveryMode, session_bound, channel_native, DeliveryState, dispatching,
  transport_submitted, in_session, processed, completed, answered, acknowledged, held,
  EvidenceClass, transport_submit_ack, harness_prompt_accepted, harness_turn_started,
  harness_turn_completed, participant_reply_authored, participant_reaction_authored,
  session_reply_authored, session_reaction_authored, session_disposition_authored, ProviderKind,
  session_transport, comms_view, evidence_class_eq,
}
use yatagarasu.Reasons.{ok}
use yatagarasu.Store.Tables.{Store}
use yatagarasu.Receipts.Transition.{
  Step, transition, transition_of, submit_step, entry_step, completion_step, reply_step,
  reaction_step,
}
use yatagarasu.Receipts.Participant.{validate_mode, validate_participant, is_participant}

-- the kind of provider that carries deliveries of a mode
abbrev pub carrier : DeliveryMode → ProviderKind
carrier session_bound = session_transport
carrier channel_native = comms_view

-- Which evidence, from which kind of provider, moves a delivery of which mode from where to where,
-- and with which disposition.
abbrev pub Permits : EvidenceClass → DeliveryMode → ProviderKind → DeliveryState → Step → Type 0
Permits transport_submit_ack mode kind from (to, d) =
    (kind ≡ carrier mode) × (from ≡ dispatching) × (to ≡ transport_submitted) × (d ≡ none)
Permits harness_prompt_accepted mode kind from (to, d) =
    (mode ≡ session_bound)
    × (kind ≡ session_transport)
    × (from ≡ transport_submitted)
    × (to ≡ in_session)
    × (d ≡ none)
Permits harness_turn_started mode kind from (to, d) =
    (mode ≡ session_bound)
    × (kind ≡ session_transport)
    × (from ≡ transport_submitted)
    × (to ≡ in_session)
    × (d ≡ none)
Permits harness_turn_completed mode kind from (to, d) =
    (mode ≡ session_bound)
    × (kind ≡ session_transport)
    × (from ≡ in_session)
    × (to ≡ processed)
    × (d ≡ some completed)
Permits participant_reply_authored mode kind from (to, d) =
    (mode ≡ channel_native)
    × (kind ≡ comms_view)
    × (from ≡ transport_submitted)
    × (to ≡ processed)
    × (d ≡ some answered)
Permits participant_reaction_authored mode kind from (to, d) =
    (mode ≡ channel_native)
    × (kind ≡ comms_view)
    × (from ≡ transport_submitted)
    × (to ≡ processed)
    × ((d ≡ some acknowledged) ⊎ (d ≡ some held))
Permits _ mode kind from step = ⊥

module _ (receipt : Receipt) (delivery : Delivery) (kind : ProviderKind) (s : Store) where
  submit_step-Permits :
      (step : Step)
      → submit_step receipt delivery kind s ≡ ok step
      → Permits transport_submit_ack delivery.delivery_mode kind delivery.state step
  unfolding submit_step
  submit_step-Permits step h = ground arith

  entry_step-Permits :
      (step : Step)
      → entry_step receipt delivery kind ≡ ok step
      → Permits harness_prompt_accepted delivery.delivery_mode kind delivery.state step
  unfolding entry_step
  entry_step-Permits step h = ground arith

  completion_step-Permits :
      (step : Step)
      → completion_step receipt delivery kind ≡ ok step
      → Permits harness_turn_completed delivery.delivery_mode kind delivery.state step
  unfolding completion_step
  completion_step-Permits step h = ground arith

  reply_step-Permits :
      (step : Step)
      → validate_participant receipt delivery kind s ≡ ok tt
      → reply_step receipt ≡ ok step
      → Permits participant_reply_authored delivery.delivery_mode kind delivery.state step
  unfolding validate_participant reply_step
  reply_step-Permits step v h = ground arith

  reaction_step-Permits :
      (step : Step)
      → validate_participant receipt delivery kind s ≡ ok tt
      → reaction_step receipt ≡ ok step
      → Permits participant_reaction_authored delivery.delivery_mode kind delivery.state step
  unfolding validate_participant reaction_step
  reaction_step-Permits step v h = ground arith

  transition_of-Permits :
      (e : EvidenceClass) (step : Step)
      → (is_participant e ≡ true → validate_participant receipt delivery kind s ≡ ok tt)
      → transition_of e receipt delivery kind s ≡ ok step
      → Permits e delivery.delivery_mode kind delivery.state step
  unfolding evidence_class_eq
  transition_of-Permits transport_submit_ack step v h = submit_step-Permits step h
  transition_of-Permits harness_prompt_accepted step v h = entry_step-Permits step h
  transition_of-Permits harness_turn_started step v h = entry_step-Permits step h
  transition_of-Permits harness_turn_completed step v h = completion_step-Permits step h
  transition_of-Permits participant_reply_authored step v h = reply_step-Permits step (v refl) h
  transition_of-Permits participant_reaction_authored step v h =
      reaction_step-Permits step (v refl) h
  transition_of-Permits session_reply_authored step v h = cc
  transition_of-Permits session_reaction_authored step v h = cc
  transition_of-Permits session_disposition_authored step v h = cc

  validate_mode-participant :
      (b : Bool)
      → is_participant receipt.evidence_class ≡ b
      → validate_mode receipt delivery kind s ≡ ok tt
      → b ≡ true
      → validate_participant receipt delivery kind s ≡ ok tt
  unfolding validate_mode
  validate_mode-participant true e v h = rw (e, validate_mode) at v
  validate_mode-participant false e v h = cc

  -- Guards that pass lead to a step of the table.
  pub transition-Permits :
      (step : Step)
      → validate_mode receipt delivery kind s ≡ ok tt
      → transition receipt delivery kind s ≡ ok step
      → Permits receipt.evidence_class delivery.delivery_mode kind delivery.state step
  unfolding transition
  transition-Permits step v h =
      transition_of-Permits receipt.evidence_class step
        (validate_mode-participant (is_participant receipt.evidence_class) refl v) h
