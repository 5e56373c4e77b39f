-- ===== src/Receipts/Proven.antt =====
-- A session is entered, and a turn completed, only with proof.
use yatagarasu.Prelude.{arith, ◌≡◌, refl, Bool, true, false, ◌⊎◌, Option, some}
use yatagarasu.Environment.{Environment}
use yatagarasu.Types.{
  Delivery, Receipt, DeliveryMode, DeliveryState, in_session, Disposition, completed, EvidenceClass,
  transport_submit_ack, harness_prompt_accepted, harness_turn_started, harness_turn_completed,
  participant_reply_authored, participant_reaction_authored, session_reply_authored,
  session_reaction_authored, session_disposition_authored, ProviderKind, evidence_class_eq,
}
use yatagarasu.Reasons.{ok}
use yatagarasu.Proofs.Markers.{MarkerAuthority}
use yatagarasu.Store.Tables.{Store}
use yatagarasu.Store.Deliveries.{get_delivery}
use yatagarasu.Receipts.Permits.{Permits}
use yatagarasu.Receipts.Session.{needs_session_proof, validate_session_receipt}
use yatagarasu.Receipts.Session.Evidence.{Evidenced, validate_session_receipt-Evidenced}
use yatagarasu.Receipts.Reducer.{accepted, check_session_evidence, submit}
use yatagarasu.Receipts.Verdicts.{submit-Advanced}

abbrev ClaimsSession : DeliveryState → Option Disposition → Type 0
ClaimsSession st d = (st ≡ in_session) ⊎ (d ≡ some completed)

needs_proof :
    (e : EvidenceClass) (mode : DeliveryMode) (kind : ProviderKind) (from st : DeliveryState)
    (d : Option Disposition)
    → Permits e mode kind from (st, d)
    → ClaimsSession st d
    → needs_session_proof e ≡ true
unfolding evidence_class_eq
needs_proof harness_prompt_accepted mode kind from st d p c = refl
needs_proof harness_turn_started mode kind from st d p c = refl
needs_proof harness_turn_completed mode kind from st d p c = refl
needs_proof transport_submit_ack mode kind from st d p c = ground arith
needs_proof participant_reply_authored mode kind from st d p c = ground arith
needs_proof participant_reaction_authored mode kind from st d p c = ground arith
needs_proof session_reply_authored mode kind from st d p c = absurd p
needs_proof session_reaction_authored mode kind from st d p c = absurd p
needs_proof session_disposition_authored mode kind from st d p c = absurd p

module _ (env : Environment) (authority : Option MarkerAuthority) (receipt : Receipt)
    (s : Store) where
  checked :
      (delivery : Delivery) (b : Bool)
      → needs_session_proof receipt.evidence_class ≡ b
      → b ≡ true
      → check_session_evidence env authority receipt delivery s ≡ ok tt
      → validate_session_receipt env authority receipt delivery s ≡ ok tt
  unfolding check_session_evidence
  checked delivery true e h c = rw (e, check_session_evidence) at c
  checked delivery false e h c = cc

  -- A receipt that is accepted with the state in-session, or with the disposition completed, came
  -- with a proof: the marker is valid for the delivery under the authority's key, the binding is
  -- active, in its window, and owned by the provider and the recipient, the chain of source events
  -- is the one that the evidence class asks for and extends, at a turn's end, the chain of the
  -- session's entry, and the receipt names its last event, which the provider has not used before.
  pub submit-Evidenced :
      (t : Store) (st : DeliveryState) (d : Option Disposition)
      → submit env authority receipt s ≡ (accepted st d, t)
      → (st ≡ in_session) ⊎ (d ≡ some completed)
      → (before : Delivery) × (get_delivery receipt.delivery_id s ≡ some before)
        × Evidenced env authority receipt before s
  submit-Evidenced t st d h c =
      let v = submit-Advanced env authority receipt s t h in
      let needed =
        needs_proof receipt.evidence_class _ v.prov.kind v.before.state st d v.permitted c in
      (
        v.before,
        v.found,
        validate_session_receipt-Evidenced env authority receipt v.before s
            (checked v.before _ refl needed v.proven),
      )
