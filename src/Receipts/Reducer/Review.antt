-- ===== src/Receipts/Reducer/Review.antt =====
-- What the guards of `submit` have established when all of them pass.
use yatagarasu.Prelude.{◌≡◌, true, subst, not-eq-false, Option, some}
use yatagarasu.Environment.{Environment}
use yatagarasu.Types.{Receipt}
use yatagarasu.Reasons.{
  ok, both_pass, required, required-eq-ok, refuse_if, refuse_if-eq-ok, ok-injective,
}
use yatagarasu.Proofs.Markers.{MarkerAuthority}
use yatagarasu.Store.Tables.{Store, Provider}
use yatagarasu.Store.Deliveries.{get_delivery}
use yatagarasu.Store.Providers.{provider, provider_declares}
use yatagarasu.Receipts.Transition.{validate_keys, transition}
use yatagarasu.Receipts.Participant.{validate_mode}
use yatagarasu.Receipts.Reducer.{Approval, review, check_session_evidence}

module _ (env : Environment) (authority : Option MarkerAuthority) (receipt : Receipt)
    (s : Store) where
  pub record Reviewed (a : Approval) : Type 0 where
    pub found : get_delivery receipt.delivery_id s ≡ some a.delivery
    pub keys : validate_keys receipt a.delivery ≡ ok tt
    pub prov : Provider
    pub known : provider receipt.evidence_provider_id s ≡ some prov
    pub declared : provider_declares receipt.evidence_provider_id receipt.evidence_class s ≡ true
    pub mode : validate_mode receipt a.delivery prov.kind s ≡ ok tt
    pub stepped : transition receipt a.delivery prov.kind s ≡ ok (a.next_state, a.disposition)
    pub proven : check_session_evidence env authority receipt a.delivery s ≡ ok tt

  pub review-Reviewed : (a : Approval) → review env authority receipt s ≡ ok a → Reviewed a
  unfolding review
  review-Reviewed a h =
      let (delivery, found, h₁) = both_pass (required (get_delivery receipt.delivery_id s) _) _ h in
      let (_, keys, h₂) = both_pass (validate_keys receipt delivery) _ h₁ in
      let (prov, known, h₃) =
        both_pass (required (provider receipt.evidence_provider_id s) _) _ h₂ in
      let (_, declared, h₄) = both_pass (refuse_if _ _) _ h₃ in
      let (_, mode, h₅) = both_pass (validate_mode receipt delivery prov.kind s) _ h₄ in
      let (step, stepped, h₆) = both_pass (transition receipt delivery prov.kind s) _ h₅ in
      let (_, proven, h₇) =
        both_pass (check_session_evidence env authority receipt delivery s) _ h₆ in
      subst Reviewed (ok-injective h₇) (record {
        found = required-eq-ok (get_delivery receipt.delivery_id s) _ found;
        keys = keys;
        prov = prov;
        known = required-eq-ok (provider receipt.evidence_provider_id s) _ known;
        declared = not-eq-false _ (refuse_if-eq-ok _ _ declared);
        mode = mode;
        stepped = stepped;
        proven = proven;
      })
