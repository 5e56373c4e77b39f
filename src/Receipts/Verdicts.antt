-- ===== src/Receipts/Verdicts.antt =====
-- What a verdict of `submit` tells about the store before and after it.
use mathlib.Core.Option.{some-injective}
use yatagarasu.Prelude.{
  String, ◌≡◌, ◌≢◌, refl, subst, subst₂, sym, ◌∙◌, Option, none, some, [], ◌∷◌, ◌++◌, arith,
  string_eq,
}
use yatagarasu.Environment.{Environment}
use yatagarasu.Types.{Delivery, DeliveryState, Disposition, Receipt}
use yatagarasu.Reasons.{Reason, ok}
use yatagarasu.Proofs.Markers.{MarkerAuthority}
use yatagarasu.Store.Tables.{Store, Provider}
use yatagarasu.Store.Deliveries.{get_delivery}
use yatagarasu.Store.Deliveries.Lookup.{found_id, find-update_self, find-update_ne}
use yatagarasu.Store.Providers.{provider}
use yatagarasu.Store.Receipts.{receipt_record, receipt_row, audit_row, rejection_row}
use yatagarasu.Store.Receipts.Acceptance.{advance}
use yatagarasu.Receipts.Transition.{validate_keys, canonical_disposition}
use yatagarasu.Receipts.Dispositions.{transition-disposition}
use yatagarasu.Receipts.Permits.{Permits, transition-Permits}
use yatagarasu.Receipts.Reducer.{
  ReceiptResult, accepted, duplicate, rejected, Approval, check_session_evidence, submit,
}
use yatagarasu.Receipts.Reducer.Review.{Reviewed, review-Reviewed}
use yatagarasu.Receipts.Reducer.Outcome.{
  Outcome, OutcomeOf, declines, repeats, accepts, Declined, Repeated, Accepted, submit-Outcome,
}

keys-binding :
    (receipt : Receipt) (delivery : Delivery)
    → validate_keys receipt delivery ≡ ok tt
    → (receipt.event_id ≡ delivery.event_id)
      × (receipt.attempt_id ≡ delivery.attempt_id)
      × (delivery.binding_id ≡ some receipt.binding_id)
unfolding validate_keys
keys-binding receipt delivery h = ground arith

module _ (env : Environment) (authority : Option MarkerAuthority) (receipt : Receipt)
    (s t : Store) where
  Accepted-inversion :
      {st : DeliveryState} {d : Option Disposition}
      → Outcome env authority receipt s (accepted st d) t
      → (a : Approval) × (a.next_state ≡ st)
        × (a.disposition ≡ d)
        × Accepted env authority receipt a s t
  Accepted-inversion (accepts a t' w) = (a, refl, refl, w)

  Declined-inversion :
      {reason : Reason}
      → Outcome env authority receipt s (rejected reason) t
      → Declined env authority receipt reason s t
  Declined-inversion (declines reason t' w) = w

  Repeated-inversion :
      {st : Option DeliveryState} {d : Option Disposition}
      → Outcome env authority receipt s (duplicate st d) t
      → Repeated env authority receipt (duplicate st d) s t
  Repeated-inversion (repeats st d t' w) = w

  Outcome-at :
      {v : ReceiptResult}
      → submit env authority receipt s ≡ (v, t)
      → Outcome env authority receipt s v t
  Outcome-at h =
      subst (OutcomeOf env authority receipt s) h (submit-Outcome env authority receipt s)

  -- What an acceptance with a next state and a disposition means.
  pub record Advanced (st : DeliveryState) (d : Option Disposition) : Type 0 where
    pub before : Delivery
    pub prov : Provider
    pub found : get_delivery receipt.delivery_id s ≡ some before
    pub identified : before.delivery_id ≡ receipt.delivery_id
    pub event : receipt.event_id ≡ before.event_id
    pub attempt : receipt.attempt_id ≡ before.attempt_id
    pub bound : before.binding_id ≡ some receipt.binding_id
    pub fresh : receipt_record receipt.receipt_id s ≡ none
    pub known : provider receipt.evidence_provider_id s ≡ some prov
    pub permitted :
        Permits receipt.evidence_class before.delivery_mode prov.kind before.state (st, d)
    pub proven : check_session_evidence env authority receipt before s ≡ ok tt
    pub canonical : d ≡ canonical_disposition receipt
    pub moved :
        get_delivery receipt.delivery_id t ≡ some (record before { state = st; disposition = d })
    pub elsewhere : (j : String) → j ≢ receipt.delivery_id → get_delivery j t ≡ get_delivery j s
    pub filed : t.receipts ≡ s.receipts ++ receipt_row env receipt before receipt.binding_id d ∷ []
    pub audited : t.audit_log ≡ s.audit_log ++ audit_row receipt before st d ∷ []
    pub rejections_kept : t.receipt_rejections ≡ s.receipt_rejections

  written-Advanced :
      (a : Approval)
      → Accepted env authority receipt a s t
      → Reviewed env authority receipt s a
      → Advanced a.next_state a.disposition
  unfolding get_delivery
  written-Advanced a w r =
      let w' = w.written in
      let (event, attempt, bound) = keys-binding receipt a.delivery r.keys in
      let same : a.delivery.delivery_id ≡ receipt.delivery_id = found_id _ _ _ r.found in
      record {
        before = a.delivery;
        prov = r.prov;
        found = r.found;
        identified = same;
        event = event;
        attempt = attempt;
        bound = bound;
        fresh = w.fresh;
        known = r.known;
        proven = r.proven;
        canonical =
            transition-disposition receipt a.delivery r.prov.kind s (a.next_state, a.disposition)
              r.stepped;
        permitted =
            transition-Permits receipt a.delivery r.prov.kind s (a.next_state, a.disposition) r.mode
              r.stepped;
        moved = rw w'.after (
            find-update_self (advance env receipt a.delivery a.next_state a.disposition s)
              (λ d. refl) _ _ _ r.found);
        elsewhere = λ j ne. rw w'.after (
            find-update_ne (advance env receipt a.delivery a.next_state a.disposition s) (λ d. refl)
              _ j _ _ (λ e. ne (e ∙ same)));
        filed = rw (w'.after, some-injective _ _ (sym w'.bound ∙ bound));
        audited = rw w'.after;
        rejections_kept = rw w'.after;
      }

  -- An accepted receipt moves its delivery by a step of the table and no other delivery, and the
  -- store files exactly that receipt and one audit row of that step.
  pub submit-Advanced :
      {st : DeliveryState} {d : Option Disposition}
      → submit env authority receipt s ≡ (accepted st d, t)
      → Advanced st d
  submit-Advanced h =
      let (a, e, e', w) = Accepted-inversion (Outcome-at h) in
      subst₂ Advanced e e'
        (written-Advanced a w (review-Reviewed env authority receipt s a w.approved))

  -- A rejected receipt leaves the deliveries, the receipts and the audit log as they were, and
  -- records exactly one rejection, with the reason that is returned.
  pub submit-rejected :
      {reason : Reason}
      → submit env authority receipt s ≡ (rejected reason, t)
      → (t.deliveries ≡ s.deliveries)
        × (t.receipts ≡ s.receipts)
        × (t.audit_log ≡ s.audit_log)
        × (t.session_bindings ≡ s.session_bindings)
        × (t.receipt_rejections ≡ s.receipt_rejections ++ rejection_row receipt reason ∷ [])
  submit-rejected h =
      let w = Declined-inversion (Outcome-at h) in
      (rw w.after, rw w.after, rw w.after, rw w.after, rw w.after)
