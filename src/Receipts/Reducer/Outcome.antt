-- ===== src/Receipts/Reducer/Outcome.antt =====
-- What `submit` leaves behind, by its verdict.
use yatagarasu.Prelude.{
  String, ◌≡◌, refl, Bool, true, false, Option, none, some, List, [], ◌∷◌, ◌++◌, nat_eq, inl, inr,
  subst, sym,
}
use mathlib.Core.Option
use yatagarasu.Store.Deliveries.{get_delivery}
use yatagarasu.Environment.{Environment}
use yatagarasu.Types.{Delivery, DeliveryState, Disposition, Receipt}
use yatagarasu.Reasons
use yatagarasu.Reasons.{Reason, Check, ok, refuse}
use yatagarasu.Proofs.Markers.{MarkerAuthority}
use yatagarasu.Store.Tables.{Store, ReceiptRow, Provider}
use yatagarasu.Store.Exec
use yatagarasu.Store.Exec.{Result, err, integrity_error, concurrent_transition_error}
use yatagarasu.Store.Providers.{mark_provider_degraded}
use yatagarasu.Store.Receipts.{receipt_record, rejection_row, record_rejection, accept_receipt}
use yatagarasu.Store.Receipts.Acceptance.{Written, accept-eq-ok, accept-eq-err}
use yatagarasu.Receipts.Reducer.{
  ReceiptResult, accepted, duplicate, rejected, reject, Approval, existing_receipt_result, judge,
  verdict_or, same_receipt, duplicate_of, reduce, act_on, review, settle, conclude,
  recover_integrity_collision, submit,
}

module _ (env : Environment) (authority : Option MarkerAuthority) (receipt : Receipt) where
  -- Nothing but the health of providers, the rejections and the transaction changed.
  pub record Declined (reason : Reason) (s t : Store) : Type 0 where
    pub providers : List Provider
    pub after : t ≡ record s {
      providers = providers;
      receipt_rejections = s.receipt_rejections ++ rejection_row receipt reason ∷ [];
      in_transaction = false;
    }

  pub record Accepted (a : Approval) (s t : Store) : Type 0 where
    pub approved : review env authority receipt s ≡ ok a
    pub fresh : receipt_record receipt.receipt_id s ≡ none
    pub binding_id : String
    pub written : Written env receipt a.delivery a.next_state a.disposition s binding_id t

  -- The receipt is stored, with the same claim, and the store is as it was.
  pub record Repeated (v : ReceiptResult) (s t : Store) : Type 0 where
    pub existing : ReceiptRow
    pub stored : receipt_record receipt.receipt_id s ≡ some existing
    pub same : same_receipt env existing receipt ≡ true
    pub verdict : duplicate_of (get_delivery receipt.delivery_id s) ≡ v
    pub unchanged : t ≡ s

  pub data Outcome (s : Store) : ReceiptResult → Store → Type 0 where
    declines : (reason : Reason) (t : Store) → Declined reason s t → Outcome s (rejected reason) t
    repeats :
        (st : Option DeliveryState) (d : Option Disposition) (t : Store)
        → Repeated (duplicate st d) s t
        → Outcome s (duplicate st d) t
    accepts :
        (a : Approval) (t : Store)
        → Accepted a s t
        → Outcome s (accepted a.next_state a.disposition) t

  abbrev pub OutcomeOf : Store → ReceiptResult × Store → Type 0
  OutcomeOf s (v, t) = Outcome s v t

  -- A rejection from a state that differs in the providers and the transaction alone.
  reject-Outcome :
      (reason : Reason) (providers : List Provider) (pending : Bool) (s : Store)
      → OutcomeOf s
          (reject reason receipt (record s { providers = providers; in_transaction = pending }))
  unfolding reject record_rejection
  reject-Outcome reason providers pending s =
      declines reason _ (record { providers = providers; after = refl })

  duplicate-Outcome :
      (o : Option Delivery) (e : ReceiptRow) (s : Store)
      → get_delivery receipt.delivery_id s ≡ o
      → receipt_record receipt.receipt_id s ≡ some e
      → same_receipt env e receipt ≡ true
      → OutcomeOf s (duplicate_of o, s)
  unfolding duplicate_of
  duplicate-Outcome none e s g h same =
      repeats none none s
        (record { existing = e; stored = h; same = same; verdict = rw g; unchanged = refl })
  duplicate-Outcome (some d) e s g h same =
      repeats (some d.state) d.disposition s
        (record { existing = e; stored = h; same = same; verdict = rw g; unchanged = refl })

  judge-Outcome :
      (b : Bool) (e : ReceiptRow) (s : Store)
      → receipt_record receipt.receipt_id s ≡ some e
      → same_receipt env e receipt ≡ b
      → OutcomeOf s (judge env b receipt s)
  unfolding mark_provider_degraded
  judge-Outcome true e s h same =
      duplicate-Outcome (get_delivery receipt.delivery_id s) e s refl h same
  judge-Outcome false e s h differs = reject-Outcome Reasons.receipt_id_contradiction _ false s

  verdict_or-Outcome :
      (o : Option ReceiptRow) (s : Store) (w : ReceiptResult × Store)
      → receipt_record receipt.receipt_id s ≡ o
      → (o ≡ none → OutcomeOf s w)
      → OutcomeOf s
          (verdict_or env (Option.map (λ e. judge env (same_receipt env e receipt) receipt s) o) w)
  verdict_or-Outcome none s w e h = h refl
  verdict_or-Outcome (some e) s w stored h =
      judge-Outcome (same_receipt env e receipt) e s stored refl

  recover-Outcome :
      (s : Store)
      → receipt_record receipt.receipt_id s ≡ none
      → OutcomeOf s (recover_integrity_collision env receipt (record s { in_transaction = false }))
  unfolding recover_integrity_collision receipt_record
  recover-Outcome s fresh = rw fresh (reject-Outcome _ s.providers false s)

  conclude-Outcome :
      (a : Approval) (s : Store) (r : Result (Unit {0}) × Store)
      → review env authority receipt s ≡ ok a
      → receipt_record receipt.receipt_id s ≡ none
      → accept_receipt env receipt a.delivery a.next_state a.disposition s ≡ r
      → OutcomeOf s (conclude env receipt a r)
  conclude-Outcome a s (Exec.ok _, t) approved fresh h =
      let (binding_id, written) =
        accept-eq-ok env receipt a.delivery a.next_state a.disposition s h in
      accepts a t
        (record { approved = approved; fresh = fresh; binding_id = binding_id; written = written })
  conclude-Outcome a s (err e, t) approved fresh h =
      let (after, raised) = accept-eq-err env receipt a.delivery a.next_state a.disposition s h in
      subst (λ t'. OutcomeOf s (conclude env receipt a (err e, t'))) (sym after)
        (elim raised [
          | inl integrity ↦ rw integrity (recover-Outcome s fresh)
          | inr concurrent ↦
              rw concurrent (reject-Outcome Reasons.delivery_state_changed s.providers false s)
        ])

  act_on-Outcome :
      (c : Check Approval) (s : Store)
      → review env authority receipt s ≡ c
      → receipt_record receipt.receipt_id s ≡ none
      → OutcomeOf s (act_on env authority receipt s c)
  unfolding settle
  act_on-Outcome (refuse reason) s e fresh = reject-Outcome reason s.providers s.in_transaction s
  act_on-Outcome (ok a) s e fresh = conclude-Outcome a s _ e fresh refl

  reduce-Outcome : (b : Bool) (s : Store) → OutcomeOf s (reduce env authority b receipt s)
  unfolding existing_receipt_result
  reduce-Outcome true s =
      reject-Outcome Reasons.audit_fields_required s.providers s.in_transaction s
  reduce-Outcome false s =
      verdict_or-Outcome (receipt_record receipt.receipt_id s) s _ refl
        (act_on-Outcome (review env authority receipt s) s refl)

  -- Every call of `submit` accepts, repeats or rejects.
  pub submit-Outcome : (s : Store) → OutcomeOf s (submit env authority receipt s)
  unfolding submit
  submit-Outcome s = reduce-Outcome _ s
