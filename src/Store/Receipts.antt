-- ===== src/Store/Receipts.antt =====
-- The methods of `CoreStore` on receipts, the audit log and rejections.
pub mod Acceptance
use yatagarasu.Prelude.{
  String, Bool, false, not, ◌&&◌, ◌||◌, Option, none, some, List, [], ◌∷◌, ◌++◌, ◌==◌, string_eq,
  option_eq, nat_eq, find, any, filter, get_last?,
}
use yatagarasu.Environment.{Environment}
use yatagarasu.Types.{
  Delivery, DeliveryMode, session_bound, channel_native, DeliveryState, Disposition,
  evidence_class_eq, harness_prompt_accepted, harness_turn_started, Receipt,
}
use yatagarasu.Reasons.{Reason}
use yatagarasu.Proofs.Storage.{proof_storage_fields}
use yatagarasu.Store.Tables.{
  Store, ReceiptRow, AuditRow, RejectionRow, SessionEntry, applicable, not_applicable,
}
use yatagarasu.Store.Exec.{
  Exec, concurrent_transition_error, insert, transaction, raise_if, ◌>>=◌, ◌>>◌,
}
use yatagarasu.Store.Deliveries.{has_id, update_in_state}
use yatagarasu.Store.Providers.{has_provider}

abbrev pub has_receipt_id : String → ReceiptRow → Bool
has_receipt_id receipt_id r = r.receipt_id == receipt_id

abbrev pub from_source : String → String → ReceiptRow → Bool
from_source provider_id source_event_id r =
    r.provider_id == provider_id && r.source_event_id == some source_event_id

unfoldable pub receipt_record : String → Store → Option ReceiptRow
receipt_record receipt_id s = find (has_receipt_id receipt_id) s.receipts

unfoldable pub receipt_exists : String → Store → Bool
receipt_exists receipt_id s = any (has_receipt_id receipt_id) s.receipts

abbrev pub entry_row : String → ReceiptRow → Bool
entry_row delivery_id r =
    r.delivery_id == delivery_id
    && (r.evidence_class == harness_prompt_accepted || r.evidence_class == harness_turn_started)

abbrev pub chain_of : Option ReceiptRow → Option String
chain_of none = none
chain_of (some row) = some row.source_event_chain

unfoldable pub session_entry_chain : String → Store → Option String
session_entry_chain delivery_id s = chain_of (get_last? (filter (entry_row delivery_id) s.receipts))

unfoldable pub source_seen : String → String → Store → Bool
source_seen provider_id source_event_id s = any (from_source provider_id source_event_id) s.receipts

-- UNIQUE (provider_id, source_event_id), in which a NULL meets nothing
abbrev pub source_taken : String → Option String → Store → Bool
source_taken provider_id none s = false
source_taken provider_id (some source_event_id) s =
    any (from_source provider_id source_event_id) s.receipts

-- the primary key, UNIQUE and the two foreign keys of `receipts`
unfoldable pub receipt_admitted : ReceiptRow → Store → Bool
receipt_admitted row s =
    not (any (has_receipt_id row.receipt_id) s.receipts)
    && not (source_taken row.provider_id row.source_event_id s)
    && has_provider row.provider_id s
    && any (has_id row.delivery_id) s.deliveries

unfoldable pub receipt_row :
    Environment → Receipt → Delivery → String → Option Disposition → ReceiptRow
receipt_row env receipt delivery binding_id disposition =
    let fields = proof_storage_fields env receipt.proof in
    record {
      receipt_id = receipt.receipt_id;
      provider_id = receipt.evidence_provider_id;
      source_event_id = receipt.source_event_id;
      event_id = delivery.event_id;
      delivery_id = delivery.delivery_id;
      attempt_id = delivery.attempt_id;
      binding_id = binding_id;
      evidence_class = receipt.evidence_class;
      proof_method = receipt.proof_method;
      observed_at = receipt.observed_at;
      disposition = disposition;
      platform_principal_id = receipt.platform_principal_id;
      platform_message_id = receipt.platform_message_id;
      authored_by_provider = receipt.authored_by_provider;
      infrastructure_event = receipt.infrastructure_event;
      session_id = fields.session_id;
      marker_signature = fields.marker_signature;
      source_event_chain = fields.source_event_chain;
      turn_id = fields.turn_id;
    }

-- INSERT INTO receipts; `binding_id` is NOT NULL
unfoldable pub insert_receipt :
    Environment → Receipt → Delivery → Option Disposition → Exec (Unit {0})
unfolding receipt_admitted receipt_row
insert_receipt env receipt delivery disposition = elim delivery.binding_id [
  | none ↦ insert (λ _. false) (λ s. s)
  | some binding_id ↦
      let row = receipt_row env receipt delivery binding_id disposition in
      insert (receipt_admitted row) (λ s. record s { receipts = s.receipts ++ row ∷ [] })
]

abbrev pub session_entry_of : DeliveryMode → SessionEntry
session_entry_of channel_native = not_applicable
session_entry_of session_bound = applicable

unfoldable pub audit_row : Receipt → Delivery → DeliveryState → Option Disposition → AuditRow
audit_row receipt delivery next_state disposition = record {
  receipt_id = receipt.receipt_id;
  delivery_id = delivery.delivery_id;
  from_state = delivery.state;
  to_state = next_state;
  disposition = disposition;
  delivery_mode = delivery.delivery_mode;
  session_entry = session_entry_of delivery.delivery_mode;
  evidence_class = receipt.evidence_class;
  proof_method = receipt.proof_method;
}

-- INSERT INTO audit_log: a receipt is audited once, and its rows are there
unfoldable pub insert_audit : AuditRow → Exec (Unit {0})
insert_audit row =
    insert
      (λ s.
        not (any (λ a. a.receipt_id == row.receipt_id) s.audit_log)
        && any (has_receipt_id row.receipt_id) s.receipts
        && any (has_id row.delivery_id) s.deliveries)
      (λ s. record s { audit_log = s.audit_log ++ row ∷ [] })

unfoldable pub accept_receipt :
    Environment → Receipt → Delivery → DeliveryState → Option Disposition → Exec (Unit {0})
unfolding insert_receipt update_in_state insert_audit audit_row
accept_receipt env receipt delivery next_state disposition = transaction (do
  insert_receipt env receipt delivery disposition
  changed ←
      update_in_state delivery.delivery_id delivery.state
        (λ d. record d { state = next_state; disposition = disposition })
  raise_if (not (changed == 1)) concurrent_transition_error
  insert_audit (audit_row receipt delivery next_state disposition))

unfoldable pub audit_for : String → Store → List AuditRow
audit_for delivery_id s = filter (λ a. a.delivery_id == delivery_id) s.audit_log

unfoldable pub rejection_row : Receipt → Reason → RejectionRow
rejection_row receipt reason = record {
  receipt_id = receipt.receipt_id;
  delivery_id = receipt.delivery_id;
  provider_id = receipt.evidence_provider_id;
  evidence_class = receipt.evidence_class;
  proof_method = receipt.proof_method;
  observed_at = receipt.observed_at;
  reason = reason;
}

-- The table has no constraint that these columns could break; the method commits.
unfoldable pub record_rejection : Receipt → Reason → Store → Store
unfolding rejection_row
record_rejection receipt reason s = record s {
  receipt_rejections = s.receipt_rejections ++ rejection_row receipt reason ∷ [];
  in_transaction = false;
}

unfoldable pub rejections_for : String → Store → List RejectionRow
rejections_for delivery_id s = filter (λ r. r.delivery_id == delivery_id) s.receipt_rejections
