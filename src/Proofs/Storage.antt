-- ===== src/Proofs/Storage.antt =====
-- `source_chain_json` and `proof_storage_fields` of core/yatagarasu_core/proofs.py.
use yatagarasu.Prelude.{String, Option, none, some, List, ◌∷◌, [], map}
use yatagarasu.Environment.{Environment, Scalar, null, text, int, array}
use yatagarasu.Types.{SourceEventRef, SessionProof}

abbrev pub optional_text : Option String → Scalar
optional_text none = null
optional_text (some s) = text s

abbrev pub event_fields : SourceEventRef → List (String × Scalar)
event_fields event =
    ("binding_id", optional_text event.binding_id)
    ∷ ("boot_id", text event.boot_id)
    ∷ ("event_name", text event.event_name)
    ∷ ("marker_signature", optional_text event.marker_signature)
    ∷ ("seq", int event.seq)
    ∷ ("session_id", optional_text event.session_id)
    ∷ ("source_event_id", text event.source_event_id)
    ∷ ("source_instance_id", text event.source_instance_id)
    ∷ []

unfoldable pub source_chain_json : Environment → List SourceEventRef → String
source_chain_json env events = env.dumps (array (map event_fields events))

pub record StorageFields : Type 0 where
  pub session_id : Option String
  pub marker_signature : Option String
  pub source_event_chain : String
  pub turn_id : Option String

unfoldable pub proof_storage_fields : Environment → Option SessionProof → StorageFields
unfolding source_chain_json
proof_storage_fields env none = record {
  session_id = none;
  marker_signature = none;
  source_event_chain = "[]";
  turn_id = none;
}
proof_storage_fields env (some proof) = record {
  session_id = some proof.session_id;
  marker_signature = some proof.marker.signature;
  source_event_chain = source_chain_json env proof.source_events;
  turn_id = proof.turn_id;
}
