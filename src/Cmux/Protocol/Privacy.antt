-- ===== src/Cmux/Protocol/Privacy.antt =====
-- What of an event's payload reaches the outbox.
use yatagarasu.Prelude.{
  String, false, Option, some, ◌==◌, string_eq, contains, ◌≡◌, ◌≢◌, refl, ap, arith,
}
use yatagarasu.Prelude.Int.{ℤ, int_eq}
use yatagarasu.Cmux.Json.{Value, Fields, object, field, get, as_text, as_integer, Wire}
use yatagarasu.Cmux.Protocol.{
  safe_payload_keys, safe_fields, preview_marker, safe_payload, projected, project_identity,
  project,
}

-- Two frames that differ in their payloads only.
abbrev pub AgreeOutside : Fields → Fields → Type 0
AgreeOutside f f' = (key : String) → (key == "payload") ≡ false → get key f' ≡ get key f

-- Two payloads of which the same is safe to keep: the same safe fields, and the same marker.
pub record SameSafe (wire : Wire) (p p' : Fields) : Type 0 where
  pub fields_kept : safe_fields p' ≡ safe_fields p
  pub marker_kept :
      preview_marker wire (get "message_preview" p') ≡ preview_marker wire (get "message_preview" p)

module _ (wire : Wire) (source : String) (f f' p p' : Fields) (outside : AgreeOutside f f')
    (is : get "payload" f ≡ object p) (is' : get "payload" f' ≡ object p')
    (same : SameSafe wire p p') where
  same_safe_payload : safe_payload wire (get "payload" f') ≡ safe_payload wire (get "payload" f)
  unfolding safe_payload
  same_safe_payload = rw (is, is', same.fields_kept, same.marker_kept)

  same_projection :
      (boot_id : String) (seq : ℤ) (event_id name : String)
      → projected wire f' boot_id seq event_id name ≡ projected wire f boot_id seq event_id name
  unfolding string_eq
  same_projection boot_id seq event_id name = rw (
    same_safe_payload,
    outside "category" refl,
    outside "occurred_at" refl,
    outside "pane_id" refl,
    outside "source" refl,
    outside "surface_id" refl,
    outside "window_id" refl,
    outside "workspace_id" refl,
  )

  same_identity :
      (boot_id : String) (seq : Option ℤ) (event_id name : Option String)
      → project_identity wire source f' boot_id seq event_id name
        ≡ project_identity wire source f boot_id seq event_id name
  same_identity boot_id (some seq) (some event_id) (some name) =
      rw (same_projection boot_id seq event_id name)
  same_identity boot_id _ _ _ = refl

  private_projection :
      (boot_id : String) → project wire source f' boot_id ≡ project wire source f boot_id
  unfolding project string_eq
  private_projection boot_id = rw (
    outside "type" refl,
    outside "protocol" refl,
    outside "version" refl,
    outside "boot_id" refl,
    outside "seq" refl,
    outside "id" refl,
    outside "name" refl,
    same_identity boot_id (as_integer (get "seq" f)) (as_text (get "id" f))
        (as_text (get "name" f)),
  )

-- Content that is not safe to keep cannot be seen in the projection: two frames that agree outside
-- their payloads, and whose payloads agree in their safe fields and in the marker of their
-- previews, are projected to the same event, or refused alike.
pub project-private :
    (wire : Wire) (source : String) (f f' p p' : Fields) (expected_boot_id : String)
    → AgreeOutside f f'
    → get "payload" f ≡ object p
    → get "payload" f' ≡ object p'
    → SameSafe wire p p'
    → project wire source f' expected_boot_id ≡ project wire source f expected_boot_id
project-private wire source f f' p p' expected_boot_id outside is is' same =
    private_projection wire source f f' p p' outside is is' same expected_boot_id

-- A field under another key than the safe ones and the preview's, whatever its value, leaves the
-- same safe to keep.
pub unsafe_field-SameSafe :
    (wire : Wire) (key : String) (value : Value) (p : Fields)
    → contains safe_payload_keys key ≡ false
    → key ≢ "message_preview"
    → SameSafe wire p (field key value p)
unfolding safe_fields get
unsafe_field-SameSafe wire key value p unsafe other = record {
  fields_kept = ground arith;
  marker_kept = ap (preview_marker wire) (ground arith);
}
