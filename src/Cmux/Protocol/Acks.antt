-- ===== src/Cmux/Protocol/Acks.antt =====
-- What a parsed acknowledgement guarantees, and which frames parse.
use yatagarasu.Prelude.{
  String, Bool, true, false, ◌||◌, Option, none, some, string_eq, is_empty, ◌≡◌, ◌↔◌, refl, ap, sym,
  ◌⊎◌, inl, inr, arith, Bool-cases,
}
use yatagarasu.Prelude.Int.{ℤ, pos, is_negative}
use yatagarasu.Cmux.Calls.{returned}
use yatagarasu.Cmux.Json.{
  Value, Fields, null, boolean, integer, text, object, get, as_text, as_integer, as_object, is_text,
  equals_integer, Wire,
}
use yatagarasu.Cmux.Protocol.{
  StreamAck, ResumeMetadata, is_supported, parse_ack, parse_identity, parse_resume, finish_ack,
  requested_of, as_boolean,
}

-- the value of the requested cursor, and how it is held; it may be any number
abbrev pub IsRequested : Value → Option ℤ → Type 0
IsRequested v r = ((v ≡ null) × (r ≡ none)) ⊎ ((n : ℤ) × (v ≡ integer n) × (r ≡ some n))

-- The resume metadata in plain terms: the values of its keys, and no negative position.
pub record IsResume (fields : Fields) (resume : ResumeMetadata) : Type 0 where
  pub requested : IsRequested (get "requested_after_seq" fields) resume.requested_after_seq
  pub oldest : get "oldest_seq" fields ≡ integer resume.oldest_seq
  pub latest : get "latest_seq" fields ≡ integer resume.latest_seq
  pub next_position : get "next_seq" fields ≡ integer resume.next_seq
  pub declared_gap : get "gap" fields ≡ boolean resume.gap
  pub oldest_bound : is_negative resume.oldest_seq ≡ false
  pub latest_bound : is_negative resume.latest_seq ≡ false
  pub next_bound : is_negative resume.next_seq ≡ false

-- An acknowledgement in plain terms.
pub record IsAck (wire : Wire) (frame : Fields) (ack : StreamAck) : Type 0 where
  pub kind : get "type" frame ≡ text "ack"
  pub protocol : get "protocol" frame ≡ text "cmux-events"
  pub version : equals_integer wire.integral (pos 1) (get "version" frame) ≡ true
  pub boot : get "boot_id" frame ≡ text ack.boot_id
  pub named : is_empty ack.boot_id ≡ false
  pub replay : get "replay_count" frame ≡ integer ack.replay_count
  pub replay_bound : is_negative ack.replay_count ≡ false
  pub fields : Fields
  pub resumed : get "resume" frame ≡ object fields
  pub metadata : IsResume fields ack.resume

as_text-eq : (v : Value) {s : String} → as_text v ≡ some s → v ≡ text s
as_text-eq (text s) h = ground arith
as_text-eq null h = cc
as_text-eq v h = cc

is_text-eq : (s : String) (v : Value) → is_text s v ≡ true → v ≡ text s
is_text-eq s (text t) h = ground arith
is_text-eq s v h = cc

text-is_text : (s : String) → is_text s (text s) ≡ true
text-is_text s = ground arith

as_integer-eq : (v : Value) {n : ℤ} → as_integer v ≡ some n → v ≡ integer n
as_integer-eq (integer n) h = ground arith
as_integer-eq v h = cc

as_boolean-eq : (v : Value) {b : Bool} → as_boolean v ≡ some b → v ≡ boolean b
as_boolean-eq (boolean b) h = ground arith
as_boolean-eq v h = cc

as_object-eq : (v : Value) {payload : Fields} → as_object v ≡ some payload → v ≡ object payload
as_object-eq (object payload) h = ground arith
as_object-eq v h = cc

requested_of-eq : (v : Value) {r : Option ℤ} → requested_of v ≡ some r → IsRequested v r
requested_of-eq null {r} h = inl (refl, ground arith)
requested_of-eq (integer n) {r} h = inr (n, refl, ground arith)
requested_of-eq v h = cc

requested_of_complete : (v : Value) (r : Option ℤ) → IsRequested v r → requested_of v ≡ some r
requested_of_complete v r (inl (is, held)) = rw (is, held) refl
requested_of_complete v r (inr (n, is, held)) = rw (is, held) refl

-- what the last steps read and test
abbrev Finished :
    String → ℤ → Option ℤ → Option ℤ → Option ℤ → Option ℤ → Option Bool → StreamAck → Type 0
Finished boot_id replay_count requested oldest latest next_seq gap ack =
    (ack.boot_id ≡ boot_id)
    × (ack.replay_count ≡ replay_count)
    × (ack.resume.requested_after_seq ≡ requested)
    × (oldest ≡ some ack.resume.oldest_seq)
    × (latest ≡ some ack.resume.latest_seq)
    × (next_seq ≡ some ack.resume.next_seq)
    × (gap ≡ some ack.resume.gap)
    × (is_negative ack.resume.oldest_seq ≡ false)
    × (is_negative ack.resume.latest_seq ≡ false)
    × (is_negative ack.resume.next_seq ≡ false)

finish_ack-Finished :
    (boot_id : String) (replay_count : ℤ) (requested oldest latest next_seq : Option ℤ)
    (gap : Option Bool) {ack : StreamAck}
    → finish_ack boot_id replay_count requested oldest latest next_seq gap ≡ returned ack
    → Finished boot_id replay_count requested oldest latest next_seq gap ack
finish_ack-Finished b r q (some oldest) (some latest) (some next_seq) (some gap) h = ground arith
finish_ack-Finished b r q _ _ _ _ h = cc

-- the identity and the metadata of a parsed resume
abbrev Read : String → ℤ → Fields → StreamAck → Type 0
Read boot_id replay_count fields ack =
    (ack.boot_id ≡ boot_id) × (ack.replay_count ≡ replay_count) × IsResume fields ack.resume

parse_resume-Read :
    (boot_id : String) (replay_count : ℤ) (fields : Fields) (requested : Option (Option ℤ))
    {ack : StreamAck}
    → requested_of (get "requested_after_seq" fields) ≡ requested
    → parse_resume boot_id replay_count fields requested ≡ returned ack
    → Read boot_id replay_count fields ack
parse_resume-Read b r resume none is h = cc
parse_resume-Read b r resume (some q) {ack} is h =
    let done = finish_ack-Finished b r q _ _ _ _ h in
    (
      done.0,
      done.1,
      record {
        requested = rw done.2 (requested_of-eq (get "requested_after_seq" resume) is);
        oldest = as_integer-eq (get "oldest_seq" resume) done.3;
        latest = as_integer-eq (get "latest_seq" resume) done.4;
        next_position = as_integer-eq (get "next_seq" resume) done.5;
        declared_gap = as_boolean-eq (get "gap" resume) done.6;
        oldest_bound = done.7;
        latest_bound = done.8;
        next_bound = done.9;
      },
    )

-- the values that the identity was read from
abbrev Identified : Option String → Option ℤ → Option Fields → StreamAck → Type 0
Identified boot replay resume ack =
    (boot ≡ some ack.boot_id)
    × (replay ≡ some ack.replay_count)
    × (is_empty ack.boot_id ≡ false)
    × (is_negative ack.replay_count ≡ false)
    × (fields : Fields) × (resume ≡ some fields)
    × IsResume fields ack.resume

parse_identity-Identified :
    (boot : Option String) (replay : Option ℤ) (resume : Option Fields) {ack : StreamAck}
    → parse_identity boot replay resume ≡ returned ack
    → Identified boot replay resume ack
parse_identity-Identified (some boot_id) (some replay_count) (some resume) {ack} h =
    elim (Bool-cases (is_empty boot_id || is_negative replay_count)) [
      | inl bad ↦ absurd (ground arith)
      | inr good ↦
          let read = parse_resume-Read boot_id replay_count resume _ refl (rw good at h) in
          (
            ap some (sym read.0),
            ap some (sym read.1),
            rw read.0 (ground arith),
            rw read.1 (ground arith),
            resume,
            refl,
            read.2,
          )
    ]
parse_identity-Identified _ _ _ h = cc

module _ (wire : Wire) (frame : Fields) (ack : StreamAck) where
  parsed-IsAck : parse_ack wire frame ≡ returned ack → IsAck wire frame ack
  unfolding parse_ack
  parsed-IsAck h = elim (Bool-cases (is_supported wire "ack" frame)) [
    | inl supported ↦
        let read =
          parse_identity-Identified (as_text (get "boot_id" frame))
            (as_integer (get "replay_count" frame)) (as_object (get "resume" frame))
            (rw supported at h) in
        record {
          kind = is_text-eq "ack" (get "type" frame) (ground arith);
          protocol = is_text-eq "cmux-events" (get "protocol" frame) (ground arith);
          version = ground arith;
          boot = as_text-eq (get "boot_id" frame) read.0;
          named = read.2;
          replay = as_integer-eq (get "replay_count" frame) read.1;
          replay_bound = read.3;
          fields = read.4;
          resumed = as_object-eq (get "resume" frame) read.5;
          metadata = read.6;
        }
    | inr other ↦ absurd (ground arith)
  ]

  IsAck-parsed : IsAck wire frame ack → parse_ack wire frame ≡ returned ack
  unfolding parse_ack
  IsAck-parsed is =
      let resume = is.metadata in
      rw (
        is.kind,
        is.protocol,
        text-is_text "ack",
        text-is_text "cmux-events",
        is.version,
        is.boot,
        is.replay,
        is.resumed,
        is.named,
        is.replay_bound,
        requested_of_complete (get "requested_after_seq" is.fields) ack.resume.requested_after_seq
            resume.requested,
        resume.oldest,
        resume.latest,
        resume.next_position,
        resume.declared_gap,
        resume.oldest_bound,
        resume.latest_bound,
        resume.next_bound,
      )

-- A frame parses to an acknowledgement exactly when its type is "ack", its protocol "cmux-events"
-- and its version equal to 1, its boot is named, the acknowledgement holds the frame's values, the
-- requested cursor is null or a number, and the number of replayed events and the oldest, latest
-- and next positions are not negative.
pub parse_ack_iff :
    (wire : Wire) (frame : Fields) (ack : StreamAck)
    → (parse_ack wire frame ≡ returned ack) ↔ IsAck wire frame ack
parse_ack_iff wire frame ack = (parsed-IsAck wire frame ack, IsAck-parsed wire frame ack)
