-- ===== src/Proofs/Chain/Spec.antt =====
-- What a chain of source events must be to pass `validate_session_proof`, in plain terms.
use yatagarasu.Prelude.{
  String, ◌≡◌, ◌≢◌, ◌↔◌, ◌∙◌, ap, refl, true, false, not, some, List, ◌∷◌, [], map, any, distinct,
  contains, ◌==◌, string_eq, option_eq, list_eq, All, not-eq-false, arith,
}
use yatagarasu.Prelude.Int.{ℤ, is_negative, le_int, lt_int}
use yatagarasu.Prelude.Rows.{All-of_not_any, not_any_of_All, All-imp}
use yatagarasu.Types.{Delivery, SourceEventRef, SessionProof, ProofMethodRegistration}
use yatagarasu.Reasons.{ok, guard-eq-ok, guard-passes, refuse_if-eq-ok}
use yatagarasu.Proofs.Chain.{
  check_events, check_correlation, identity_invalid, out_of_order, boot_changed, uncorrelated,
  foreign_session, foreign_source,
}

-- Each event precedes all later ones.
abbrev pub Ascending : List SourceEventRef → Type 0
Ascending [] = Unit
Ascending (e ∷ es) = All (λ f. lt_int e.seq f.seq ≡ true) es × Ascending es

-- All events come from one boot.
abbrev pub OneBoot : List SourceEventRef → Type 0
OneBoot [] = ⊥
OneBoot (e ∷ es) = All (λ f. f.boot_id ≡ e.boot_id) es

-- No source event is named twice.
abbrev pub Unrepeated : List SourceEventRef → Type 0
Unrepeated [] = Unit
Unrepeated (e ∷ es) = All (λ f. e.source_event_id ≢ f.source_event_id) es × Unrepeated es

-- The second event carries the marker, and the hooks after it the session.
abbrev pub Correlated : SessionProof → Delivery → List SourceEventRef → Type 0
Correlated proof delivery (_ ∷ prompt ∷ hooks) =
    (prompt.binding_id ≡ delivery.binding_id)
    × (prompt.marker_signature ≡ some proof.marker.signature)
    × All (λ e. e.session_id ≡ some proof.session_id) hooks
Correlated proof delivery _ = ⊥

abbrev pub Identified : SourceEventRef → Type 0
Identified e = (e.boot_id ≢ "") × (e.source_event_id ≢ "") × (is_negative e.seq ≡ false)

pub record IsChain (proof : SessionProof) (delivery : Delivery)
    (registration : ProofMethodRegistration) (names : List String) : Type 0 where
  pub named : map (λ e. e.event_name) proof.source_events ≡ names
  pub sourced :
      All (λ e. e.source_instance_id ≡ registration.source_instance_id) proof.source_events
  pub identified : All Identified proof.source_events
  pub one_boot : OneBoot proof.source_events
  pub unrepeated : Unrepeated proof.source_events
  pub ascending : Ascending proof.source_events
  pub correlated : Correlated proof delivery proof.source_events

lt_int_trans : (a b c : ℤ) → lt_int a b ≡ true → lt_int b c ≡ true → lt_int a c ≡ true
lt_int_trans a b c h k = ground arith

lt_of_not_le : (a b : ℤ) → le_int b a ≡ false → lt_int a b ≡ true
lt_of_not_le a b h = ground arith

ascending : (es : List SourceEventRef) → out_of_order es ≡ false → Ascending es
unfolding out_of_order
ascending [] h = tt
ascending (e ∷ []) h = (tt, tt)
ascending (e ∷ f ∷ es) h =
    let first : lt_int e.seq f.seq ≡ true = lt_of_not_le e.seq f.seq (ground arith) in
    let rest = ascending (f ∷ es) (ground arith) in
    ((first, All-imp _ _ (λ g k. lt_int_trans e.seq f.seq g.seq first k) es rest.0), rest)

one_boot : (es : List SourceEventRef) → boot_changed es ≡ false → OneBoot es
unfolding boot_changed
one_boot [] h = cc
one_boot (e ∷ es) h = All-imp _ _ (λ f k. ground arith) es (All-of_not_any _ es h)

absent :
    (x : String) (es : List SourceEventRef)
    → contains (map (λ e. e.source_event_id) es) x ≡ false
    → All (λ f. x ≢ f.source_event_id) es
absent x [] h = tt
absent x (e ∷ es) h = (λ p. ground arith, absent x es (ground arith))

unrepeated :
    (es : List SourceEventRef) → distinct (map (λ e. e.source_event_id) es) ≡ true → Unrepeated es
unfolding distinct
unrepeated [] h = tt
unrepeated (e ∷ es) h = (absent e.source_event_id es (ground arith), unrepeated es (ground arith))

correlated :
    (proof : SessionProof) (delivery : Delivery) (es : List SourceEventRef)
    → check_correlation proof delivery es ≡ ok tt
    → Correlated proof delivery es
unfolding check_correlation
correlated proof delivery [] h = cc
correlated proof delivery (e ∷ []) h = cc
correlated proof delivery (e ∷ prompt ∷ hooks) h =
    let (marked, rest) = guard-eq-ok (uncorrelated proof delivery prompt) _ _ h in
    let hooked = All-of_not_any (foreign_session proof) hooks (refuse_if-eq-ok _ _ rest) in
    (
      ground arith,
      ground arith,
      All-imp (λ f. foreign_session proof f ≡ false) _ (λ f k. ground arith) hooks hooked,
    )

Identified-of : (e : SourceEventRef) → identity_invalid e ≡ false → Identified e
unfolding identity_invalid
Identified-of e k = ground arith

-- A chain that the checks let through is one of the kind described.
pub check_events-IsChain :
    (proof : SessionProof) (delivery : Delivery) (registration : ProofMethodRegistration)
    (names : List String)
    → check_events proof delivery registration names ≡ ok tt
    → IsChain proof delivery registration names
unfolding check_events
check_events-IsChain proof delivery registration names h =
    let events = proof.source_events in
    let (h₁, k₁) = guard-eq-ok (not (map (λ e. e.event_name) events == names)) _ _ h in
    let (h₂, k₂) = guard-eq-ok (any (foreign_source registration) events) _ _ k₁ in
    let (h₃, k₃) = guard-eq-ok (any identity_invalid events) _ _ k₂ in
    let (h₄, k₄) = guard-eq-ok (boot_changed events) _ _ k₃ in
    let (h₅, k₅) = guard-eq-ok (not (distinct (map (λ e. e.source_event_id) events))) _ _ k₄ in
    let (h₆, k₆) = guard-eq-ok (out_of_order events) _ _ k₅ in
    record {
      named = ground arith;
      sourced =
          All-imp (λ e. foreign_source registration e ≡ false) _ (λ e k. ground arith) events
            (All-of_not_any _ events h₂);
      identified = All-imp _ _ Identified-of events (All-of_not_any identity_invalid events h₃);
      one_boot = one_boot _ h₄;
      unrepeated = unrepeated _ (not-eq-false _ h₅);
      ascending = ascending _ h₆;
      correlated = correlated proof delivery _ k₆;
    }

not_le_of_lt : (a b : ℤ) → lt_int a b ≡ true → le_int b a ≡ false
not_le_of_lt a b h = ground arith

in_order : (es : List SourceEventRef) → Ascending es → out_of_order es ≡ false
unfolding out_of_order
in_order [] h = refl
in_order (e ∷ []) h = refl
in_order (e ∷ f ∷ es) h = ground (arith, not_le_of_lt e.seq f.seq h.0.0, in_order (f ∷ es) h.1)

same_boot : (es : List SourceEventRef) → OneBoot es → boot_changed es ≡ false
unfolding boot_changed
same_boot [] h = absurd h
same_boot (e ∷ es) h =
    not_any_of_All _ es (All-imp (λ f. f.boot_id ≡ e.boot_id) _ (λ f k. ground arith) es h)

not_listed :
    (x : String) (es : List SourceEventRef)
    → All (λ f. x ≢ f.source_event_id) es
    → contains (map (λ e. e.source_event_id) es) x ≡ false
not_listed x [] h = refl
not_listed x (e ∷ es) h = let rest = not_listed x es h.1 in let ne = h.0 in ground (arith, rest)

distinct_of_Unrepeated :
    (es : List SourceEventRef) → Unrepeated es → distinct (map (λ e. e.source_event_id) es) ≡ true
unfolding distinct
distinct_of_Unrepeated [] h = refl
distinct_of_Unrepeated (e ∷ es) h =
    ground (arith, not_listed e.source_event_id es h.0, distinct_of_Unrepeated es h.1)

correlation_passes :
    (proof : SessionProof) (delivery : Delivery) (es : List SourceEventRef)
    → Correlated proof delivery es
    → check_correlation proof delivery es ≡ ok tt
unfolding check_correlation
correlation_passes proof delivery [] h = absurd h
correlation_passes proof delivery (e ∷ []) h = absurd h
correlation_passes proof delivery (e ∷ prompt ∷ hooks) h =
    let (binding, signature, session) = h in
    let hooked : any (foreign_session proof) hooks ≡ false =
      not_any_of_All (foreign_session proof) hooks (
        All-imp (λ f. f.session_id ≡ some proof.session_id) _ (λ f k. ground arith) hooks
          session) in
    guard-passes (uncorrelated proof delivery prompt) _ _ (ground arith) ∙ rw hooked

identity_passes : (e : SourceEventRef) → Identified e → identity_invalid e ≡ false
unfolding identity_invalid
identity_passes e h = let (boot, source, seq) = h in ground arith

-- Every chain of the kind described passes.
check_events_of_IsChain :
    (proof : SessionProof) (delivery : Delivery) (registration : ProofMethodRegistration)
    (names : List String)
    → IsChain proof delivery registration names
    → check_events proof delivery registration names ≡ ok tt
unfolding check_events
check_events_of_IsChain proof delivery registration names c =
    let events = proof.source_events in
    let named = c.named in
    guard-passes (not (map (λ e. e.event_name) events == names)) _ _ (ground arith)
    ∙ guard-passes (any (foreign_source registration) events) _ _ (
        not_any_of_All (foreign_source registration) events (
          All-imp (λ e. e.source_instance_id ≡ registration.source_instance_id) _
            (λ e k. ground arith) events c.sourced))
    ∙ guard-passes (any identity_invalid events) _ _ (
        not_any_of_All identity_invalid events
          (All-imp Identified _ identity_passes events c.identified))
    ∙ guard-passes (boot_changed events) _ _ (same_boot events c.one_boot)
    ∙ guard-passes (not (distinct (map (λ e. e.source_event_id) events))) _ _
        (ap not (distinct_of_Unrepeated events c.unrepeated))
    ∙ guard-passes (out_of_order events) _ _ (in_order events c.ascending)
    ∙ correlation_passes proof delivery events c.correlated

-- The checks on a chain of source events pass exactly when the chain has the expected event names,
-- comes whole from the registered source and from one boot, has non-empty identifiers and
-- non-negative sequence numbers, repeats no source event, has each event before all later ones,
-- and its prompt carries the delivery's binding and the marker's signature, and its hooks the
-- session.
pub check_events_iff :
    (proof : SessionProof) (delivery : Delivery) (registration : ProofMethodRegistration)
    (names : List String)
    → (check_events proof delivery registration names ≡ ok tt)
      ↔ IsChain proof delivery registration names
check_events_iff proof delivery registration names = (
  check_events-IsChain proof delivery registration names,
  check_events_of_IsChain proof delivery registration names,
)
