-- ===== src/Cmux/Injector/Evidence.antt =====
-- When a submission counts as proven, and when it may be queued again.
use yatagarasu.Prelude.{
  String, Bool, true, false, not, ◌&&◌, ◌||◌, List, [], ◌∷◌, ◌++◌, ◌==◌, string_eq, contains, ◌≡◌,
  refl, sym, ◌∙◌, inl, inr, Bool-cases, arith,
}
use yatagarasu.Cmux.Outcome.{
  SubmitResult, SubmitOutcome, submitted, not_submitted, unknown, is_submitted, is_not_submitted,
  is_unknown, is_proven, may_requeue, must_hold,
}
use yatagarasu.Cmux.Injector.{
  event_input_sent, event_prompt_submitted, all_required, note, classify_shortfall, await_from,
  await_proof,
}

abbrev pub is_nil : List String → Bool
is_nil [] = true
is_nil (x ∷ xs) = false

contains-append :
    (xs ys : List String) (a : String) → contains (xs ++ ys) a ≡ (contains xs a || contains ys a)
contains-append [] ys a = refl
contains-append (x ∷ xs) ys a = ground (arith, contains-append xs ys a)

contains-note :
    (seen : List String) (name a : String)
    → contains (note seen name) a ≡ (contains seen a || a == name)
contains-note seen name a = ground (arith, contains-append seen (name ∷ []) a)

note-is_nil : (seen : List String) (name : String) → is_nil (note seen name) ≡ false
note-is_nil [] name = refl
note-is_nil (x ∷ seen) name = ground arith

-- one of both events, in what was seen and what is still to come
abbrev reaches : List String → List String → String → Bool
reaches seen names event = contains seen event || contains names event

reaches-note :
    (seen names : List String) (name event : String)
    → reaches (note seen name) names event ≡ reaches seen (name ∷ names) event
reaches-note seen names name event = ground (arith, contains-note seen name event)

both : {a b : Bool} → (a && b) ≡ true → (a ≡ true) × (b ≡ true)
both {a} {b} h = (ground arith, ground arith)

reaches_of_contains :
    (seen names : List String) (event : String)
    → contains seen event ≡ true
    → reaches seen names event ≡ true
reaches_of_contains seen names event h = ground arith

await_from-is_proven :
    (delivery_id : String) (seen names : List String)
    → all_required seen ≡ false
    → is_proven (await_from delivery_id seen names)
      ≡ (reaches seen names event_input_sent && reaches seen names event_prompt_submitted)
unfolding await_from classify_shortfall
await_from-is_proven delivery_id [] [] h = refl
await_from-is_proven delivery_id (x ∷ seen) [] h = ground arith
await_from-is_proven delivery_id seen (name ∷ names) h =
    let sent = reaches-note seen names name event_input_sent in
    let prompted = reaches-note seen names name event_prompt_submitted in
    elim (Bool-cases (all_required (note seen name))) [
      | inl e ↦
          let sent' = reaches_of_contains (note seen name) names event_input_sent (both e).0 in
          let prompted' =
            reaches_of_contains (note seen name) names event_prompt_submitted (both e).1 in
          rw (e, sym sent, sym prompted, sent', prompted') refl
      | inr e ↦
          rw e
            (await_from-is_proven delivery_id (note seen name) names e ∙ rw (sent, prompted) refl)
    ]

await_from-may_requeue :
    (delivery_id : String) (seen names : List String)
    → is_nil seen ≡ false
    → may_requeue (await_from delivery_id seen names) ≡ false
unfolding await_from classify_shortfall
await_from-may_requeue delivery_id [] names h = cc
await_from-may_requeue delivery_id (x ∷ seen) [] h = refl
await_from-may_requeue delivery_id (x ∷ seen) (name ∷ names) h = ground (
  arith,
  await_from-may_requeue delivery_id (note (x ∷ seen) name) names (note-is_nil (x ∷ seen) name),
)

await_proof-may_requeue :
    (delivery_id : String) (names : List String)
    → may_requeue (await_proof delivery_id names) ≡ is_nil names
unfolding await_from classify_shortfall
await_proof-may_requeue delivery_id [] = refl
await_proof-may_requeue delivery_id (name ∷ names) =
    ground (arith, await_from-may_requeue delivery_id (name ∷ []) names refl)

held_otherwise :
    (result : SubmitResult)
    → must_hold result ≡ (not (is_proven result) && not (may_requeue result))
held_otherwise result = of_outcome result.outcome
  where
    of_outcome :
        (outcome : SubmitOutcome)
        → is_unknown outcome ≡ (not (is_submitted outcome) && not (is_not_submitted outcome))
    of_outcome submitted = refl
    of_outcome not_submitted = refl
    of_outcome unknown = refl

-- The submission is proven exactly when the observer has yielded both required events, it may be
-- queued again exactly when the observer has yielded nothing, and it is held in all other cases.
pub await_proof-verdict :
    (delivery_id : String) (names : List String)
    → (is_proven (await_proof delivery_id names) ≡ all_required names)
      × (may_requeue (await_proof delivery_id names) ≡ is_nil names)
      × (must_hold (await_proof delivery_id names)
          ≡ (not (all_required names) && not (is_nil names)))
await_proof-verdict delivery_id names =
    let proven = await_from-is_proven delivery_id [] names refl in
    let requeued = await_proof-may_requeue delivery_id names in
    (proven, requeued, held_otherwise (await_proof delivery_id names) ∙ rw (proven, requeued) refl)
