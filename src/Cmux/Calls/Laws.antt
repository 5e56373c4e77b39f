-- ===== src/Cmux/Calls/Laws.antt =====
-- Inversion of the steps of an action.
use yatagarasu.Prelude.{Bool, true, false, ◌≡◌, refl, ap, ◌⊎◌, inl, inr}
use yatagarasu.Cmux.Calls.{
  Action, Answer, Error, returned, raised, refuse_if, continue, close, transaction, lift, ◌>>=◌,
  ◌>>◌,
}

pub refuse_if-eq-returned :
    (test : Bool) (e : Error) {u : Unit {0}} → refuse_if test e ≡ returned u → test ≡ false
refuse_if-eq-returned true e h = cc
refuse_if-eq-returned false e h = refl

module _ {S : Type 0} where
  module _ {ℓ} {A : Type ℓ} where
    -- A transaction that raises leaves the state as it was.
    pub transaction-eq-raised :
        (m : Action S A) (s : S) {e : Error} {t : S}
        → transaction m s ≡ (raised e, t)
        → (u : S) × (m s ≡ (raised e, u)) × (t ≡ s)
    transaction-eq-raised m s h = inverted (m s) h
      where
        inverted :
            (r : Answer A × S) {e : Error} {t : S}
            → close s r.0 r.1 ≡ (raised e, t)
            → (u : S) × (r ≡ (raised e, u)) × (t ≡ s)
        inverted (returned a, u) h = cc
        inverted (raised e, u) h = (u, cc, cc)

    pub transaction-eq-returned :
        (m : Action S A) (s : S) {a : A} {t : S}
        → transaction m s ≡ (returned a, t)
        → m s ≡ (returned a, t)
    transaction-eq-returned m s h = inverted (m s) h
      where
        inverted :
            (r : Answer A × S) {a : A} {t : S}
            → close s r.0 r.1 ≡ (returned a, t)
            → r ≡ (returned a, t)
        inverted (returned a, u) h = h
        inverted (raised e, u) h = cc

  module _ {ℓ κ} {A : Type ℓ} {B : Type κ} where
    pub both_answer :
        (m : Action S A) (f : A → Action S B) (s : S) {b : B} {t : S}
        → (m >>= f) s ≡ (returned b, t)
        → (a : A) × (u : S) × (m s ≡ (returned a, u)) × (f a u ≡ (returned b, t))
    both_answer m f s h = inverted (m s) h
      where
        inverted :
            (r : Answer A × S) {b : B} {t : S}
            → continue r.0 f r.1 ≡ (returned b, t)
            → (a : A) × (u : S) × (r ≡ (returned a, u)) × (f a u ≡ (returned b, t))
        inverted (returned a, u) h = (a, u, refl, h)
        inverted (raised e, u) h = cc

pub Answer-cases {ℓ} :
    {A : Type ℓ} (answer : Answer A)
    → ((a : A) × (answer ≡ returned a)) ⊎ ((e : Error) × (answer ≡ raised e))
Answer-cases (returned a) = inl (a, refl)
Answer-cases (raised e) = inr (e, refl)

module _ {ℓ} {S : Type 0} {B : Type ℓ} where
  -- A check and then an action return: the check passes, and the action returns from the same state.
  pub checked-eq-returned :
      (check : Answer (Unit {0})) (m : Action S B) (s : S) {b : B} {t : S}
      → (lift check >> m) s ≡ (returned b, t)
      → (check ≡ returned tt) × (m s ≡ (returned b, t))
  checked-eq-returned (returned tt) m s h = (refl, h)
  checked-eq-returned (raised e) m s h = cc

  -- A check and then an action raise: the check does, where nothing has changed, or the action.
  pub checked-eq-raised :
      (check : Answer (Unit {0})) (m : Action S B) (s : S) {e : Error} {t : S}
      → (lift check >> m) s ≡ (raised e, t)
      → (t ≡ s) ⊎ (m s ≡ (raised e, t))
  checked-eq-raised (returned tt) m s h = inr h
  checked-eq-raised (raised e') m s h = inl cc

pub whole_answer {ℓ κ} : {A : Type ℓ} {S : Type κ} (r : A × S) {a : A} → r.0 ≡ a → r ≡ (a, r.1)
whole_answer r e = ap (λ x. (x, r.1)) e
