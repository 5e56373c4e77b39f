-- ===== src/Cmux/Calls/Related.antt =====
-- Actions whose every outcome, raised or returned, leaves a state that is related to the one before.
use yatagarasu.Prelude.{Bool, true, false, if◌then◌else◌}
use yatagarasu.Cmux.Calls.{Action, Answer, returned, raised, continue, ◌>>=◌}

module _ {S : Type 0} (R : S → S → Type 0) where
  pub record IsRelated (A : Type 0) (s : S) (p : Answer A × S) : Type 0 where
    pub related : R s p.1

  abbrev pub Relates : {A : Type 0} → Action S A → Type 0
  Relates {A} m = (s : S) → IsRelated A s (m s)

  -- whichever branch is taken
  pub if-IsRelated :
      {A : Type 0} {s : S} (b : Bool) (x y : Answer A × S)
      → IsRelated A s x
      → IsRelated A s y
      → IsRelated A s (if b then x else y)
  if-IsRelated true x y p q = p
  if-IsRelated false x y p q = q

  module _ (trans : (s t u : S) → R s t → R t u → R s u) where
    pub continue-IsRelated :
        {A B : Type 0} {s : S} (f : A → Action S B) (r : Answer A) (t : S)
        → R s t
        → ((a : A) → IsRelated B t (f a t))
        → IsRelated B s (continue r f t)
    continue-IsRelated {s} f (returned a) t first rest = record {
      related = trans s t (f a t).1 first (rest a).related;
    }
    continue-IsRelated f (raised e) t first rest = record { related = first }

    pub bind_IsRelated :
        {A B : Type 0} (m : Action S A) (f : A → Action S B) (s : S)
        → Relates m
        → ((a : A) → Relates (f a))
        → IsRelated B s ((m >>= f) s)
    bind_IsRelated m f s first rest =
        continue-IsRelated f (m s).0 (m s).1 (first s).related (λ a. rest a (m s).1)
