-- ===== src/Cmux/Calls.antt =====
-- Calls of the cmux plugin that may raise, and actions on a state. The state comes back beside the
-- exception.
pub mod Laws
pub mod Related
use yatagarasu.Prelude.{String, Bool, true, false, Option, none, some, List, [], ◌∷◌, if◌then◌else◌}

pub data Error : Type 0 where
  outbox_error protocol_error producer_error marker_error value_error lifecycle_error :
      String → Error
  sqlite_integrity_error sink_error type_error assertion_error : Error

pub data Answer {ℓ} (A : Type ℓ) : Type ℓ where
  returned : A → Answer A
  raised : Error → Answer A

abbrev pub Action {ℓ} : Type 0 → Type ℓ → Type ℓ
Action S A = S → Answer A × S

-- `if test: raise error`, where nothing changes
abbrev pub refuse_if : Bool → Error → Answer (Unit {0})
refuse_if true e = raised e
refuse_if false e = returned tt

-- one check and then the other
abbrev pub and_then : Answer (Unit {0}) → Answer (Unit {0}) → Answer (Unit {0})
and_then (returned u) next = next
and_then (raised e) next = raised e

module _ {S : Type 0} where
  abbrev pub pure {ℓ} : {A : Type ℓ} → A → Action S A
  pure a s = (returned a, s)

  abbrev pub lift {ℓ} : {A : Type ℓ} → Answer A → Action S A
  lift answer s = (answer, s)

  abbrev pub continue {ℓ κ} : {A : Type ℓ} {B : Type κ} → Answer A → (A → Action S B) → Action S B
  continue (returned a) f s = f a s
  continue (raised e) f s = (raised e, s)

  infixl 10 ◌>>=◌ ◌>>◌
  abbrev pub ◌>>=◌ {ℓ κ} : {A : Type ℓ} {B : Type κ} → Action S A → (A → Action S B) → Action S B
  m >>= f = λ s. let (r, s') = m s in continue r f s'

  abbrev pub ◌>>◌ {ℓ} : {B : Type ℓ} → Action S (Unit {0}) → Action S B → Action S B
  m >> n = m >>= λ _. n

  unfoldable pub for_each {ℓ} :
      {A : Type ℓ} → (A → Action S (Unit {0})) → List A → Action S (Unit {0})
  for_each body [] = pure tt
  for_each body (x ∷ xs) = let rest = for_each body xs in (do body x; rest)

  -- the state after the block, or before it when it raised
  abbrev pub close {ℓ} : {A : Type ℓ} → S → Answer A → S → Answer A × S
  close before (returned a) s = (returned a, s)
  close before (raised e) s = (raised e, before)

  -- BEGIN IMMEDIATE … COMMIT, with ROLLBACK on any exception
  abbrev pub transaction {ℓ} : {A : Type ℓ} → Action S A → Action S A
  transaction m s = let (r, t) = m s in close s r t
