-- ===== src/Store/Exec/Laws.antt =====
-- Inversion of the steps of a method.
use yatagarasu.Prelude.{Bool, true, false, ◌≡◌, refl, arith}
use yatagarasu.Store.Tables.{Store}
use yatagarasu.Store.Exec.{
  Exec, Error, Result, ok, err, continue, insert, transaction, raise_if, close, ◌>>=◌,
}

module _ {ℓ} {A : Type ℓ} where
  -- A block that raises leaves the tables as they were at its entry, and no transaction open.
  pub transaction-eq-err :
      (m : Exec A) (s : Store) {e : Error} {t : Store}
      → transaction m s ≡ (err e, t)
      → t ≡ record s { in_transaction = false }
  transaction-eq-err m s h = go (m s) h
    where
      go :
          (r : Result A × Store) {e : Error} {t : Store}
          → close s r.0 r.1 ≡ (err e, t)
          → t ≡ record s { in_transaction = false }
      go (ok a, u) h = cc
      go (err e, u) h = cc

  pub transaction-eq-ok :
      (m : Exec A) (s : Store) {a : A} {t : Store}
      → transaction m s ≡ (ok a, t)
      → (u : Store) × (m s ≡ (ok a, u)) × (t ≡ record u { in_transaction = false })
  transaction-eq-ok m s h = go (m s) h
    where
      go :
          (r : Result A × Store) {a : A} {t : Store}
          → close s r.0 r.1 ≡ (ok a, t)
          → (u : Store) × (r ≡ (ok a, u)) × (t ≡ record u { in_transaction = false })
      go (ok a, u) h = (u, cc, cc)
      go (err e, u) h = cc

module _ {ℓ κ} {A : Type ℓ} {B : Type κ} where
  -- Two steps in a row return: so does the first, and so does the second from where it ended.
  pub both_return :
      (m : Exec A) (f : A → Exec B) (s : Store) {b : B} {t : Store}
      → (m >>= f) s ≡ (ok b, t)
      → (a : A) × (u : Store) × (m s ≡ (ok a, u)) × (f a u ≡ (ok b, t))
  both_return m f s h = go (m s) h
    where
      go :
          (r : Result A × Store) {b : B} {t : Store}
          → continue r.0 f r.1 ≡ (ok b, t)
          → (a : A) × (u : Store) × (r ≡ (ok a, u)) × (f a u ≡ (ok b, t))
      go (ok a, u) h = (a, u, refl, h)
      go (err e, u) h = cc

  -- A step that cannot raise, at the end: what raised came before.
  pub raised_before :
      (r : Result A × Store) (f : A → B) {e : Error} {t : Store}
      → continue r.0 (λ a u. (ok (f a), u)) r.1 ≡ (err e, t)
      → r ≡ (err e, t)
  raised_before (ok a, u) f h = cc
  raised_before (err e, u) f h = cc

pub insert-eq-ok :
    (admits : Store → Bool) (write : Store → Store) (s : Store) {u : Unit {0}} {t : Store}
    → insert admits write s ≡ (ok u, t)
    → (admits s ≡ true) × (t ≡ write (record s { in_transaction = true }))
insert-eq-ok admits write s h = (ground arith, ground arith)

pub raise_if-eq-ok :
    (test : Bool) (e : Error) (s : Store) {u : Unit {0}} {t : Store}
    → raise_if test e s ≡ (ok u, t)
    → (test ≡ false) × (t ≡ s)
raise_if-eq-ok test e s h = (ground arith, ground arith)
