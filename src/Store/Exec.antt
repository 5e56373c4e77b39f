-- ===== src/Store/Exec.antt =====
-- Methods that change the store and may raise. The store comes back beside the error too.
-- A statement that changes rows opens a transaction before it runs, also where it then raises.
pub mod Laws
use yatagarasu.Prelude.{String, Bool, true, false, if◌then◌else◌, List, [], ◌∷◌}
use yatagarasu.Store.Tables.{Store}

pub data Error : Type 0 where
  value_error key_error binding_conflict_error broadcast_conflict_error : String → Error
  integrity_error operational_error concurrent_transition_error : Error

pub data Result {ℓ} (A : Type ℓ) : Type ℓ where
  ok : A → Result A
  err : Error → Result A

abbrev pub Exec {ℓ} : Type ℓ → Type ℓ
Exec A = Store → Result A × Store

module _ {ℓ} {A : Type ℓ} where
  abbrev pub pure : A → Exec A
  pure a s = (ok a, s)

  abbrev pub raise : Error → Exec A
  raise e s = (err e, s)

  abbrev pub lift : Result A → Exec A
  lift r s = (r, s)

abbrev pub continue {ℓ κ} : {A : Type ℓ} {B : Type κ} → Result A → (A → Exec B) → Exec B
continue (ok a) f s = f a s
continue (err e) f s = (err e, s)

infixl 10 ◌>>=◌ ◌>>◌
abbrev pub ◌>>=◌ {ℓ κ} : {A : Type ℓ} {B : Type κ} → Exec A → (A → Exec B) → Exec B
◌>>=◌ m f s = let (r, s') = m s in continue r f s'

abbrev pub ◌>>◌ {ℓ} : {B : Type ℓ} → Exec (Unit {0}) → Exec B → Exec B
m >> n = m >>= λ _. n

-- `if test: raise error`
abbrev pub raise_if : Bool → Error → Exec (Unit {0})
raise_if test e s = if test then (err e, s) else (ok tt, s)

-- for a in list: body(a)
unfoldable pub for_each {ℓ} : {A : Type ℓ} → (A → Exec (Unit {0})) → List A → Exec (Unit {0})
for_each body [] = pure tt
for_each body (x ∷ xs) = let rest = for_each body xs in (do body x; rest)

-- An INSERT: `admits` is the test of the table's constraints.
abbrev pub insert : (Store → Bool) → (Store → Store) → Exec (Unit {0})
insert admits write s =
    let t : Store = record s { in_transaction = true } in
    if admits s then (ok tt, write t) else (err integrity_error, t)

-- connection.commit()
abbrev pub commit : Exec (Unit {0})
commit s = (ok tt, record s { in_transaction = false })

abbrev pub close {ℓ} : {A : Type ℓ} → Store → Result A → Store → Result A × Store
close before (ok a) s = (ok a, record s { in_transaction = false })
close before (err e) s = (err e, record before { in_transaction = false })

-- `with connection:` commits, or rolls back and raises again. Each method commits what it changes,
-- so nothing is pending when the block begins.
abbrev pub transaction {ℓ} : {A : Type ℓ} → Exec A → Exec A
transaction m s = let (r, t) = m s in close s r t
