-- ===== src/Broadcasts/Expansion/Pending.antt =====
-- A broadcast that raises leaves no trace, and a statement that was left uncommitted makes the next
-- broadcast raise.
use yatagarasu.Prelude.{
  ℕ, ◌+◌, String, ◌≡◌, Bool, true, false, ◌||◌, some, is_empty, Option-cases, inl, inr, arith,
  Bool-cases,
}
use yatagarasu.Environment.{Environment}
use yatagarasu.Proofs.Timestamps.{parse_timestamp}
use yatagarasu.Store.Tables.{Store}
use yatagarasu.Store.Exec.{
  Exec, Result, ok, err, Error, integrity_error, operational_error, transaction, continue,
}
use yatagarasu.Store.Exec.Laws.{transaction-eq-err, raised_before}
use yatagarasu.Store.Deliveries.{set_dispatching}
use yatagarasu.Broadcasts.Expansion.{
  IdFactory, begin_immediate, fan_out, expand, translate_integrity,
}

module _ (env : Environment) (id_factory : IdFactory) where
  translated-err :
      (r : Result (Unit {0}) × Store) {e : Error} {t : Store}
      → translate_integrity env id_factory r ≡ (err e, t)
      → (e' : Error) × (r ≡ (err e', t))
  translated-err (ok u, t') h = cc
  translated-err (err integrity_error, t') h = (integrity_error, cc)
  translated-err (err e, t') h = (e, cc)

  module _ (actor_id room_id content accepted_at : String) (n : ℕ) (s : Store) where
    abbrev broadcast_id : String
    broadcast_id = id_factory "broadcast" n

    abbrev body : Exec (Unit {0})
    body =
        fan_out env id_factory actor_id room_id content accepted_at broadcast_id
          (id_factory "event" (n + 1)) (n + 2)

    rolled_back :
        {e : Error} {t : Store}
        → continue
            (translate_integrity env id_factory (transaction body s)).0
            (λ _ u. (ok broadcast_id, u))
            (translate_integrity env id_factory (transaction body s)).1
          ≡ (err e, t)
        → t ≡ record s { in_transaction = false }
    rolled_back h =
        let (e', raised) = translated-err (transaction body s) (
          raised_before (translate_integrity env id_factory (transaction body s))
            (λ _. broadcast_id) h) in
        transaction-eq-err body s raised

    -- A broadcast that raises before its commit leaves every table as it was; at most the open
    -- transaction is closed.
    pub expand-atomic :
        {e : Error} {t : Store}
        → expand env id_factory actor_id room_id content accepted_at n s ≡ (err e, t)
        → (pending : Bool) × (t ≡ record s { in_transaction = pending })
    unfolding expand
    expand-atomic h =
        elim (Bool-cases (is_empty actor_id || is_empty room_id || is_empty content)) [
          | inl blank ↦ (s.in_transaction, ground arith)
          | inr given ↦ elim (Option-cases (parse_timestamp env accepted_at)) [
            | inl unread ↦ (s.in_transaction, ground arith)
            | inr (instant, parses) ↦ (false, rolled_back (rw (given, parses) at h))
          ]
        ]

    -- While the connection has a transaction open, a broadcast with valid arguments raises an
    -- OperationalError, whatever the tables hold, and closes that transaction.
    pub expand-pending :
        (instant : ℕ)
        → s.in_transaction ≡ true
        → (is_empty actor_id || is_empty room_id || is_empty content) ≡ false
        → parse_timestamp env accepted_at ≡ some instant
        → expand env id_factory actor_id room_id content accepted_at n s
          ≡ (err operational_error, record s { in_transaction = false })
    unfolding expand fan_out begin_immediate
    expand-pending instant held given parses = rw (given, parses, held)

-- `set_dispatching` of a delivery that is not queued raises with its UPDATE's transaction open, so
-- that the next broadcast raises an OperationalError, however valid it is.
pub set_dispatching-blocks-broadcast :
    (env : Environment) (id_factory : IdFactory)
    (actor_id room_id content accepted_at delivery_id : String) (n instant : ℕ) (s : Store)
    {e : Error} {t : Store}
    → set_dispatching delivery_id s ≡ (err e, t)
    → (is_empty actor_id || is_empty room_id || is_empty content) ≡ false
    → parse_timestamp env accepted_at ≡ some instant
    → expand env id_factory actor_id room_id content accepted_at n t
      ≡ (err operational_error, record t { in_transaction = false })
unfolding set_dispatching
set_dispatching-blocks-broadcast env id_factory actor_id room_id content accepted_at delivery_id n
      instant s {t} h given parses =
    expand-pending env id_factory actor_id room_id content accepted_at n t instant (ground arith)
      given parses
