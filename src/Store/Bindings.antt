-- ===== src/Store/Bindings.antt =====
-- The methods of `CoreStore` on session bindings and their proof methods.
use yatagarasu.Prelude.{
  ℕ, String, ◌<>◌, Bool, true, false, not, ◌&&◌, ◌||◌, Option, none, some, List, [], ◌∷◌, ◌++◌, map,
  ◌==◌, string_eq, nat_eq, find, any, count, update, distinct, is_empty, leb, ltb, if◌then◌else◌,
}
use yatagarasu.Environment.{Environment}
use yatagarasu.Types.{
  SessionBinding, ProofMethodRegistration, BindingState, active, revoked, superseded,
  binding_state_eq, session_transport, provider_kind_eq,
}
use yatagarasu.Proofs.Timestamps.{parse_timestamp}
use yatagarasu.Store.Tables.{Store, SessionBindingRow, ProofMethodRow, Provider}
use yatagarasu.Store.Exec.{
  Exec, Result, ok, err, value_error, binding_conflict_error, integrity_error, insert, commit,
  transaction, raise_if, for_each, pure, raise, ◌>>=◌, ◌>>◌,
}
use yatagarasu.Store.Providers.{provider, has_provider, provider_declares}

unfoldable pub session_binding : String → Store → Option SessionBindingRow
session_binding binding_id s = find (λ b. b.binding_id == binding_id) s.session_bindings

abbrev pub active_for : String → SessionBindingRow → Bool
active_for recipient_id b = b.recipient_id == recipient_id && b.state == active

abbrev pub row_of : SessionBinding → SessionBindingRow
row_of binding = record {
  binding_id = binding.binding_id;
  recipient_id = binding.recipient_id;
  provider_id = binding.provider_id;
  adapter_instance_id = binding.adapter_instance_id;
  harness = binding.harness;
  session_id = binding.session_id;
  established_at = binding.established_at;
  expires_at = binding.expires_at;
  state = binding.state;
}

-- The primary key, the foreign key, and idx_one_active_binding_per_recipient.
unfoldable pub binding_admitted : SessionBindingRow → Store → Bool
binding_admitted row s =
    not (any (λ b. b.binding_id == row.binding_id) s.session_bindings)
    && has_provider row.provider_id s
    && not (row.state == active && any (active_for row.recipient_id) s.session_bindings)

abbrev pub registers : String → String → ProofMethodRow → Bool
registers binding_id proof_method row =
    row.binding_id == binding_id && row.method.proof_method == proof_method

insert_proof_method : String → ProofMethodRegistration → Exec (Unit {0})
insert_proof_method binding_id method =
    insert
      (λ s.
        any (λ b. b.binding_id == binding_id) s.session_bindings
        && not (any (registers binding_id method.proof_method) s.binding_proof_methods))
      (λ s. record s {
        binding_proof_methods =
            s.binding_proof_methods ++ record { binding_id = binding_id; method = method } ∷ [];
      })

unfoldable pub insert_session_binding : SessionBinding → Exec (Unit {0})
unfolding binding_admitted insert_proof_method for_each
insert_session_binding binding = do
  insert (binding_admitted (row_of binding))
      (λ s. record s { session_bindings = s.session_bindings ++ row_of binding ∷ [] })
  for_each (insert_proof_method binding.binding_id) binding.proof_methods

check_expiry : Option ℕ → Option ℕ → Exec (Unit {0})
check_expiry none established = raise (value_error "timestamp")
check_expiry (some expires) none = raise (value_error "timestamp")
check_expiry (some expires) (some established) =
    raise_if (leb expires established) (value_error "binding expiry must follow establishment")

abbrev is_transport : Option Provider → Bool
is_transport none = false
is_transport (some p) = p.kind == session_transport

abbrev is_nil {ℓ} : {A : Type ℓ} → List A → Bool
is_nil [] = true
is_nil (x ∷ xs) = false

check_method : String → ProofMethodRegistration → Exec (Unit {0})
check_method provider_id method = do
  raise_if (is_empty method.source_instance_id || is_nil method.evidence_classes)
      (value_error "proof method source and evidence must not be empty")
  λ s.
      raise_if
        (any (λ evidence. not (provider_declares provider_id evidence s)) method.evidence_classes)
        (value_error "proof method evidence is not declared by provider") s

unfoldable pub validate_session_binding : Environment → SessionBinding → Exec (Unit {0})
unfolding check_expiry check_method for_each
validate_session_binding env binding = do
  raise_if (not (binding.state == active)) (value_error "new session binding must be active")
  raise_if
      (any is_empty (
        binding.binding_id ∷ binding.recipient_id ∷ binding.provider_id
        ∷ binding.adapter_instance_id ∷ binding.harness ∷ binding.session_id ∷ []))
      (value_error "binding identity fields must not be empty")
  check_expiry (parse_timestamp env binding.expires_at) (parse_timestamp env binding.established_at)
  (λ s.
      raise_if (not (is_transport (provider binding.provider_id s)))
        (value_error "binding provider must be a registered session transport") s)
  raise_if (is_nil binding.proof_methods)
      (value_error "binding must declare at least one proof method")
  raise_if
      (not (distinct (map (λ m. m.proof_method) binding.proof_methods))
        || any (λ m. is_empty m.proof_method) binding.proof_methods)
      (value_error "binding proof methods must be unique and non-empty")
  for_each (check_method binding.provider_id) binding.proof_methods

-- except sqlite3.IntegrityError: raise BindingConflictError
abbrev translate_conflict : SessionBinding → Result (Unit {0}) × Store → Result (Unit {0}) × Store
translate_conflict binding (err integrity_error, s) = (
  err (binding_conflict_error ("active binding conflict for recipient " <> binding.recipient_id)),
  s,
)
translate_conflict binding (r, s) = (r, s)

unfoldable pub register_session_binding : Environment → SessionBinding → Exec (Unit {0})
unfolding validate_session_binding insert_session_binding
register_session_binding env binding = do
  validate_session_binding env binding
  λ s. translate_conflict binding (transaction (insert_session_binding binding) s)

-- UPDATE session_bindings SET state = ? WHERE binding_id = ?
update_binding : String → BindingState → Exec (Unit {0})
update_binding binding_id state s = pure tt (record s {
  session_bindings =
      update (λ b. b.binding_id == binding_id) (λ b. record b { state = state }) s.session_bindings;
  in_transaction = true;
})

abbrev check_old : Option SessionBindingRow → SessionBinding → Exec (Unit {0})
check_old none replacement = raise (binding_conflict_error "binding to supersede is not active")
check_old (some old) replacement = do
  raise_if (not (old.state == active)) (binding_conflict_error "binding to supersede is not active")
  raise_if (not (old.recipient_id == replacement.recipient_id))
      (binding_conflict_error "replacement owns a different recipient")

unfoldable pub supersede_session_binding : Environment → String → SessionBinding → Exec (Unit {0})
unfolding validate_session_binding insert_session_binding update_binding
supersede_session_binding env old_binding_id replacement = do
  λ s. check_old (session_binding old_binding_id s) replacement s
  validate_session_binding env replacement
  transaction (do update_binding old_binding_id superseded; insert_session_binding replacement)

abbrev active_with_id : String → SessionBindingRow → Bool
active_with_id binding_id b = b.binding_id == binding_id && b.state == active

unfoldable pub revoke_session_binding : String → Exec (Unit {0})
revoke_session_binding binding_id = do
  changed ← λ s. pure (count (active_with_id binding_id) s.session_bindings) (record s {
    session_bindings =
        update (active_with_id binding_id) (λ b. record b { state = revoked }) s.session_bindings;
    in_transaction = true;
  })
  raise_if (not (changed == 1)) (value_error "binding_not_active")
  commit

-- `established <= observed < expires`; a timestamp that does not parse raises
abbrev in_window :
    SessionBindingRow → Option ℕ → Option ℕ → Option ℕ → Result (Option SessionBindingRow)
in_window row (some observed) (some established) (some expires) =
    ok (if leb established observed && ltb observed expires then some row else none)
in_window row _ _ _ = err (value_error "timestamp")

unfoldable pub active_session_binding_for :
    Environment → String → Option String → Store → Result (Option SessionBindingRow)
active_session_binding_for env recipient_id observed_at s =
    elim (find (active_for recipient_id) s.session_bindings) [
      | none ↦ ok none
      | some row ↦ elim observed_at [
        | none ↦ ok (some row)
        | some observed ↦
            in_window row (parse_timestamp env observed) (parse_timestamp env row.established_at)
              (parse_timestamp env row.expires_at)
      ]
    ]

abbrev registration_of : Option ProofMethodRow → Option ProofMethodRegistration
registration_of none = none
registration_of (some row) = some row.method

unfoldable pub binding_proof_method : String → String → Store → Option ProofMethodRegistration
binding_proof_method binding_id proof_method s =
    registration_of (find (registers binding_id proof_method) s.binding_proof_methods)
