-- ===== src/Environment.antt =====
-- What the program takes from Python's standard library: `datetime.fromisoformat`, `json.dumps`
-- and `hmac`. Each is a function of the environment, and nothing is assumed of it but what a
-- theorem names.
use yatagarasu.Prelude.{ℕ, String, Bool, Option, List, ◌≡◌}
use yatagarasu.Prelude.Int.{ℤ}

-- An aware datetime is the microseconds of its instant, counted from one day before the first
-- instant that Python can name (an offset is shorter than a day). Without a zone `aware` is false.
pub record Datetime : Type 0 where
  pub instant : ℕ
  pub aware : Bool

-- The values that the program passes to `json.dumps`: flat objects, and arrays of these.
pub data Scalar : Type 0 where
  null : Scalar
  text : String → Scalar
  int : ℤ → Scalar

pub data Json : Type 0 where
  object : List (String × Scalar) → Json
  array : List (List (String × Scalar)) → Json

pub record Environment : Type 0 where
  -- `datetime.fromisoformat`: none for a `ValueError`
  pub fromisoformat : String → Option Datetime
  -- `json.dumps(value, separators=(",", ":"), sort_keys=True)`; the program writes the keys sorted
  pub dumps : Json → String
  -- `hmac.new(key, payload.encode(), hashlib.sha256).hexdigest()`
  pub hmac_sha256 : String → String → String

-- `json.dumps` writes different values differently.
pub record FaithfulJson (env : Environment) : Type 0 where
  pub dumps-injective : (a b : Json) → env.dumps a ≡ env.dumps b → a ≡ b
