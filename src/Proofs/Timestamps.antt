-- ===== src/Proofs/Timestamps.antt =====
-- `parse_timestamp` of core/yatagarasu_core/proofs.py.
use Prim.Native.Char.{code}
use yatagarasu.Prelude.{ℕ, String, ◌<>◌, Option, none, some, ◌==◌, nat_eq, if◌then◌else◌}
use yatagarasu.Environment.{Environment, Datetime}

-- value.replace("Z", "+00:00")
unfoldable pub replace_z : String → String
replace_z String.[] = ""
replace_z (String.◌∷◌ c s) =
    let rest = replace_z s in if code c == b'Z' then "+00:00" <> rest else String.◌∷◌ c rest

abbrev pub aware_instant : Option Datetime → Option ℕ
aware_instant none = none
aware_instant (some parsed) = if parsed.aware then some parsed.instant else none

-- None stands for the `ValueError`.
unfoldable pub parse_timestamp : Environment → String → Option ℕ
unfolding replace_z
parse_timestamp env value = aware_instant (env.fromisoformat (replace_z value))
