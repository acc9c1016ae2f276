-- ===== src/Entities/Datapoint.antt =====
-- thingsboard_gateway/gateway/entities/datapoint_key.py, attributes.py and telemetry_entry.py. A
-- value is of any type, and the size of an entry, which `get_data_size` gives, is not kept.
use Prim.Native.String.{String}
use native.Mathlib.Decide.{ℕ_discrete}
use thingsboard_gateway.Prelude.{ℕ, Option, get_or}
use thingsboard_gateway.Prelude.Eq.{Eq, of_discrete, string_discrete}
use thingsboard_gateway.Prelude.Dict.{Dict}
use thingsboard_gateway.Entities.Strategy.{ReportStrategyConfig}

-- Equality of two keys compares both fields, and that of two configurations all of theirs.
pub record DatapointKey : Type 0 where
  pub key : String
  pub report_strategy : Option ReportStrategyConfig

unfoldable pub DatapointKey-discrete : Discrete DatapointKey
DatapointKey-discrete = hlevel (ℕ_discrete, string_discrete)

instance abbrev pub datapoint_eq : Eq DatapointKey
datapoint_eq = of_discrete DatapointKey-discrete

-- The dict of Attributes, and that of a telemetry entry.
abbrev pub Values : Type 0 → Type 0
Values V = Dict DatapointKey V

pub record TelemetryEntry (V : Type 0) : Type 0 where
  pub ts : ℕ
  pub values : Values V

-- TelemetryEntry(values, ts) at the time `now` in milliseconds.
unfoldable pub telemetry_entry : {V : Type 0} → ℕ → Values V → Option ℕ → TelemetryEntry V
telemetry_entry now values ts = record { ts = get_or ts now; values = values }
