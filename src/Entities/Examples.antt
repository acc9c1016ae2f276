-- ===== src/Entities/Examples.antt =====
-- Runs of what the connectors hand to the gateway.
use thingsboard_gateway.Prelude.{ℕ, String, [], ◌∷◌, ◌≡◌, refl, none, some, All}
use thingsboard_gateway.Prelude.Eq.{nat_eq, string_discrete}
use thingsboard_gateway.Prelude.Dict.{lookup, insert, update}
use thingsboard_gateway.Entities.Strategy.{
  ReportStrategy, codes, ReportStrategyConfig, ConfigDict, default_report_strategy_config,
  from_string, lower, value,
}
use thingsboard_gateway.Entities.Strategy.Config.{
  report_strategy_config, with_type, with_strategy, validate_config, IsValidConfig,
  report_strategy_config-IsValidConfig,
}
use thingsboard_gateway.Entities.Datapoint.{
  DatapointKey, DatapointKey-discrete, datapoint_eq, Values, TelemetryEntry,
}
use thingsboard_gateway.Entities.Converted.{
  ConvertedData, init, add_single, add_to_telemetry, index_all, extend,
}
use thingsboard_gateway.Entities.Converted.Index.{IsIndexed, total, add_to_telemetry-IsIndexed}
use thingsboard_gateway.Entities.Split.{
  split_large_entries, split_all, split_entry, close, entry_size, limit,
}
use thingsboard_gateway.Prelude.Dict.{IsDistinct}
use thingsboard_gateway.Entities.Split.Chunks.{concat, split_large_entries-concat}
use thingsboard_gateway.Entities.Split.Sizes.{IsSized, split_large_entries-IsSized}

program : Unit {0}
unfolding lookup insert update init add_single add_to_telemetry index_all extend split_large_entries
    split_all split_entry close entry_size limit IsDistinct from_string lower value
    report_strategy_config with_type with_strategy validate_config total DatapointKey-discrete
    string_discrete
program = tt

abbrev periodic : ConfigDict
periodic = record {
  report_period = some 500;
  type = some (codes "on_Report_Period");
  aggregation_function = none;
  ttl = none;
}

abbrev periodic_config : ReportStrategyConfig
periodic_config = record {
  report_period = some 490;
  ttl = 86400;
  report_strategy = ReportStrategy.on_report_period;
  aggregation_function = none;
}

report_strategy_config-IsValidConfig_example : IsValidConfig periodic_config
unfolding program
report_strategy_config-IsValidConfig_example =
    report_strategy_config-IsValidConfig periodic (some default_report_strategy_config)
      periodic_config refl

abbrev key : String → DatapointKey
key name = record { key = name; report_strategy = none }

abbrev entries : Values ℕ
entries = (key "a", 10) ∷ (key "b", 20) ∷ (key "c", 5) ∷ []

abbrev entry : ℕ → TelemetryEntry ℕ
entry ts = record { ts = ts; values = entries }

abbrev empty : ConvertedData ℕ
empty = init "device" "default" []

empty-IsIndexed : IsIndexed empty
unfolding program
empty-IsIndexed = record { found = λ ts i at. cc; counted = refl }

add_to_telemetry-IsIndexed_example :
    IsIndexed (add_to_telemetry (entry 1 ∷ entry 2 ∷ entry 1 ∷ []) empty)
add_to_telemetry-IsIndexed_example =
    add_to_telemetry-IsIndexed (entry 1 ∷ entry 2 ∷ entry 1 ∷ []) empty empty-IsIndexed

abbrev data_size : String → ℕ → ℕ
data_size name n = n

entries_split :
    split_large_entries data_size 35 30 none entries
    ≡ ((key "a", 10) ∷ (key "b", 20) ∷ [], 32) ∷ ((key "c", 5) ∷ [], 6) ∷ []
unfolding program
entries_split = refl

entries-IsDistinct : IsDistinct entries
unfolding program
entries-IsDistinct = (refl, (refl, (refl, tt)))

split_large_entries-concat_example :
    concat (split_large_entries data_size 35 30 none entries) ≡ entries
split_large_entries-concat_example =
    split_large_entries-concat data_size 35 30 none entries entries-IsDistinct

split_large_entries-IsSized_example :
    All (IsSized data_size 35 30) (split_large_entries data_size 35 30 none entries)
split_large_entries-IsSized_example = split_large_entries-IsSized data_size 35 30 none entries
