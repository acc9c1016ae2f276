-- ===== src/Entities/Strategy/Config.antt =====
-- The constructor of ReportStrategyConfig over a dict, and what it guarantees.
use thingsboard_gateway.Prelude.{
  ℕ, ◌-◌, ◌≤◌, max, List, ◌≡◌, refl, true, false, ◌&&◌, not, Option, none, some, leb, get_or,
  is_some, if◌then◌else◌, arith, Bool-cases, Option-cases, inl, inr,
}
use thingsboard_gateway.Entities.Strategy.{
  ReportStrategy, on_report_period, on_change, on_change_or_report_period, on_received, disabled,
  value, lower, first_strategy, from_string, has_report_period, text, member, ReportStrategyConfig,
  ConfigDict, Defaults, default_report_strategy_config,
}

pub data ConfigError : Type 0 where
  not_specified invalid_type invalid_period invalid_aggregation_function attribute_error :
      ConfigError

pub data Parsed : Type 0 where
  parsed : ReportStrategyConfig → Parsed
  refused : ConfigError → Parsed

-- `__validate_config`: the members of the enum are compared with what the dict holds.
unfoldable pub validate_config : ReportStrategyConfig → Parsed
validate_config c =
    if has_report_period c.report_strategy
      && (elim c.report_period [ none ↦ true | some p ↦ leb p 0 ])
    then refused invalid_period
    else elim c.aggregation_function [
      | none ↦ parsed c
      | some a ↦ elim a [ text _ ↦ refused invalid_aggregation_function | member _ ↦ parsed c ]
    ]

-- The part of `__init__` behind the type of the strategy. A period is dropped where the strategy
-- has none.
unfoldable pub with_strategy : ℕ → ℕ → ConfigDict → ReportStrategy → Parsed
unfolding validate_config
with_strategy period ttl config strategy = validate_config (record {
  report_period = if has_report_period strategy then some period else none;
  ttl = ttl;
  report_strategy = strategy;
  aggregation_function = config.aggregation_function;
})

unfoldable pub with_type : ℕ → ℕ → ConfigDict → Option (List ℕ) → Parsed
with_type period ttl config none = refused attribute_error
with_type period ttl config (some type) = elim (from_string type) [
  | none ↦ refused invalid_type
  | some strategy ↦ with_strategy period ttl config strategy
]

-- `__init__` over a dict, with the default configuration if there is one. `from_string(None)`
-- raises AttributeError.
unfoldable pub report_strategy_config : ConfigDict → Option Defaults → Parsed
report_strategy_config config none =
    if not (is_some config.report_period) && not (is_some config.type)
    then refused not_specified
    else with_type (max (get_or config.report_period 0) 1)
        (get_or config.ttl default_report_strategy_config.ttl) config config.type
report_strategy_config config (some d) =
    with_type (max (get_or config.report_period d.report_period - 10) 1) (get_or config.ttl d.ttl)
      config (some (get_or config.type d.type))

-- A period of at least one millisecond exactly where the strategy has a period.
pub record IsValidConfig (c : ReportStrategyConfig) : Type 0 where
  pub periodic :
      has_report_period c.report_strategy ≡ true → (p : ℕ) × (c.report_period ≡ some p) × (1 ≤ p)
  pub aperiodic : has_report_period c.report_strategy ≡ false → c.report_period ≡ none

with_strategy-IsValidConfig :
    (period ttl : ℕ) (config : ConfigDict) (strategy : ReportStrategy) (c : ReportStrategyConfig)
    → 1 ≤ period
    → with_strategy period ttl config strategy ≡ parsed c
    → IsValidConfig c
unfolding with_strategy
with_strategy-IsValidConfig period ttl config strategy c long h = record {
  periodic = λ e. (period, ground arith, long);
  aperiodic = λ e. ground arith;
}

with_type-IsValidConfig :
    (period ttl : ℕ) (config : ConfigDict) (type : Option (List ℕ)) (c : ReportStrategyConfig)
    → 1 ≤ period
    → with_type period ttl config type ≡ parsed c
    → IsValidConfig c
unfolding with_type
with_type-IsValidConfig period ttl config none c long h = cc
with_type-IsValidConfig period ttl config (some type) c long h =
    elim (Option-cases (from_string type)) [
      | inl e ↦ cc (h, e)
      | inr (strategy, e) ↦
          with_strategy-IsValidConfig period ttl config strategy c long (ground (arith, e))
    ]

with_strategy-text :
    (period ttl : ℕ) (config : ConfigDict) (strategy : ReportStrategy) (name : List ℕ)
    (c : ReportStrategyConfig)
    → config.aggregation_function ≡ some (text name)
    → ¬ (with_strategy period ttl config strategy ≡ parsed c)
unfolding with_strategy
with_strategy-text period ttl config strategy name c e h = ground (arith, e)

with_type-text :
    (period ttl : ℕ) (config : ConfigDict) (type : Option (List ℕ)) (name : List ℕ)
    (c : ReportStrategyConfig)
    → config.aggregation_function ≡ some (text name)
    → ¬ (with_type period ttl config type ≡ parsed c)
unfolding with_type
with_type-text period ttl config none name c e h = cc
with_type-text period ttl config (some type) name c e h = elim (Option-cases (from_string type)) [
  | inl invalid ↦ cc (h, invalid)
  | inr (strategy, valid) ↦
      with_strategy-text period ttl config strategy name c e (ground (arith, valid))
]

-- Whatever the dict and the defaults, an accepted configuration has a period of at least one
-- millisecond if its strategy reports periodically, and none otherwise.
pub report_strategy_config-IsValidConfig :
    (config : ConfigDict) (defaults : Option Defaults) (c : ReportStrategyConfig)
    → report_strategy_config config defaults ≡ parsed c
    → IsValidConfig c
unfolding report_strategy_config
report_strategy_config-IsValidConfig config none c h =
    elim (Bool-cases (not (is_some config.report_period) && not (is_some config.type))) [
      | inl e ↦ ground (arith, e)
      | inr e ↦
          with_type-IsValidConfig (max (get_or config.report_period 0) 1)
            (get_or config.ttl default_report_strategy_config.ttl) config config.type c
            (omega arith) (rw e at h)
    ]
report_strategy_config-IsValidConfig config (some d) c h =
    with_type-IsValidConfig (max (get_or config.report_period d.report_period - 10) 1)
      (get_or config.ttl d.ttl) config (some (get_or config.type d.type)) c (omega arith) h

-- An aggregation function that is written as a text is never accepted.
text_aggregation_refused :
    (config : ConfigDict) (defaults : Option Defaults) (name : List ℕ) (c : ReportStrategyConfig)
    → config.aggregation_function ≡ some (text name)
    → ¬ (report_strategy_config config defaults ≡ parsed c)
unfolding report_strategy_config
text_aggregation_refused config none name c e h =
    elim (Bool-cases (not (is_some config.report_period) && not (is_some config.type))) [
      | inl none_given ↦ ground (arith, none_given)
      | inr given ↦
          with_type-text (max (get_or config.report_period 0) 1)
            (get_or config.ttl default_report_strategy_config.ttl) config config.type name c e
            (rw given at h)
    ]
text_aggregation_refused config (some d) name c e h =
    with_type-text (max (get_or config.report_period d.report_period - 10) 1)
      (get_or config.ttl d.ttl) config (some (get_or config.type d.type)) name c e h

-- The name of a strategy in any mix of upper and lower case stands for it.
from_string-value :
    (strategy : ReportStrategy) (name : List ℕ)
    → lower name ≡ lower (value strategy)
    → from_string name ≡ some strategy
unfolding from_string first_strategy
from_string-value on_report_period name h = rw h refl
from_string-value on_change name h = rw h refl
from_string-value on_change_or_report_period name h = rw h refl
from_string-value on_received name h = rw h refl
from_string-value disabled name h = rw h refl
