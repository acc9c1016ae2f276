-- ===== src/Entities/Strategy.antt =====
-- ReportStrategy of thingsboard_gateway/gateway/constants.py and ReportStrategyConfig of
-- thingsboard_gateway/gateway/entities/report_strategy_config.py. Texts are lists of code points.
pub mod Config
use Prim.Native.Char.{code}
use Prim.Native.String.{String}
use thingsboard_gateway.Prelude.{
  ℕ, suc, ◌+◌, ◌-◌, max, List, [], ◌∷◌, map, Bool, true, false, ◌&&◌, Option, none, some, ◌==◌, leb,
  get_or, if◌then◌else◌,
}

abbrev pub codes : String → List ℕ
codes String.[] = []
codes (String.◌∷◌ c s) = code c ∷ codes s

pub data ReportStrategy : Type 0 where
  on_report_period on_change on_change_or_report_period on_received disabled : ReportStrategy

unfoldable pub value : ReportStrategy → List ℕ
value on_report_period = codes "ON_REPORT_PERIOD"
value on_change = codes "ON_CHANGE"
value on_change_or_report_period = codes "ON_CHANGE_OR_REPORT_PERIOD"
value on_received = codes "ON_RECEIVED"
value disabled = codes "DISABLED"

-- `str.lower` as far as it bears on the names: no other character has one of their letters for its
-- lower case.
unfoldable pub lower : List ℕ → List ℕ
lower [] = []
lower (c ∷ text) = (if leb b'A' c && leb c b'Z' then c + 32 else c) ∷ lower text

unfoldable pub text_eq : List ℕ → List ℕ → Bool
text_eq [] [] = true
text_eq (c ∷ s) (d ∷ t) = c == d && text_eq s t
text_eq _ _ = false

unfoldable pub first_strategy : List ℕ → List ReportStrategy → Option ReportStrategy
first_strategy text [] = none
first_strategy text (strategy ∷ strategies) =
    let further = first_strategy text strategies in
    if text_eq (lower (value strategy)) (lower text) then some strategy else further

-- `from_string`: `none` is the ValueError.
unfoldable pub from_string : List ℕ → Option ReportStrategy
unfolding first_strategy text_eq lower value
from_string text =
    first_strategy text
      (on_report_period ∷ on_change ∷ on_change_or_report_period ∷ on_received ∷ disabled ∷ [])

-- `in STRATEGIES_WITH_REPORT_PERIOD`
abbrev pub has_report_period : ReportStrategy → Bool
has_report_period on_report_period = true
has_report_period on_change = false
has_report_period on_change_or_report_period = true
has_report_period on_received = false
has_report_period disabled = false

pub data AggregationFunction : Type 0 where
  none_function sum count minimum maximum average : AggregationFunction

-- What a configuration holds under "aggregationFunction": a text, or a member of the enum.
pub data Aggregation : Type 0 where
  text : List ℕ → Aggregation
  member : AggregationFunction → Aggregation

pub record ReportStrategyConfig : Type 0 where
  pub report_period : Option ℕ
  pub ttl : ℕ
  pub report_strategy : ReportStrategy
  pub aggregation_function : Option Aggregation

-- A configuration dict; `none` is a key that is not there.
pub record ConfigDict : Type 0 where
  pub report_period : Option ℕ
  pub type : Option (List ℕ)
  pub aggregation_function : Option Aggregation
  pub ttl : Option ℕ

-- DEFAULT_REPORT_STRATEGY_CONFIG
pub record Defaults : Type 0 where
  pub report_period : ℕ
  pub type : List ℕ
  pub ttl : ℕ

abbrev pub default_report_strategy_config : Defaults
default_report_strategy_config = record {
  report_period = 10000;
  type = codes "ON_RECEIVED";
  ttl = 86400;
}
