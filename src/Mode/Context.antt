-- ===== src/Mode/Context.antt =====
-- backend/app/core/mode_context.py: thresholds of each mode and the classes of the metrics.
-- Ratios are in ten-thousandths, so 0.85 is 8500; a percentage is in hundredths of a percent, so
-- `ctx.db_pool_critical * 100` is the same number as `db_pool_critical`. Times are in milliseconds.
use polymarket_agent.Common.{ℕ, ◌*◌, List, ◌∷◌, ◌==◌, if◌then◌else◌, any}
use polymarket_agent.Mode.Kind.{
  SystemMode, normal, shadow, degraded, protected, read_only, emergency_stop,
}

pub data MetricClass : Type 0 where
  structural behavioral unknown : MetricClass

-- The keys of a dict of metrics. `other` is any key that the classification does not list.
pub data MetricKey : Type 0 where
  db_pool_utilization_pct redis_memory_pct redis_provider_pct circuit_breaker_open db_ok : MetricKey
  emergency_stop_flag kill_switch drawdown redis_max_pending reconnect_storm : MetricKey
  stream_pressure_ratio : MetricKey
  other : ℕ → MetricKey

-- `METRIC_CLASSIFICATION` and `classify_metric`
unfoldable pub classify_metric : MetricKey → MetricClass
classify_metric redis_max_pending = behavioral
classify_metric reconnect_storm = behavioral
classify_metric stream_pressure_ratio = behavioral
classify_metric (other k) = unknown
classify_metric _ = structural

abbrev pub scale : ℕ
scale = 10000

-- The adjusted value is in ten-thousandths of the unit of `raw_value`.
adjust_by : MetricClass → ℕ → ℕ → ℕ
adjust_by behavioral raw_value sensitivity = raw_value * sensitivity
adjust_by _ raw_value sensitivity = raw_value * scale

-- `_reported_gaps` after a key: an unknown key is reported once
report_gap : MetricKey → List ℕ → List ℕ
report_gap (other k) gaps = if any (λ j. j == k) gaps then gaps else k ∷ gaps
report_gap _ gaps = gaps

unfoldable pub adjust_metric : MetricKey → ℕ → ℕ → List ℕ → ℕ × List ℕ
unfolding adjust_by report_gap classify_metric
adjust_metric key raw_value sensitivity gaps =
    (adjust_by (classify_metric key) raw_value sensitivity, report_gap key gaps)

pub record ModeContext : Type 0 where
  pub db_pool_warning : ℕ
  pub db_pool_critical : ℕ
  pub redis_memory_warning : ℕ
  pub redis_memory_critical : ℕ
  pub stream_warning_ratio : ℕ
  pub stream_critical_ratio : ℕ
  pub cb_failure_tolerance : ℕ
  pub evaluator_sensitivity : ℕ

-- `MODE_CONTEXTS[mode.value]`
unfoldable pub mode_context : SystemMode → ModeContext
mode_context normal = record {
  db_pool_warning = 7000;
  db_pool_critical = 8500;
  redis_memory_warning = 7000;
  redis_memory_critical = 8500;
  stream_warning_ratio = 7000;
  stream_critical_ratio = 9000;
  cb_failure_tolerance = 10;
  evaluator_sensitivity = 10000;
}
mode_context shadow = record {
  db_pool_warning = 7000;
  db_pool_critical = 8500;
  redis_memory_warning = 7000;
  redis_memory_critical = 8500;
  stream_warning_ratio = 7000;
  stream_critical_ratio = 9000;
  cb_failure_tolerance = 10;
  evaluator_sensitivity = 10000;
}
mode_context degraded = record {
  db_pool_warning = 8000;
  db_pool_critical = 9000;
  redis_memory_warning = 8000;
  redis_memory_critical = 9000;
  stream_warning_ratio = 8000;
  stream_critical_ratio = 9500;
  cb_failure_tolerance = 20;
  evaluator_sensitivity = 6000;
}
mode_context protected = record {
  db_pool_warning = 8500;
  db_pool_critical = 9500;
  redis_memory_warning = 8500;
  redis_memory_critical = 9500;
  stream_warning_ratio = 9000;
  stream_critical_ratio = 9800;
  cb_failure_tolerance = 30;
  evaluator_sensitivity = 3000;
}
mode_context read_only = record {
  db_pool_warning = 10000;
  db_pool_critical = 10000;
  redis_memory_warning = 10000;
  redis_memory_critical = 10000;
  stream_warning_ratio = 10000;
  stream_critical_ratio = 10000;
  cb_failure_tolerance = 100;
  evaluator_sensitivity = 0;
}
mode_context emergency_stop = record {
  db_pool_warning = 10000;
  db_pool_critical = 10000;
  redis_memory_warning = 10000;
  redis_memory_critical = 10000;
  stream_warning_ratio = 10000;
  stream_critical_ratio = 10000;
  cb_failure_tolerance = 1000;
  evaluator_sensitivity = 0;
}

-- `get_hold_time`, over `_MIN_MODE_HOLD_TIME`
unfoldable pub get_hold_time : SystemMode → ℕ
get_hold_time normal = 0
get_hold_time shadow = 0
get_hold_time degraded = 60000
get_hold_time protected = 120000
get_hold_time read_only = 300000
get_hold_time emergency_stop = 10000
