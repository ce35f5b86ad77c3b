-- ===== src/Mode/Metrics.antt =====
-- `_compute_mode_from_metrics` of backend/app/core/system_mode.py.
use text.Mathlib.Text.{◌==◌ as str_eq}
use Prim.Native.String.{String}
use polymarket_agent.Common.{
  ℕ, Bool, true, false, Option, not, ◌||◌, ltb, leb, if◌then◌else◌, get_or,
}
use polymarket_agent.Mode.Kind.{SystemMode, normal, degraded, protected, emergency_stop}
use polymarket_agent.Mode.Context.{mode_context}

-- The dict of health metrics; `none` is a key that is missing. Percentages are in hundredths of a
-- percent, ratios and the drawdown in ten-thousandths.
pub record HealthMetrics : Type 0 where
  pub emergency_stop_flag : Option Bool
  pub kill_switch : Option Bool
  pub circuit_breaker_open : Option Bool
  pub db_pool_utilization_pct : Option ℕ
  pub redis_memory_pct : Option ℕ
  pub drawdown : Option ℕ
  pub stream_pressure_ratio : Option ℕ
  pub redis_max_pending : Option ℕ
  pub reconnect_storm : Option ℕ

-- The text of `_reason`: the formatted reasons with the value that each shows, the value of a mode,
-- or a text given by a caller.
pub data Reason : Type 0 where
  emergency_stop_activated circuit_breaker_open all_healthy : Reason
  db_pool_critical redis_memory_critical drawdown_high stream_pressure_critical : ℕ → Reason
  db_pool_warning redis_pending reconnect_storm_per_min stream_pressure_warning : ℕ → Reason
  mode_value : SystemMode → Reason
  manual_override : String → Reason
  given : String → Reason

-- the truth value of a text: only the empty one is false
unfoldable pub is_truthy : Reason → Bool
is_truthy (given s) = not (str_eq s "")
is_truthy _ = true

-- The mode that the metrics call for, with the new `_reason`.
unfoldable pub compute_mode_from_metrics : SystemMode → HealthMetrics → SystemMode × Reason
unfolding mode_context
compute_mode_from_metrics mode m =
    let ctx = mode_context mode in
    let db_util = get_or m.db_pool_utilization_pct 0 in
    let redis_mem = get_or m.redis_memory_pct 0 in
    let stream_ratio = get_or m.stream_pressure_ratio 0 in
    let redis_pending_max = get_or m.redis_max_pending 0 in
    let reconnects = get_or m.reconnect_storm 0 in
    if get_or m.emergency_stop_flag false || get_or m.kill_switch false
    then (emergency_stop, emergency_stop_activated)
    else if get_or m.circuit_breaker_open false
    then (protected, circuit_breaker_open)
    else if leb ctx.db_pool_critical db_util
    then (protected, db_pool_critical db_util)
    else if leb ctx.redis_memory_critical redis_mem
    then (protected, redis_memory_critical redis_mem)
    else if ltb 1500 (get_or m.drawdown 0)
    then (protected, drawdown_high (get_or m.drawdown 0))
    else if leb ctx.stream_critical_ratio stream_ratio
    then (protected, stream_pressure_critical stream_ratio)
    else if leb ctx.db_pool_warning db_util
    then (degraded, db_pool_warning db_util)
    else if ltb 500 redis_pending_max
    then (degraded, redis_pending redis_pending_max)
    else if ltb 5 reconnects
    then (degraded, reconnect_storm_per_min reconnects)
    else if leb ctx.stream_warning_ratio stream_ratio
    then (degraded, stream_pressure_warning stream_ratio)
    else (normal, all_healthy)
