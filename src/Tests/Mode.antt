-- ===== src/Tests/Mode.antt =====
-- The mode manager of backend/app/core/system_mode.py at concrete histories.
use polymarket_agent.Common.{ℕ, ◌≤◌, ◌≡◌, ◌⊎◌, refl, true, false, none, some, arith}
use polymarket_agent.Mode.Kind.{shadow, normal, degraded, protected, emergency_stop}
use polymarket_agent.Mode.Metrics.{HealthMetrics, compute_mode_from_metrics}
use polymarket_agent.Mode.Manager.{
  payload, absent, load_from_redis, Services, Manager, init, check_override, evaluate, transition,
  hysteresis, reason_or,
}
use polymarket_agent.Mode.Tracked.{IsTracked}
use polymarket_agent.Mode.Reach.{
  Reach, started, evaluated, IsAllowed, Reach-IsTracked, evaluate_paced, evaluate-stop,
}

abbrev up : Services
up = record { redis_up = true; db_up = true }

abbrev healthy : HealthMetrics
healthy = record {
  emergency_stop_flag = none;
  kill_switch = some false;
  circuit_breaker_open = none;
  db_pool_utilization_pct = some 1000;
  redis_memory_pct = none;
  drawdown = none;
  stream_pressure_ratio = none;
  redis_max_pending = none;
  reconnect_storm = none;
}

abbrev broken : HealthMetrics
broken = record healthy { circuit_breaker_open = some true }

abbrev halted : HealthMetrics
halted = record healthy { kill_switch = some true }

-- a manager that has gone into protected at 1000
abbrev guarded : Manager
guarded = (evaluate up init 1000 broken).1

guarded-Reach : Reach normal guarded 1000
unfolding load_from_redis init
guarded-Reach = evaluated up 1000 broken (started absent 0) (omega arith)

guarded-protected : guarded.mode ≡ protected
unfolding evaluate init compute_mode_from_metrics transition hysteresis reason_or
guarded-protected = refl

-- A healthy minute later it steps down to degraded, and not before.
steps_down :
    ((evaluate up guarded 60999 healthy).0 ≡ protected)
    × ((evaluate up guarded 61000 healthy).0 ≡ degraded)
unfolding evaluate init compute_mode_from_metrics transition hysteresis reason_or
steps_down = (refl, refl)

Reach-IsTracked_example : IsTracked normal guarded.mode guarded.entry_time 1000
Reach-IsTracked_example = Reach-IsTracked guarded-Reach

-- shadow was stored, and a new process goes from it to what the metrics call for
abbrev loaded : Manager
loaded = load_from_redis init (payload (some shadow) none (some 900))

evaluate_paced_example :
    let next = (evaluate up loaded 61000 healthy).1.mode in
    ((e : ℕ) × (loaded.entry_time loaded.mode ≡ some e)
      × (e ≤ 61000)
      × IsAllowed loaded.mode e next 61000)
    ⊎ ((loaded.mode ≡ loaded.mode)
        × (loaded.entry_time loaded.mode ≡ none)
        × ((next ≡ loaded.mode) ⊎ (next ≡ (compute_mode_from_metrics loaded.mode healthy).0)))
evaluate_paced_example =
    evaluate_paced up 61000 healthy (started (payload (some shadow) none (some 900)) 1000)
      (omega arith)

no_override : (check_override init 5).override ≡ none
unfolding check_override init
no_override = refl

evaluate-stop_example :
    ((evaluate up init 5 halted).0 ≡ emergency_stop)
    × ((evaluate up init 5 halted).1.mode ≡ emergency_stop)
evaluate-stop_example = evaluate-stop up init 5 halted no_override refl
