-- ===== src/Mode/Decisions.antt =====
-- What one call of `evaluate` decides: backend/app/core/system_mode.py, `evaluate`,
-- `_compute_mode_from_metrics` and `_apply_hysteresis`.
use polymarket_agent.Common.{
  ℕ, ◌-◌, ◌≤◌, ◌<◌, ◌≡◌, ◌⊎◌, Bool, true, false, Option, none, some, ◌||◌, arith, get_or,
  if◌then◌else◌,
}
use polymarket_agent.Mode.Kind.{
  SystemMode, normal, shadow, degraded, protected, read_only, emergency_stop, index, same, update,
}
use polymarket_agent.Mode.Context.{get_hold_time}
use polymarket_agent.Mode.Metrics.{HealthMetrics, Reason, compute_mode_from_metrics}
use polymarket_agent.Mode.Manager.{
  Services, Manager, minimum_duration, hysteresis, transition, prune_stale_votes, reason_or,
  evaluate_metrics,
}

-- The modes that the metrics can call for.
abbrev pub IsAutomatic : SystemMode → Type 0
IsAutomatic normal = Unit
IsAutomatic degraded = Unit
IsAutomatic protected = Unit
IsAutomatic emergency_stop = Unit
IsAutomatic shadow = ⊥
IsAutomatic read_only = ⊥

-- The flags that stop everything.
abbrev pub stop_requested : HealthMetrics → Bool
stop_requested m = get_or m.emergency_stop_flag false || get_or m.kill_switch false

pub same_iff : (m n : SystemMode) → same m n ≡ true → m ≡ n
unfolding same index
same_iff m n h = ground arith

pub same_refl : (m : SystemMode) → same m m ≡ true
unfolding same index
same_refl m = ground arith

pub computed-IsAutomatic :
    (mode : SystemMode) (m : HealthMetrics) → IsAutomatic (compute_mode_from_metrics mode m).0
unfolding compute_mode_from_metrics
computed-IsAutomatic mode m = ground arith

pub computed_stop :
    (mode : SystemMode) (m : HealthMetrics)
    → stop_requested m ≡ true
    → (compute_mode_from_metrics mode m).0 ≡ emergency_stop
unfolding compute_mode_from_metrics
computed_stop mode m h = rw h

module _ (env : Services) (s : Manager) (now : ℕ) (target : SystemMode) (reason : Reason) where
  pub transition_lem :
      ((transition env s now target reason).mode ≡ target)
      × ((transition env s now target reason).entry_time ≡ update target (some now) s.entry_time)
      × ((transition env s now target reason).override ≡ s.override)
  unfolding transition
  transition_lem = ground arith

-- What `evaluate_metrics` leaves: the mode that the hysteresis allows, and its time of entry.
pub evaluate_metrics_lem :
    (env : Services) (s : Manager) (now : ℕ) (m : HealthMetrics)
    → let target = (compute_mode_from_metrics s.mode m).0 in
      let next = hysteresis s.mode target (s.entry_time s.mode) now in
      ((evaluate_metrics env s now m).0 ≡ next)
      × ((evaluate_metrics env s now m).1.mode ≡ next)
      × ((evaluate_metrics env s now m).1.entry_time
          ≡ (if same next s.mode then s.entry_time else update next (some now) s.entry_time))
      × ((evaluate_metrics env s now m).1.override ≡ s.override)
unfolding evaluate_metrics
evaluate_metrics_lem env s now m =
    let next = hysteresis s.mode (compute_mode_from_metrics s.mode m).0 (s.entry_time s.mode) now in
    let seen : Manager = record (prune_stale_votes now s) {
      reason = (compute_mode_from_metrics s.mode m).1;
    } in
    ground (
      arith,
      same_iff next s.mode,
      transition_lem env seen now next (reason_or (compute_mode_from_metrics s.mode m).1 next),
    )

-- Whatever the mode and the hysteresis, a call for the emergency stop is obeyed at once.
pub hysteresis_stop :
    (current : SystemMode) (entered : Option ℕ) (now : ℕ)
    → hysteresis current emergency_stop entered now ≡ emergency_stop
unfolding hysteresis
hysteresis_stop current entered now = ground arith

-- The edges that evaluation may follow.
abbrev pub IsStep : SystemMode → SystemMode → Type 0
IsStep protected normal = ⊥
IsStep current next = IsAutomatic next

pub hysteresis-IsAutomatic :
    (current target : SystemMode) (entered : Option ℕ) (now : ℕ)
    → IsAutomatic current
    → IsAutomatic target
    → IsAutomatic (hysteresis current target entered now)
unfolding hysteresis
hysteresis-IsAutomatic current target entered now c t = ground arith

-- Down means after the minimum duration; up means after the hold time, or a stop.
pub hysteresis_timing :
    (current target : SystemMode) (t now : ℕ)
    → let next = hysteresis current target (some t) now in
      (next ≡ current)
      ⊎ ((next ≡ emergency_stop)
          ⊎ (((index current < index next) × (get_hold_time current ≤ now - t))
              ⊎ ((index next < index current) × (minimum_duration current ≤ now - t))))
unfolding hysteresis
hysteresis_timing current target t now = ground arith

-- Without a time of entry no hysteresis applies.
pub hysteresis_fresh :
    (current target : SystemMode) (now : ℕ) → hysteresis current target none now ≡ target
unfolding hysteresis
hysteresis_fresh current target now = ground arith
