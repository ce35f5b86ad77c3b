-- ===== src/Mode/Reach.antt =====
-- Histories of the mode manager: `load_from_redis` at the start of the process, as backend/app/main.py runs
-- it, and then the methods of backend/app/core/system_mode.py in any order, at times that do not go back.
use Prim.Native.String.{String}
use polymarket_agent.Common.{ℕ, ◌≤◌, ◌<◌, ◌-◌, ◌≡◌, ◌⊎◌, none, some, true, arith, inl, inr}
use polymarket_agent.Mode.Kind.{SystemMode, emergency_stop, index}
use polymarket_agent.Mode.Context.{get_hold_time}
use polymarket_agent.Mode.Metrics.{HealthMetrics, compute_mode_from_metrics}
use polymarket_agent.Mode.Manager.{
  Services, Manager, init, check_override, get_mode, request_mode, set_manual_override,
  clear_manual_override, StoredReply, load_from_redis, minimum_duration, evaluate,
}
use polymarket_agent.Mode.Decisions.{
  hysteresis_fresh, evaluate_metrics_lem, hysteresis_timing, stop_requested, computed_stop,
  hysteresis_stop,
}
use polymarket_agent.Mode.Tracked.{
  later-IsTracked, same-IsTracked, evaluate-IsTracked, override_kept, requested_kept,
  started-IsTracked, IsTracked,
}

-- The managers that a process can hold, which began with a mode, and the last time at which a method ran.
pub data Reach : SystemMode → Manager → ℕ → Type 0 where
  started :
      (reply : StoredReply) (now : ℕ)
      → Reach (load_from_redis init reply).mode (load_from_redis init reply) now
  evaluated :
      {first : SystemMode} {s : Manager} {t : ℕ} (env : Services) (now : ℕ) (m : HealthMetrics)
      → Reach first s t
      → t ≤ now
      → Reach first (evaluate env s now m).1 now
  overridden :
      {first : SystemMode} {s : Manager} {t : ℕ} (env : Services) (now : ℕ) (mode : SystemMode)
      (why operator : String) (ttl : ℕ)
      → Reach first s t
      → t ≤ now
      → Reach first (set_manual_override env s now mode why operator ttl) now
  cleared :
      {first : SystemMode} {s : Manager} {t : ℕ}
      → Reach first s t
      → Reach first (clear_manual_override s) t
  requested :
      {first : SystemMode} {s : Manager} {t : ℕ} (now : ℕ) (target : SystemMode)
      (why source : String) (severity : ℕ)
      → Reach first s t
      → t ≤ now
      → Reach first (request_mode s now target why source severity) now
  read :
      {first : SystemMode} {s : Manager} {t : ℕ} (now : ℕ)
      → Reach first s t
      → t ≤ now
      → Reach first (get_mode s now).1 now

-- In every history of a process, from whatever it loads at its start, one of two cases holds. No mode was
-- entered since the start, and the mode is the one of the start. Or the mode is one that the metrics can
-- call for, never shadow or read-only, and it was entered at a known time that is not in the future.
pub Reach-IsTracked :
    {first : SystemMode} {s : Manager} {t : ℕ}
    → Reach first s t
    → IsTracked first s.mode s.entry_time t
unfolding clear_manual_override get_mode
Reach-IsTracked (started reply now) = started-IsTracked reply now
Reach-IsTracked {first} (evaluated {s = s} {t = t} env now m r h) =
    evaluate-IsTracked first env s t now m h (Reach-IsTracked r)
Reach-IsTracked {first} (overridden {s = s} {t = t} env now mode why operator ttl r h) =
    let (a, b) = override_kept env s now mode why operator ttl in
    same-IsTracked first now a b
      (later-IsTracked first s.mode s.entry_time t now h (Reach-IsTracked r))
Reach-IsTracked (cleared r) = Reach-IsTracked r
Reach-IsTracked {first} (requested {s = s} {t = t} now target why source severity r h) =
    let (a, b) = requested_kept s now target why source severity in
    same-IsTracked first now a b
      (later-IsTracked first s.mode s.entry_time t now h (Reach-IsTracked r))
Reach-IsTracked {first} (read {s = s} {t = t} now r h) =
    later-IsTracked first s.mode s.entry_time t now h (Reach-IsTracked r)

-- What an evaluation at `now` may do to a mode that was entered at `e`.
abbrev pub IsAllowed : SystemMode → ℕ → SystemMode → ℕ → Type 0
IsAllowed mode e next now =
    (next ≡ mode)
    ⊎ ((next ≡ emergency_stop)
        ⊎ (((index mode < index next) × (get_hold_time mode ≤ now - e))
            ⊎ ((index next < index mode) × (minimum_duration mode ≤ now - e))))

-- an evaluation of a manager without a time of entry
evaluate_fresh :
    (env : Services) (s : Manager) (now : ℕ) (m : HealthMetrics)
    → s.entry_time s.mode ≡ none
    → let next = (evaluate env s now m).1.mode in
      (next ≡ s.mode) ⊎ (next ≡ (compute_mode_from_metrics s.mode m).0)
unfolding evaluate check_override
evaluate_fresh env s now m e = ground (
  arith,
  evaluate_metrics_lem env (check_override s now) now m,
  hysteresis_fresh s.mode (compute_mode_from_metrics s.mode m).0 now,
)

evaluate_known :
    (env : Services) (s : Manager) (e now : ℕ) (m : HealthMetrics)
    → s.entry_time s.mode ≡ some e
    → IsAllowed s.mode e (evaluate env s now m).1.mode now
unfolding evaluate check_override
evaluate_known env s e now m k = ground (
  arith,
  evaluate_metrics_lem env (check_override s now) now m,
  hysteresis_timing s.mode (compute_mode_from_metrics s.mode m).0 e now,
)

-- In every history of a process, an evaluation finds one of two cases. The mode was entered at a known time `e`,
-- and the next mode is the same, or the emergency stop, or a more severe one after the hold time of the
-- mode, or a less severe one after its minimum duration. Or the mode is the loaded one and has no time of
-- entry, and the next mode is the same or at once what the metrics call for.
pub evaluate_paced :
    {first : SystemMode} {s : Manager} {t : ℕ} (env : Services) (now : ℕ) (m : HealthMetrics)
    → Reach first s t
    → t ≤ now
    → let next = (evaluate env s now m).1.mode in
      ((e : ℕ) × (s.entry_time s.mode ≡ some e) × (e ≤ now) × IsAllowed s.mode e next now)
      ⊎ ((s.mode ≡ first)
          × (s.entry_time s.mode ≡ none)
          × ((next ≡ s.mode) ⊎ (next ≡ (compute_mode_from_metrics s.mode m).0)))
unfolding IsTracked
evaluate_paced {first} {s} {t} env now m r h = elim (Reach-IsTracked r) [
  | inl (f, none_) ↦ inr (f, none_ s.mode, evaluate_fresh env s now m (none_ s.mode))
  | inr (a, e, k, l) ↦ inl (e, k, omega (arith, l), evaluate_known env s e now m k)
]

-- With no override in force, a set emergency or kill switch flag puts the manager into the emergency
-- stop at once, from every state, and `evaluate` returns that mode.
pub evaluate-stop :
    (env : Services) (s : Manager) (now : ℕ) (m : HealthMetrics)
    → (check_override s now).override ≡ none
    → stop_requested m ≡ true
    → ((evaluate env s now m).0 ≡ emergency_stop) × ((evaluate env s now m).1.mode ≡ emergency_stop)
unfolding evaluate
evaluate-stop env s now m o h = ground (
  arith,
  computed_stop s.mode m h,
  hysteresis_stop s.mode (s.entry_time s.mode) now,
  evaluate_metrics_lem env (check_override s now) now m,
)
