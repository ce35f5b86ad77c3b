-- ===== src/Mode/Override.antt =====
-- The manual override of backend/app/core/system_mode.py, and a restart from the stored mode.
use Prim.Native.String.{String}
use polymarket_agent.Common.{
  ℕ, ◌+◌, ◌*◌, ◌≤◌, ◌<◌, ◌≡◌, refl, true, false, Option, none, some, arith, ltb, if◌then◌else◌, ◌⊎◌,
}
use polymarket_agent.Mode.Kind.{SystemMode, le}
use polymarket_agent.Mode.Metrics.{HealthMetrics, manual_override, compute_mode_from_metrics}
use polymarket_agent.Mode.Manager.{
  Services, Manager, Persisted, init, get_mode, get_context, set_manual_override, evaluate,
  load_from_redis, payload, can_process, can_write, can_execute_trades, is_shadow, can_recover,
}
use polymarket_agent.Mode.Decisions.{hysteresis_fresh, evaluate_metrics_lem}

module _ (env : Services) (s : Manager) (now : ℕ) (mode : SystemMode) (why operator : String)
    (ttl : ℕ) where
  -- An override given for `ttl` seconds, 0 not included, is the mode that `get_mode` returns exactly
  -- until they have passed; from then on it returns the mode below it, and the override is gone.
  pub get_mode-override :
      (later : ℕ)
      → 0 < ttl
      → now ≤ later
      → let s' = set_manual_override env s now mode why operator ttl in
        ((get_mode s' later).0 ≡ (if ltb later (now + ttl * 1000) then mode else s.mode))
        × ((get_mode s' later).1.override
            ≡ (if ltb later (now + ttl * 1000) then s'.override else none))
  unfolding get_mode set_manual_override
  get_mode-override later p q = ground arith

  -- A lifetime of 0 seconds never ends.
  pub get_mode-override_zero :
      (later : ℕ)
      → ttl ≡ 0
      → (get_mode (set_manual_override env s now mode why operator ttl) later).0 ≡ mode
  unfolding get_mode set_manual_override
  get_mode-override_zero later z = ground arith

  -- While an override is in force, `evaluate` returns its mode and changes nothing.
  pub evaluate-override :
      (env' : Services) (later : ℕ) (m : HealthMetrics)
      → now ≤ later
      → later < now + ttl * 1000
      → let s' = set_manual_override env s now mode why operator ttl in
        evaluate env' s' later m ≡ (mode, s')
  unfolding evaluate set_manual_override
  evaluate-override env' later m p q = ground arith

  -- The permissions and the thresholds do not see an override: after `set_manual_override`
  -- `get_mode` returns the given mode, and `can_process`, `can_write`, `can_execute_trades`,
  -- `is_shadow`, `can_recover` and `get_context` answer as before.
  permissions-override :
      let s' = set_manual_override env s now mode why operator ttl in
      ((get_mode s' now).0 ≡ mode)
      × (can_process s' ≡ can_process s)
      × (can_write s' ≡ can_write s)
      × (can_execute_trades s' ≡ can_execute_trades s)
      × (is_shadow s' ≡ is_shadow s)
      × (can_recover s' ≡ can_recover s)
      × (get_context s' ≡ get_context s)
  unfolding get_mode set_manual_override can_process can_write can_execute_trades is_shadow
      can_recover get_context
  permissions-override = ground arith

-- A more severe mode permits no more than a milder one, and of the permissions each asks for the
-- next: trading for writing, and writing for processing.
pub permissions_antitone :
    (s t : Manager)
    → le s.mode t.mode ≡ true
    → ((can_execute_trades t ≡ false) ⊎ (can_execute_trades s ≡ true))
      × ((can_write t ≡ false) ⊎ (can_write s ≡ true))
      × ((can_process t ≡ false) ⊎ (can_process s ≡ true))
      × ((can_execute_trades s ≡ false) ⊎ (can_write s ≡ true))
      × ((can_write s ≡ false) ⊎ (can_process s ≡ true))
unfolding can_process can_write can_execute_trades le
permissions_antitone s t h = ground arith

-- `load_from_redis` in a fresh process, of what a manager has stored; `none` is also a key that has
-- expired, an hour after it was written
unfoldable pub restart : Option Persisted → Manager
unfolding load_from_redis init
restart none = init
restart (some p) = load_from_redis init (payload (some p.mode) (some p.reason) (some p.updated_at))

stored-override :
    (env : Services) (s : Manager) (now : ℕ) (mode : SystemMode) (why operator : String) (ttl : ℕ)
    → env.redis_up ≡ true
    → (set_manual_override env s now mode why operator ttl).stored
      ≡ some (record { mode = mode; reason = manual_override why; updated_at = now })
unfolding set_manual_override
stored-override env s now mode why operator ttl h = ground arith

evaluate-restart :
    (env : Services) (p : Persisted) (later : ℕ) (m : HealthMetrics)
    → (evaluate env (restart (some p)) later m).1.mode ≡ (compute_mode_from_metrics p.mode m).0
unfolding evaluate restart
evaluate-restart env p later m = ground (
  arith,
  evaluate_metrics_lem env (restart (some p)) later m,
  hysteresis_fresh p.mode (compute_mode_from_metrics p.mode m).0 later,
)

-- A restart turns a stored override into the plain mode, with no override and no lifetime, and with no
-- time of entry either: the next evaluation goes straight to what the metrics call for.
pub restart-override :
    (env env' : Services) (s : Manager) (now later : ℕ) (mode : SystemMode) (why operator : String)
    (ttl : ℕ) (m : HealthMetrics)
    → env.redis_up ≡ true
    → let s' = restart (set_manual_override env s now mode why operator ttl).stored in
      (s'.mode ≡ mode)
      × (s'.override ≡ none)
      × ((evaluate env' s' later m).1.mode ≡ (compute_mode_from_metrics mode m).0)
unfolding restart
restart-override env env' s now later mode why operator ttl m h =
    rw (stored-override env s now mode why operator ttl h)
      (refl, refl, evaluate-restart env' _ later m)
