-- ===== src/Overlay/Run.antt =====
-- `check` of `RiskOverlay` in backend/app/services/risk_overlay.py, which runs the six checks, and the other
-- changes of an overlay.
use polymarket_agent.Common.{
  ℕ, ◌+◌, Bool, true, false, none, some, not, ◌&&◌, [], ltb, leb, if◌then◌else◌,
}
use polymarket_agent.Common.Int.{ℤ}
use polymarket_agent.Overlay.Checks.{
  Status, RiskState, Overlay, Readings, active, reduced, stopped, market_data_unstable, initialized,
  reset_reason, cooldown_expired, all_checks_passed, cooling_down_until, state_of, check_drawdown,
  check_consecutive_losses, check_slippage_spike, check_liquidity_collapse, check_ws_stall,
  check_market_data_stability, refresh_reconnects,
}

abbrev pub is_stop : Status → Bool
is_stop stopped = true
is_stop _ = false

abbrev pub is_active : Status → Bool
is_active active = true
is_active _ = false

abbrev pub is_unstable : Status → Bool
is_unstable market_data_unstable = true
is_unstable _ = false

-- `if test(check.status): self._state = check; return`, before what follows
abbrev pub unless : (Status → Bool) → RiskState × Overlay → (Overlay → Overlay) → Overlay
unless test result rest =
    let (s, o) = result in if test s.status then record o { state = s } else rest o

-- the end of `check`, after six checks have let it pass
unfoldable pub settle : ℕ → Status → Overlay → Overlay
settle now previous o = elim o.cooldown_end [
  | none ↦ record o { state = state_of active all_checks_passed none }
  | some end ↦
      if not (is_active previous) && leb end now
      then record o { state = state_of active cooldown_expired none }
      else record o {
        state =
            state_of (if ltb now end then reduced else active) (cooling_down_until end) (some end);
      }
]

-- `check` from each of its checks on; `previous` is the status before the first one
module _ (now : ℕ) (usual : ℤ) (env : Readings) (previous : Status) where
  unfoldable pub from_market_data : Overlay → Overlay
  unfolding settle
  from_market_data o =
      unless is_unstable (check_market_data_stability now env.event_times o) (settle now previous)

  unfoldable pub from_stall : Overlay → Overlay
  unfolding from_market_data
  from_stall o = unless (λ s. not (is_active s)) (check_ws_stall now env o) from_market_data

  unfoldable pub from_liquidity : Overlay → Overlay
  unfolding from_stall
  from_liquidity o =
      unless (λ s. not (is_active s)) (check_liquidity_collapse now env.event_times o) from_stall

  unfoldable pub from_slippage : Overlay → Overlay
  unfolding from_liquidity
  from_slippage o = unless is_stop (check_slippage_spike now usual env o) from_liquidity

  unfoldable pub from_losses : Overlay → Overlay
  unfolding from_slippage
  from_losses o = unless is_stop (check_consecutive_losses now env.closed_pnl o) from_slippage

-- `check`
unfoldable pub check : ℕ → ℤ → Readings → Overlay → Overlay
unfolding from_losses
check now usual env o =
    unless is_stop (check_drawdown now env.newest_snapshot o)
      (from_losses now usual env o.state.status)

-- `record_reconnect`
unfoldable pub record_reconnect : ℕ → Overlay → Overlay
record_reconnect now o =
    let o' = refresh_reconnects now o in record o' { reconnect_count = o'.reconnect_count + 1 }

-- `reset`
unfoldable pub reset : Overlay → Overlay
reset o = record o {
  state = state_of active reset_reason none;
  consecutive_losses = 0;
  cooldown_end = none;
}

-- a new overlay
unfoldable pub init : ℕ → Overlay
init now = record {
  state = state_of active initialized none;
  portfolio_drawdown_curve = [];
  consecutive_losses = 0;
  baseline_slippage = none;
  last_ws_timestamp = none;
  cooldown_end = none;
  reconnect_count = 0;
  last_reconnect_reset = now;
  trading_halts = [];
}
