-- ===== src/Tests/Overlay.antt =====
-- The overlay of backend/app/services/risk_overlay.py over concrete readings.
use polymarket_agent.Common.{◌≡◌, ◌||◌, refl, true, false, some, none, [], ◌∷◌, if◌then◌else◌}
use polymarket_agent.Common.Int.{pos}
use polymarket_agent.Overlay.Checks.{
  Readings, Overlay, active, reduced, stopped, market_data_unstable, is_stalled, check_drawdown,
  exceeds, add_to_curve, stop_for, check_consecutive_losses, check_slippage_spike,
  check_liquidity_collapse, check_ws_stall, check_market_data_stability, events_since,
}
use polymarket_agent.Overlay.Run.{check, init}
use polymarket_agent.Overlay.Passing.{in_drawdown, in_losses, in_spike, in_collapse}
use polymarket_agent.Overlay.Laws.{check_status, in_disorder, is_cooling}

-- five events now, and a portfolio of 70 after a peak of 100
abbrev fallen : Readings
fallen = record {
  ws_stall_seconds = 60;
  newest_snapshot = some (record { peak = 100; current = 70 });
  closed_pnl = [];
  average_slippage = none;
  recent_slippage = none;
  event_times = 1000 ∷ 1000 ∷ 1000 ∷ 1000 ∷ 1000 ∷ [];
  query_fails = true;
}

-- 15 hundredths below the peak, with nothing else in the way
abbrev lower : Readings
lower = record fallen {
  newest_snapshot = some (record { peak = 100; current = 85 });
  query_fails = false;
}

abbrev start : Overlay
start = init 0

stops : (check 1000 (pos 1) fallen start).state.status ≡ stopped
unfolding check check_drawdown exceeds add_to_curve stop_for init
stops = refl

-- a drawdown of more than 12 hundredths is found, and passed over
not_reduced : (check 1000 (pos 1) lower start).state.status ≡ active
unfolding check check_drawdown init check_consecutive_losses check_slippage_spike
    check_liquidity_collapse events_since check_ws_stall check_market_data_stability
not_reduced = refl

check_status_example : (check 1000 (pos 1) fallen start).state.status ≡ (
    if in_drawdown fallen
      || in_losses fallen
      || in_spike (pos 1) fallen start
      || in_collapse 1000 fallen
      || is_stalled 1000 fallen start.last_ws_timestamp
    then stopped
    else if in_disorder 1000 fallen start
    then market_data_unstable
    else if is_cooling 1000 start
    then reduced
    else active)
check_status_example = check_status 1000 (pos 1) fallen start
