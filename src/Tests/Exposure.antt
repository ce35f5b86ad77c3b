-- ===== src/Tests/Exposure.antt =====
-- The guard of backend/app/services/global_risk_guard.py over concrete tables.
use polymarket_agent.Common.{◌≡◌, ◌≤◌, ◌*◌, refl, true, none, List, [], ◌∷◌, arith, length, keep}
use polymarket_agent.Exposure.{
  GuardSettings, is_live_trade, compute_effective_limits, check_exposure, accumulate,
}
use polymarket_agent.Exposure.Laws.{total_of}
use polymarket_agent.Exposure.Reach.{
  Reach, empty, opened, filled, Proposed, trades_of, fill_at, pending, Reach-IsWithin,
}

abbrev guard : GuardSettings
guard = record {
  capital = 0;
  max_total_exposure_pct = 3000;
  max_position_size_pct = 500;
  max_market_exposure_pct = 1000;
}

approves : (check_exposure guard [] 3 200000000 50000000).approved ≡ true
unfolding check_exposure compute_effective_limits accumulate
approves = refl

-- two at one half, approved and filled later as a whole
abbrev table : List Proposed
table = fill_at 0 200000000 50000000 (pending 3 200000000 50000000 ∷ [])

table-Reach : Reach guard table
table-Reach = filled 0 200000000 50000000 (opened 3 200000000 50000000 empty approves) (omega arith)

Reach-IsWithin_example :
    (length (keep is_live_trade (trades_of table)) ≤ 3)
    × (total_of (keep is_live_trade (trades_of table))
        ≤ 3 * (compute_effective_limits guard none).position_size)
Reach-IsWithin_example = Reach-IsWithin table-Reach
