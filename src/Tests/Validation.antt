-- ===== src/Tests/Validation.antt =====
-- The validation of backend/app/services/validation_engine.py over concrete tables.
use polymarket_agent.Common.{
  ◌≡◌, ◌↔◌, ◌≤◌, ◌<◌, ◌+◌, ◌*◌, refl, true, some, none, [], ◌∷◌, keep, length, map,
}
use polymarket_agent.Exposure.{
  GuardSettings, check_exposure, accumulate, open_trade, compute_effective_limits, is_live_trade,
  max_open_positions,
}
use polymarket_agent.Exposure.Laws.{total_of, market_total}
use polymarket_agent.Validation.{
  RiskSettings, RiskTrade, count_open_trades, calculate_daily_loss, is_exposed, buy_side,
  validate_trade, validate_risk, check_cooldown, check_limits,
}
use polymarket_agent.Validation.Laws.{IsWithinLimits, IsValidRequest, validate_trade_iff}

-- the defaults of the settings: a capital of 10,000
abbrev settings : RiskSettings
settings = record {
  paper_initial_capital = 1000000000000;
  max_position_size = 1000;
  max_daily_loss = 50000000000;
  max_open_positions = 5;
  exposure_limit = 3000;
  cooldown_minutes = 15;
  min_confidence_threshold = 6000;
}

abbrev guard : GuardSettings
guard = record {
  capital = 0;
  max_total_exposure_pct = 3000;
  max_position_size_pct = 500;
  max_market_exposure_pct = 1000;
}

-- two at one half in the market 3, opened at the time 100000000
abbrev first : RiskTrade
first = record {
  guarded = record {
    market_id = 3;
    status = open_trade;
    filled_size = some 200000000;
    filled_price = some 50000000;
  };
  size = 200000000;
  pnl = none;
  exit_timestamp = none;
  created_at = 100000000;
  updated_at = 100000000;
}

approves :
    (validate_trade settings guard 0 200000000
      (first ∷ [])
      (some 4)
      buy_side
      (some 200000000)
      (some 7000)
      50000000).approved
    ≡ true
unfolding validate_trade validate_risk check_limits count_open_trades is_live_trade
    calculate_daily_loss check_cooldown is_exposed check_exposure compute_effective_limits
    accumulate
approves = refl

-- 800 of the 900 seconds are left
cools : check_cooldown settings 200000000 (first ∷ []) 3 ≡ 800
unfolding check_cooldown
cools = refl

validate_trade_iff_example :
    let result =
      validate_trade settings guard 0 200000000
        (first ∷ [])
        (some 4)
        buy_side
        (some 200000000)
        (some 7000)
        50000000 in
    let limits = compute_effective_limits guard none in
    let open_trades = keep is_live_trade (map (λ t. t.guarded) (first ∷ [])) in
    (result.approved ≡ true) ↔ (
      (IsValidRequest (some 4) buy_side (some 200000000)
        × IsWithinLimits settings 200000000 (first ∷ []) 4 200000000 7000)
      × ((total_of open_trades + 200000000 * 50000000 ≤ limits.total_exposure)
          × (200000000 * 50000000 ≤ limits.position_size)
          × (length open_trades < max_open_positions)
          × (market_total 4 open_trades + 200000000 * 50000000 ≤ limits.market_exposure)))
validate_trade_iff_example =
    validate_trade_iff settings guard 0 200000000 (first ∷ []) (some 4) buy_side (some 200000000)
      (some 7000) 50000000
