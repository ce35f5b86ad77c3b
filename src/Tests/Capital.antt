-- ===== src/Tests/Capital.antt =====
-- Executions of backend/app/services/capital and starts of
-- backend/app/services/capabilities/startup_validation.py at concrete requests.
use polymarket_agent.Common.{
  ◌≡◌, ◌≢◌, ◌≤◌, ◌<◌, ◌+◌, ◌*◌, ℕ, refl, true, false, none, [], ◌∷◌, arith,
}
use polymarket_agent.Governance.{simulation}
use polymarket_agent.Capital.{
  Request, RiskReceipt, HashInput, major, dollar, one, limit, block, get_active_policy,
  planned_position_of, evaluate_execution, verify, calculate_hash, decide, calculate_exposure,
  half_even, classify, risk_multiplier, exposure_model_high,
}
use polymarket_agent.Capital.Laws.{evaluate_execution_bounds}
use polymarket_agent.Startup.{BootSettings, validate, is_bootable}

abbrev request : Request
request = record {
  quantity = 40 * one;
  limit_price = none;
  asset_class = major;
  current_daily_loss = 0;
  current_total_exposure = 0;
  current_asset_exposure = 0;
  total_available_capital = 100 * dollar;
  slot = 7;
}

-- not a hash that keeps the contents apart, but one
abbrev slots : HashInput → ℕ
slots h = h.risk_snapshot.planned_position

abbrev receipt : RiskReceipt
receipt = evaluate_execution slots get_active_policy request

-- 40 percent of the capital in a large coin is high
limited : (receipt.capital_decision ≡ limit) × (receipt.reason_codes ≡ exposure_model_high ∷ [])
unfolding evaluate_execution get_active_policy calculate_exposure planned_position_of decide
    half_even classify risk_multiplier
limited = (refl, refl)

not_blocked : receipt.capital_decision ≢ block
not_blocked h = ground (arith, limited.0)

evaluate_execution_bounds_example :
    (planned_position_of request ≤ 1000 * dollar)
    × (request.current_total_exposure + planned_position_of request ≤ 5000 * dollar)
    × (request.current_asset_exposure + planned_position_of request ≤ 2000 * dollar)
    × (request.current_daily_loss ≤ 500 * dollar)
    × (0 < request.total_available_capital)
    × (20000 * planned_position_of request ≤ 10001 * request.total_available_capital)
evaluate_execution_bounds_example = evaluate_execution_bounds slots request not_blocked

verified : verify slots receipt ≡ true
unfolding evaluate_execution verify calculate_hash planned_position_of
verified = refl

abbrev boot : BootSettings
boot = record { execution_mode = simulation; strict_live_enabled = false; capital_enabled = false }

boots : validate boot ≡ none
unfolding validate is_bootable
boots = refl
