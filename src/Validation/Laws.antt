-- ===== src/Validation/Laws.antt =====
-- What backend/app/services/validation_engine.py lets through: the limits of
-- backend/app/services/risk_service.py and those of backend/app/services/global_risk_guard.py.
use polymarket_agent.Common.{
  is_some, ◌≡◌, ◌↔◌, ◌≤◌, ◌<◌, ◌+◌, ◌*◌, ◌==◌, ℕ, true, false, Option, none, some, not, List, ◌++◌,
  arith, keep, length, map, get_or, refl,
}
use polymarket_agent.Common.Int.{ℤ, pos}
use polymarket_agent.Exposure.{
  GuardSettings, compute_effective_limits, ExposureCheckResult, check_exposure, is_live_trade,
  max_open_positions,
}
use polymarket_agent.Exposure.Laws.{total_of, market_total, check_exposure_approved}
use polymarket_agent.Validation.{
  RiskSettings, RiskTrade, RiskCheckResult, SideName, buy_side, sell_side, other_side,
  count_open_trades, calculate_daily_loss, check_cooldown, is_exposed, check_limits, validate_risk,
  validate_trade, risk_reasons, exposure_reasons, rejected, accepted, size_of,
}

-- What the risk service asks of a trade of a size in a market.
pub record IsWithinLimits (c : RiskSettings) (now : ℕ) (trades : List RiskTrade)
    (market size confidence : ℕ) : Type 0 where
  pub confident : c.min_confidence_threshold ≤ confidence
  pub bounded : size * 10000 ≤ c.paper_initial_capital * c.max_position_size
  pub few : count_open_trades trades < c.max_open_positions
  pub lost : calculate_daily_loss now trades < c.max_daily_loss
  pub cooled : check_cooldown c now trades market ≡ 0
  pub exposed : is_exposed c trades ≡ false

check_limits_approved :
    (c : RiskSettings) (now : ℕ) (trades : List RiskTrade) (market size confidence : ℕ)
    → ((check_limits c now trades market size confidence).approved ≡ true)
      ↔ IsWithinLimits c now trades market size confidence
unfolding check_limits rejected accepted
check_limits_approved c now trades market size confidence = (λ h. ground arith, λ h. ground arith)

-- A result gives a reason exactly when it rejects.
IsReasoned : RiskCheckResult → Type 0
IsReasoned r = is_some r.reason ≡ not r.approved

check_limits-IsReasoned :
    (c : RiskSettings) (now : ℕ) (trades : List RiskTrade) (market size confidence : ℕ)
    → IsReasoned (check_limits c now trades market size confidence)
unfolding IsReasoned check_limits rejected accepted
check_limits-IsReasoned c now trades market size confidence = ground arith

validate_risk-IsReasoned :
    (c : RiskSettings) (now : ℕ) (trades : List RiskTrade) (market : Option ℕ) (side : SideName)
    (size : Option ℤ) (confidence : Option ℕ)
    → IsReasoned (validate_risk c now trades market side size confidence)
unfolding IsReasoned validate_risk rejected
validate_risk-IsReasoned c now trades none side size confidence = refl
validate_risk-IsReasoned c now trades (some m) side size confidence =
    ground (arith, check_limits-IsReasoned c now trades m (size_of size) (get_or confidence 0))

engine_lem :
    (r : RiskCheckResult) (e : ExposureCheckResult)
    → IsReasoned r
    → ((length (risk_reasons r ++ exposure_reasons e) == 0) ≡ true)
      ↔ ((r.approved ≡ true) × (e.approved ≡ true))
unfolding IsReasoned risk_reasons exposure_reasons
engine_lem r e h = ground arith

-- what is valid before the limits
pub IsValidRequest : Option ℕ → SideName → Option ℕ → Type 0
IsValidRequest none side size = ⊥
IsValidRequest (some m) (other_side n) size = ⊥
IsValidRequest (some m) side none = ⊥
IsValidRequest (some m) side (some n) = 0 < n

validate_risk_approved :
    (c : RiskSettings) (now : ℕ) (trades : List RiskTrade) (market : Option ℕ) (side : SideName)
    (size : Option ℕ) (confidence : Option ℕ)
    → let signed : Option ℤ = elim size [ none ↦ none | some n ↦ some (pos n) ] in
      ((validate_risk c now trades market side signed confidence).approved ≡ true) ↔ (
        IsValidRequest market side size
        × IsWithinLimits c now trades (get_or market 0) (get_or size 0) (get_or confidence 0))
unfolding IsValidRequest validate_risk rejected
validate_risk_approved c now trades none side size confidence = ground arith
validate_risk_approved c now trades (some m) (other_side n) size confidence = ground arith
validate_risk_approved c now trades (some m) buy_side none confidence = ground arith
validate_risk_approved c now trades (some m) sell_side none confidence = ground arith
validate_risk_approved c now trades (some m) buy_side (some n) confidence =
    ground (arith, check_limits_approved c now trades m n (get_or confidence 0))
validate_risk_approved c now trades (some m) sell_side (some n) confidence =
    ground (arith, check_limits_approved c now trades m n (get_or confidence 0))

-- A trade is approved exactly when it names a market, a side that is buy or sell and a positive size, it is
-- within the limits of the risk service - the confidence is at least the least one, the size at most its
-- share of the capital, the open and pending trades are fewer than their number, the loss of the day is
-- less than its limit, the market is not cooling down and the exposure is below its limit - and it is
-- within those of the guard: the total, the position, three trades and the market's.
pub validate_trade_iff :
    (c : RiskSettings) (guard : GuardSettings) (no_market now : ℕ) (trades : List RiskTrade)
    (market : Option ℕ) (side : SideName) (size confidence : Option ℕ) (price : ℕ)
    → let result = validate_trade c guard no_market now trades market side size confidence price in
      let limits = compute_effective_limits guard none in
      let open_trades = keep is_live_trade (map (λ t. t.guarded) trades) in
      let cost = get_or size 0 * price in
      (result.approved ≡ true) ↔ (
        (IsValidRequest market side size
          × IsWithinLimits c now trades (get_or market 0) (get_or size 0) (get_or confidence 0))
        × ((total_of open_trades + cost ≤ limits.total_exposure)
            × (cost ≤ limits.position_size)
            × (length open_trades < max_open_positions)
            × (market_total (get_or market no_market) open_trades + cost ≤ limits.market_exposure)))
unfolding validate_trade
validate_trade_iff c guard no_market now trades market side size confidence price =
    let guarded = map (λ t. t.guarded) trades in
    let signed : Option ℤ = elim size [ none ↦ none | some n ↦ some (pos n) ] in
    let risk = validate_risk c now trades market side signed confidence in
    let exposure = check_exposure guard guarded (get_or market no_market) (get_or size 0) price in
    let both =
      engine_lem risk exposure
        (validate_risk-IsReasoned c now trades market side signed confidence) in
    let r = validate_risk_approved c now trades market side size confidence in
    let e = check_exposure_approved guard guarded (get_or market no_market) (get_or size 0) price in
    (λ h. (r.0 (both.0 h).0, e.0 (both.0 h).1), λ h. both.1 (r.1 h.0, e.1 h.1))
