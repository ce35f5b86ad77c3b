-- ===== src/Exposure.antt =====
-- `GlobalRiskGuard` of backend/app/services/global_risk_guard.py. Sizes and prices are in units of the
-- eighth decimal and amounts in units of the sixteenth; the capital is in units of the twelfth and
-- the percentages of the settings are in ten-thousandths. Floating point rounding is not modelled.
pub mod Laws
pub mod Reach
use polymarket_agent.Common.{
  ℕ, ◌+◌, ◌*◌, Bool, true, false, Option, none, some, ◌&&◌, not, List, [], ◌∷◌, ◌==◌, ltb, leb,
  if◌then◌else◌, get_or, length, keep,
}
use polymarket_agent.Common.Dict.{Dict, lookup, insert}
use polymarket_agent.Capital.{dollar}

pub data TradeStatus : Type 0 where
  open_trade pending_trade closed_trade cancelled_trade : TradeStatus

-- The columns of `Trade` that the guard reads.
pub record GuardedTrade : Type 0 where
  pub market_id : ℕ
  pub status : TradeStatus
  pub filled_size : Option ℕ
  pub filled_price : Option ℕ

-- `settings`
pub record GuardSettings : Type 0 where
  pub capital : ℕ
  pub max_total_exposure_pct : ℕ
  pub max_position_size_pct : ℕ
  pub max_market_exposure_pct : ℕ

pub record Limits : Type 0 where
  pub total_exposure : ℕ
  pub position_size : ℕ
  pub market_exposure : ℕ

at_least : ℕ → ℕ → ℕ
at_least fallback n = if ltb n fallback then fallback else n

capital_of : GuardSettings → Option ℕ → ℕ
capital_of c none = c.capital
capital_of c (some n) = if n == 0 then c.capital else n

-- `_compute_effective_limits`
unfoldable pub compute_effective_limits : GuardSettings → Option ℕ → Limits
unfolding at_least capital_of
compute_effective_limits c capital =
    let cap = capital_of c capital in
    record {
      total_exposure = at_least (20 * dollar) (cap * c.max_total_exposure_pct);
      position_size = at_least (2 * dollar) (cap * c.max_position_size_pct);
      market_exposure = at_least (5 * dollar) (cap * c.max_market_exposure_pct);
    }

abbrev pub max_open_positions : ℕ
max_open_positions = 3

-- `Trade.status.in_(["open", "pending"])`
unfoldable pub is_live_trade : GuardedTrade → Bool
is_live_trade t = elim t.status [ open_trade ↦ true | pending_trade ↦ true | _ ↦ false ]

-- `filled * price if price > 0 else 0`
unfoldable pub exposure_of : GuardedTrade → ℕ
exposure_of t =
    let filled = get_or t.filled_size 0 in
    let price = get_or t.filled_price 0 in if ltb 0 price then filled * price else 0

-- the loop over the open trades: the total, and the dict by market
unfoldable pub accumulate : List GuardedTrade → ℕ → Dict ℕ → ℕ × Dict ℕ
unfolding exposure_of
accumulate [] total by_market = (total, by_market)
accumulate (t ∷ ts) total by_market =
    accumulate ts (total + exposure_of t)
      (insert t.market_id (get_or (lookup t.market_id by_market) 0 + exposure_of t) by_market)

pub data Verdict : Type 0 where
  all_exposure_limits_ok : Verdict
  total_exposure_exceeds position_size_exceeds position_count_exceeds market_exposure_exceeds :
      Verdict

-- `ExposureCheckResult`; the texts of the reasons show the amounts and limits too
pub record ExposureCheckResult : Type 0 where
  pub approved : Bool
  pub reason : Verdict
  pub current_open_exposure : ℕ
  pub pending_exposure : ℕ
  pub exposure_by_market : Dict ℕ
  pub position_count : ℕ

-- the chain of tests in `check_exposure`
unfoldable pub verdict : Limits → ℕ → ℕ → ℕ → ℕ → Verdict
verdict limits current pending count market =
    if ltb limits.total_exposure (current + pending)
    then total_exposure_exceeds
    else if ltb limits.position_size pending
    then position_size_exceeds
    else if leb max_open_positions count
    then position_count_exceeds
    else if ltb limits.market_exposure market
    then market_exposure_exceeds
    else all_exposure_limits_ok

is_ok : Verdict → Bool
is_ok all_exposure_limits_ok = true
is_ok _ = false

-- `check_exposure`, over the rows of the table
unfoldable pub check_exposure : GuardSettings → List GuardedTrade → ℕ → ℕ → ℕ → ExposureCheckResult
unfolding verdict is_ok
check_exposure c trades market_id proposed_size proposed_price =
    let open_trades = keep is_live_trade trades in
    let (current, by_market) = accumulate open_trades 0 [] in
    let pending = proposed_size * proposed_price in
    let why =
      verdict (compute_effective_limits c none) current pending (length open_trades)
        (get_or (lookup market_id by_market) 0 + pending) in
    record {
      approved = is_ok why;
      reason = why;
      current_open_exposure = current;
      pending_exposure = pending;
      exposure_by_market = by_market;
      position_count = length open_trades;
    }
