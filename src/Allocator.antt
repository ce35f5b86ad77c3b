-- ===== src/Allocator.antt =====
-- `PortfolioAllocator` of backend/app/services/portfolio_allocator.py. Factors are in percent, confidences,
-- drawdowns and risk weights in ten-thousandths, win rates in units of the sixth decimal. The capital and the
-- sizes of trades are in units of the eighth decimal. An amount is in units of the 22nd, in which the product
-- of the factors is exact; the size of a position is in ten-thousandths. Floating point rounding is not
-- modelled. Strategies are identifiers, and what the column of the table keeps of an amount is an argument.
pub mod Caps
pub mod Totals
use Prim.Native.Nat.{◌%◌}
use polymarket_agent.Common.{
  ℕ, zero, suc, ◌+◌, ◌-◌, ◌*◌, ◌/◌, ◌==◌, Bool, true, false, Option, none, some, List, [], ◌∷◌, ltb,
  leb, if◌then◌else◌, get_or, map, nonempty,
}
use polymarket_agent.Common.Dict.{Dict, lookup, insert}
use polymarket_agent.Common.Int.{ℤ, pos, sub_ℕ}
use polymarket_agent.Validation.{RiskTrade, live_size}

pub data Regime : Type 0 where
  crisis normal extreme high_volatility low_volatility momentum mean_reverting illiquid : Regime
  other_regime : ℕ → Regime

pub data Archetype : Type 0 where
  high_liquidity medium_liquidity low_liquidity illiquid_market : Archetype
  other_archetype : ℕ → Archetype

pub data Bucket : Type 0 where
  core satellite speculative : Bucket

pub record Request : Type 0 where
  pub signal_confidence : ℕ
  pub strategy_name : ℕ
  pub market_archetype : Archetype
  pub regime : Regime
  pub current_drawdown : ℕ

-- `AllocatedPosition`; its factors are rounded to the fourth decimal, which keeps them
pub record AllocatedPosition : Type 0 where
  pub size : ℕ
  pub risk_weight : ℤ
  pub exposure_bucket : Bucket
  pub confidence_factor : ℕ
  pub regime_factor : ℕ
  pub strategy_expectancy_factor : ℕ
  pub drawdown_factor : ℕ
  pub liquidity_factor : ℕ

-- What the allocator reads: the settings, the newest record of a strategy's performance with its win rate,
-- the table of trades, and how many correlations are at least 0.7.
pub record Market : Type 0 where
  pub paper_initial_capital : ℕ
  pub max_position_size : ℕ
  pub performance : ℕ → Option (Option ℕ)
  pub trades : List RiskTrade
  pub correlation_count : ℕ

-- `_allocated_capital_per_strategy`, and the table of the allocation states
pub record Allocator : Type 0 where
  pub totals : Dict ℕ
  pub table : Dict ℕ

unfoldable pub compute_confidence_factor : ℕ → ℕ
compute_confidence_factor confidence =
    if leb 9000 confidence
    then 100
    else if leb 7000 confidence
    then 80
    else if leb 5000 confidence
    then 50
    else 25

unfoldable pub compute_regime_factor : Regime → ℕ
compute_regime_factor crisis = 30
compute_regime_factor normal = 100
compute_regime_factor extreme = 60
compute_regime_factor high_volatility = 50
compute_regime_factor low_volatility = 80
compute_regime_factor momentum = 90
compute_regime_factor mean_reverting = 70
compute_regime_factor illiquid = 20
compute_regime_factor (other_regime n) = 50

-- `float(record.win_rate) if record.win_rate else 0.5`
unfoldable pub win_rate_of : Option ℕ → ℕ
win_rate_of none = 500000
win_rate_of (some n) = if n == 0 then 500000 else n

unfoldable pub compute_strategy_expectancy_factor : Option (Option ℕ) → ℕ
unfolding win_rate_of
compute_strategy_expectancy_factor none = 100
compute_strategy_expectancy_factor (some rate) =
    let win_rate = win_rate_of rate in
    if ltb win_rate 350000
    then 30
    else if ltb win_rate 500000
    then 60
    else if ltb win_rate 700000
    then 100
    else 120

unfoldable pub compute_drawdown_factor : ℕ → ℕ
compute_drawdown_factor drawdown =
    if leb drawdown 500
    then 100
    else if leb drawdown 1000
    then 75
    else if leb drawdown 1500
    then 50
    else if leb drawdown 2000
    then 25
    else 0

unfoldable pub compute_liquidity_factor : Archetype → ℕ
compute_liquidity_factor high_liquidity = 100
compute_liquidity_factor medium_liquidity = 80
compute_liquidity_factor low_liquidity = 40
compute_liquidity_factor illiquid_market = 10
compute_liquidity_factor (other_archetype n) = 50

unfoldable pub regime_penalty : Regime → ℕ
regime_penalty crisis = 3000
regime_penalty high_volatility = 2000
regime_penalty illiquid = 3000
regime_penalty _ = 0

-- `min(1.0, (1.0 - confidence) + regime_penalty)`
unfoldable pub compute_risk_weight : Regime → ℕ → ℤ
unfolding regime_penalty
compute_risk_weight regime confidence =
    let weight = 10000 + regime_penalty regime in
    if ltb (10000 + confidence) weight then pos 10000 else sub_ℕ weight confidence

unfoldable pub classify_exposure_bucket : Archetype → Bucket
classify_exposure_bucket low_liquidity = satellite
classify_exposure_bucket illiquid_market = speculative
classify_exposure_bucket _ = core

-- a percentage of an amount in units of the eighth decimal
abbrev pub percent : ℕ → ℕ → ℕ
percent n amount = n * amount * 1000000000000

-- `_get_current_exposure`, whose filter by regime is not used
unfoldable pub get_current_exposure : Market → ℕ
get_current_exposure env = percent 100 (live_size env.trades)

-- `_get_correlated_exposure`
unfoldable pub get_correlated_exposure : Market → ℕ
get_correlated_exposure env =
    let share = env.correlation_count * 10 in
    if ltb 0 env.correlation_count
    then percent (if ltb share 50 then share else 50) (live_size env.trades)
    else 0

-- `if used + size > most: size = max(0, most - used)`; a difference on ℕ is at least 0
unfoldable pub cap : ℕ → ℕ → ℕ → ℕ
cap most used size = if ltb most (used + size) then most - used else size

unfoldable pub is_crisis : Regime → Bool
is_crisis crisis = true
is_crisis _ = false

-- `_enforce_hard_caps`, where `total` is what the strategy has so far
unfoldable pub enforce_hard_caps : Market → ℕ → ℕ → Regime → ℕ
unfolding cap
enforce_hard_caps env total size regime =
    let capital = env.paper_initial_capital in
    let single = if ltb (percent 10 capital) size then percent 10 capital else size in
    let in_crisis =
      if is_crisis regime
      then cap (percent 15 capital) (get_current_exposure env) single
      else single in
    let of_strategy = cap (percent 40 capital) total in_crisis in
    cap (percent 25 capital) (get_correlated_exposure env) of_strategy

-- the product of the base size and the factors
unfoldable pub scaled_size : Market → Request → ℕ
scaled_size env r =
    env.paper_initial_capital
    * env.max_position_size
    * compute_confidence_factor r.signal_confidence
    * compute_regime_factor r.regime
    * compute_strategy_expectancy_factor (env.performance r.strategy_name)
    * compute_drawdown_factor r.current_drawdown
    * compute_liquidity_factor r.market_archetype

-- `round`: to the nearest multiple, and to the even one of two
unfoldable pub round_to : ℕ → ℕ → ℕ
round_to unit n =
    let q = n / unit in
    let twice = 2 * (n % unit) in
    if ltb twice unit then q else if ltb unit twice then q + 1 else if q % 2 == 0 then q else q + 1

abbrev pub ten_thousandth : ℕ
ten_thousandth = 1000000000000000000

unfoldable pub position_of : Market → Request → ℕ → AllocatedPosition
position_of env r size = record {
  size = round_to ten_thousandth size;
  risk_weight = compute_risk_weight r.regime r.signal_confidence;
  exposure_bucket = classify_exposure_bucket r.market_archetype;
  confidence_factor = compute_confidence_factor r.signal_confidence;
  regime_factor = compute_regime_factor r.regime;
  strategy_expectancy_factor = compute_strategy_expectancy_factor (env.performance r.strategy_name);
  drawdown_factor = compute_drawdown_factor r.current_drawdown;
  liquidity_factor = compute_liquidity_factor r.market_archetype;
}

unfoldable pub total_of_strategy : ℕ → Allocator → ℕ
total_of_strategy s a = get_or (lookup s a.totals) 0

-- the size that `allocate` works out, before it is rounded
unfoldable pub allocated_size : Market → Request → Allocator → ℕ
unfolding total_of_strategy
allocated_size env r a =
    enforce_hard_caps env (total_of_strategy r.strategy_name a) (scaled_size env r) r.regime

-- what the column of a total keeps of it
module _ (kept : ℕ → ℕ) where
  -- `_persist_allocation_state`: the row of the strategy is changed, or added where there is none
  unfoldable pub persist_allocation_state : ℕ → Allocator → Allocator
  unfolding total_of_strategy
  persist_allocation_state s a = record a {
    table = insert s (kept (total_of_strategy s a)) a.table;
  }

  -- `allocate`
  unfoldable pub allocate : Market → Request → Allocator → AllocatedPosition × Allocator
  unfolding persist_allocation_state
  allocate env r a =
      let size = allocated_size env r a in
      let totals = insert r.strategy_name (total_of_strategy r.strategy_name a + size) a.totals in
      (
        position_of env r size,
        persist_allocation_state r.strategy_name (record a { totals = totals }),
      )

-- `restore_from_db`
unfoldable pub restore_from_db : Allocator → Allocator
restore_from_db a = record a { totals = a.table }

-- `reset`
unfoldable pub reset : Allocator → Allocator
reset a = record a { totals = [] }

-- `get_allocated_capital`
unfoldable pub get_allocated_capital : Option ℕ → Allocator → Dict ℕ × Allocator
get_allocated_capital strategy a =
    let a' = if nonempty a.totals then a else restore_from_db a in
    (elim strategy [ none ↦ a'.totals | some s ↦ (s, total_of_strategy s a') ∷ [] ], a')
