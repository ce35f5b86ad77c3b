-- ===== src/Validation.antt =====
-- `RiskService` of backend/app/services/risk_service.py and `ValidationEngine` of
-- backend/app/services/validation_engine.py. Sizes, results and the capital are in units of the eighth
-- decimal, percentages, the limit of the exposure and the confidence in ten-thousandths and
-- times in microseconds. Floating point rounding is not modelled, but for the `int(...)` of the code.
pub mod Cooldown
pub mod Laws
use polymarket_agent.Common.{
  ℕ, ◌+◌, ◌-◌, ◌*◌, ◌/◌, ◌==◌, Bool, true, false, Option, none, some, not, ◌&&◌, List, [], ◌∷◌,
  ◌++◌, ltb, leb, if◌then◌else◌, get_or, keep, length, map,
}
use Prim.Native.Nat.{◌%◌}
use polymarket_agent.Common.Int.{ℤ, pos, negsuc, pos_part, neg_part}
use polymarket_agent.Exposure.{
  GuardSettings, GuardedTrade, ExposureCheckResult, Verdict, is_live_trade, check_exposure,
  open_trade, pending_trade, closed_trade, cancelled_trade,
}

-- `settings`
pub record RiskSettings : Type 0 where
  pub paper_initial_capital : ℕ
  -- of the capital, in ten-thousandths
  pub max_position_size : ℕ
  pub max_daily_loss : ℕ
  pub max_open_positions : ℕ
  pub exposure_limit : ℕ
  pub cooldown_minutes : ℕ
  pub min_confidence_threshold : ℕ

-- A row of the table of trades: what the guard reads, and what the risk service reads.
pub record RiskTrade : Type 0 where
  pub guarded : GuardedTrade
  pub size : ℕ
  pub pnl : Option ℤ
  pub exit_timestamp : Option ℕ
  pub created_at : ℕ
  pub updated_at : ℕ

pub data SideName : Type 0 where
  buy_side sell_side : SideName
  other_side : ℕ → SideName

-- The reasons, with the numbers that their texts show and the code computes.
pub data RiskReason : Type 0 where
  market_id_required : RiskReason
  invalid_side : SideName → RiskReason
  invalid_size : Option ℤ → RiskReason
  low_confidence : ℕ → RiskReason
  position_too_large too_many_positions daily_loss_reached cooldown_active exposure_reached :
      RiskReason

pub record RiskCheckResult : Type 0 where
  pub approved : Bool
  pub reason : Option RiskReason
  -- `max_position_size`, in units of the twelfth decimal
  pub position_limit : Option ℕ
  pub loss_limit : Option ℕ
  pub count_limit : Option ℕ
  pub cooldown_remaining : Option ℕ

unfoldable pub rejected : RiskReason → RiskCheckResult
rejected why = record {
  approved = false;
  reason = some why;
  position_limit = none;
  loss_limit = none;
  count_limit = none;
  cooldown_remaining = none;
}

unfoldable pub accepted : RiskCheckResult
accepted = record {
  approved = true;
  reason = none;
  position_limit = none;
  loss_limit = none;
  count_limit = none;
  cooldown_remaining = none;
}

-- `_count_open_trades`
unfoldable pub count_open_trades : List RiskTrade → ℕ
count_open_trades trades = length (keep (λ t. is_live_trade t.guarded) trades)

abbrev pub microseconds_of_day : ℕ
microseconds_of_day = 86400000000

abbrev pub microseconds_of_minute : ℕ
microseconds_of_minute = 60000000

-- the rows of the query of `_calculate_daily_loss`
unfoldable pub lost_today : ℕ → RiskTrade → Bool
lost_today now t =
    let is_closed : Bool = elim t.guarded.status [ closed_trade ↦ true | _ ↦ false ] in
    let today : Bool = elim t.exit_timestamp [
      | none ↦ false
      | some at ↦ leb (now - now % microseconds_of_day) at
    ] in
    let lost : Bool = elim t.pnl [
      | none ↦ false
      | some p ↦ elim p [ pos n ↦ false | negsuc n ↦ true ]
    ] in
    is_closed && today && lost

abbrev pub loss_of : RiskTrade → ℕ
loss_of t = elim t.pnl [ none ↦ 0 | some p ↦ neg_part p ]

unfoldable pub sum_of : (RiskTrade → ℕ) → List RiskTrade → ℕ
sum_of f [] = 0
sum_of f (t ∷ ts) = f t + sum_of f ts

-- `_calculate_daily_loss`: the results that are added are negative, so the sum is minus that of the losses
unfoldable pub calculate_daily_loss : ℕ → List RiskTrade → ℕ
unfolding lost_today sum_of
calculate_daily_loss now trades = sum_of loss_of (keep (lost_today now) trades)

-- the rows of the query of `_check_cooldown`: the trade was created since the cutoff
unfoldable pub is_recent : RiskSettings → ℕ → ℕ → RiskTrade → Bool
is_recent c now market t =
    t.guarded.market_id == market
    && leb now (t.created_at + c.cooldown_minutes * microseconds_of_minute)

-- the latest of some times
unfoldable pub latest : List RiskTrade → Option ℕ
latest [] = none
latest (t ∷ ts) =
    let rest = latest ts in
    elim rest [
      | none ↦ some t.updated_at
      | some at ↦ some (if ltb at t.updated_at then t.updated_at else at)
    ]

-- `_check_cooldown`, in seconds, for the UUID of a market
unfoldable pub check_cooldown : RiskSettings → ℕ → List RiskTrade → ℕ → ℕ
unfolding is_recent latest
check_cooldown c now trades market = elim (latest (keep (is_recent c now market) trades)) [
  | none ↦ 0
  | some at ↦ (at + c.cooldown_minutes * microseconds_of_minute - now) / 1000000
]

-- `sum(Trade.size)` over the pending and open trades
unfoldable pub live_size : List RiskTrade → ℕ
unfolding sum_of
live_size trades = sum_of (λ t. t.size) (keep (λ t. is_live_trade t.guarded) trades)

-- `_calculate_exposure() >= settings.EXPOSURE_LIMIT`, where the ratio is 0 without capital
unfoldable pub is_exposed : RiskSettings → List RiskTrade → Bool
unfolding live_size
is_exposed c trades =
    if ltb 0 c.paper_initial_capital
    then leb (c.exposure_limit * c.paper_initial_capital) (live_size trades * 10000)
    else leb c.exposure_limit 0

abbrev is_valid_side : SideName → Bool
is_valid_side (other_side n) = false
is_valid_side _ = true

abbrev has_size : Option ℤ → Bool
has_size none = false
has_size (some (pos n)) = ltb 0 n
has_size (some (negsuc n)) = false

abbrev pub size_of : Option ℤ → ℕ
size_of none = 0
size_of (some s) = pos_part s

-- `RiskService.validate_trade` from the check of the confidence on
unfoldable pub check_limits : RiskSettings → ℕ → List RiskTrade → ℕ → ℕ → ℕ → RiskCheckResult
unfolding rejected accepted
check_limits c now trades market size confidence =
    let max_pos_size = c.paper_initial_capital * c.max_position_size in
    let cooldown = check_cooldown c now trades market in
    if ltb confidence c.min_confidence_threshold
    then rejected (low_confidence confidence)
    else if ltb max_pos_size (size * 10000)
    then record (rejected position_too_large) { position_limit = some max_pos_size }
    else if leb c.max_open_positions (count_open_trades trades)
    then record (rejected too_many_positions) { count_limit = some c.max_open_positions }
    else if leb c.max_daily_loss (calculate_daily_loss now trades)
    then record (rejected daily_loss_reached) { loss_limit = some c.max_daily_loss }
    else if ltb 0 cooldown
    then record (rejected cooldown_active) { cooldown_remaining = some cooldown }
    else if is_exposed c trades
    then rejected exposure_reached
    else accepted

-- `RiskService.validate_trade`
unfoldable pub validate_risk :
    RiskSettings → ℕ → List RiskTrade → Option ℕ → SideName → Option ℤ → Option ℕ → RiskCheckResult
unfolding check_limits rejected
validate_risk c now trades market side size confidence = elim market [
  | none ↦ rejected market_id_required
  | some m ↦
      if not (is_valid_side side)
      then rejected (invalid_side side)
      else if not (has_size size)
      then rejected (invalid_size size)
      else check_limits c now trades m (size_of size) (get_or confidence 0)
]

pub data ValidationReason : Type 0 where
  by_risk : RiskReason → ValidationReason
  by_exposure : Verdict → ValidationReason

pub record ValidationResult : Type 0 where
  pub approved : Bool
  pub reasons : List ValidationReason
  pub risk_result : RiskCheckResult
  pub exposure_result : ExposureCheckResult

-- the reasons that are appended after a result
unfoldable pub risk_reasons : RiskCheckResult → List ValidationReason
risk_reasons r = elim r.reason [
  | none ↦ []
  | some why ↦ if r.approved then [] else by_risk why ∷ []
]

unfoldable pub exposure_reasons : ExposureCheckResult → List ValidationReason
exposure_reasons r = if r.approved then [] else by_exposure r.reason ∷ []

-- `ValidationEngine.validate_trade`, for a size that is not negative; `no_market` is the empty text, which
-- stands for a missing market in the guard
unfoldable pub validate_trade :
    RiskSettings
    → GuardSettings
    → ℕ
    → ℕ
    → List RiskTrade
    → Option ℕ
    → SideName
    → Option ℕ
    → Option ℕ
    → ℕ
    → ValidationResult
unfolding risk_reasons exposure_reasons
validate_trade c guard no_market now trades market side size confidence proposed_price =
    let signed : Option ℤ = elim size [ none ↦ none | some n ↦ some (pos n) ] in
    let risk = validate_risk c now trades market side signed confidence in
    let exposure =
      check_exposure guard (map (λ t. t.guarded) trades) (get_or market no_market) (get_or size 0)
        proposed_price in
    let reasons = risk_reasons risk ++ exposure_reasons exposure in
    record {
      approved = length reasons == 0;
      reasons = reasons;
      risk_result = risk;
      exposure_result = exposure;
    }
