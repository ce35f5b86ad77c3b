-- ===== src/Capital.antt =====
-- Whether capital may be put at risk: backend/app/services/capital (exposure_model.py, governor.py,
-- guard.py, policy.py, replay.py) and backend/app/domain/capital/models.py. Quantities and prices are in
-- units of the eighth decimal, so an amount of money is in units of the sixteenth; amounts are not
-- negative, and the context of `Decimal`, which rounds to 28 digits, is not modelled. SHA-256 over the
-- JSON text is an argument. The receipt of a simulation and the trace are read for their slot and intent.
pub mod Laws
use Prim.Native.Nat.{◌%◌}
use polymarket_agent.Common.{
  ℕ, zero, suc, ◌+◌, ◌*◌, ◌/◌, Bool, true, false, Option, none, some, not, ◌||◌, ◌&&◌, List, [],
  ◌∷◌, ◌++◌, ◌==◌, ltb, leb, if◌then◌else◌, any, is_some,
}

pub data ExposureState : Type 0 where
  low medium high reject : ExposureState

pub data CapitalDecision : Type 0 where
  allow limit block : CapitalDecision

pub data AssetClass : Type 0 where
  meme major other_class : AssetClass

pub data ReasonCode : Type 0 where
  emergency_stop position_limit daily_limit exposure_limit_total exposure_limit_asset : ReasonCode
  exposure_model_reject exposure_model_high capital_disabled : ReasonCode

-- one, as a price
abbrev pub one : ℕ
one = 100000000

-- a dollar, as an amount
abbrev pub dollar : ℕ
dollar = 10000000000000000

pub record CapitalPolicy : Type 0 where
  pub policy_version : ℕ
  pub max_position_size : ℕ
  pub max_daily_loss : ℕ
  pub max_total_exposure : ℕ
  pub max_asset_exposure : ℕ
  pub emergency_stop : Bool

-- The ratio is in ten-thousandths, the score in hundredths.
pub record ExposureReport : Type 0 where
  pub position_ratio : ℕ
  pub risk_score : ℕ
  pub exposure_state : ExposureState

is_odd : ℕ → Bool
is_odd n = n % 2 == 1

-- `quantize` of the fraction `a / b`: the nearest whole number, and the even one at a tie
unfoldable pub half_even : ℕ → ℕ → ℕ
unfolding is_odd
half_even a b =
    let q = a / b in let r = a % b in if ltb b (2 * r) || (2 * r == b && is_odd q) then q + 1 else q

-- in tenths
unfoldable pub risk_multiplier : AssetClass → ℕ
risk_multiplier meme = 20
risk_multiplier major = 8
risk_multiplier other_class = 10

unfoldable pub classify : ℕ → ℕ → ExposureState
classify risk_score position_ratio =
    if ltb 8000 risk_score || ltb 5000 position_ratio
    then reject
    else if ltb 5000 risk_score || ltb 3000 position_ratio
    then high
    else if ltb 2000 risk_score || ltb 1000 position_ratio
    then medium
    else low

-- `calculate_exposure`; the simulated risk is in tenths
unfoldable pub calculate_exposure : ℕ → ℕ → ℕ → AssetClass → ExposureReport
unfolding half_even risk_multiplier classify
calculate_exposure planned_position total_capital simulated_risk asset_class =
    let ratio = half_even (planned_position * 10000) total_capital in
    let score = half_even (ratio * simulated_risk * risk_multiplier asset_class) 10000 in
    let capped = if ltb 10000 score then 10000 else score in
    if total_capital == 0
    then record { position_ratio = 10000; risk_score = 10000; exposure_state = reject }
    else record {
      position_ratio = ratio;
      risk_score = capped;
      exposure_state = classify capped ratio;
    }

-- `get_active_policy`; 23 stands for the text of its version
unfoldable pub get_active_policy : CapitalPolicy
get_active_policy = record {
  policy_version = 23;
  max_position_size = 1000 * dollar;
  max_daily_loss = 500 * dollar;
  max_total_exposure = 5000 * dollar;
  max_asset_exposure = 2000 * dollar;
  emergency_stop = false;
}

pub record RiskSnapshot : Type 0 where
  pub planned_position : ℕ
  pub current_daily_loss : ℕ
  pub current_total_exposure : ℕ
  pub current_asset_exposure : ℕ
  pub exposure_report : ExposureReport
  pub policy : CapitalPolicy
  pub asset_class : AssetClass

pub record RiskReceipt : Type 0 where
  pub capital_decision : CapitalDecision
  pub policy_version : ℕ
  pub risk_snapshot : RiskSnapshot
  pub reason_codes : List ReasonCode
  pub created_slot : ℕ
  pub valid_until_slot : ℕ
  pub risk_hash : ℕ

-- the components of the hash, with the reasons sorted
pub record HashInput : Type 0 where
  pub policy_version : ℕ
  pub capital_decision : CapitalDecision
  pub risk_snapshot : RiskSnapshot
  pub reason_codes : List ReasonCode

-- the place of the text of a reason in the alphabet
unfoldable pub code_rank : ReasonCode → ℕ
code_rank capital_disabled = 0
code_rank daily_limit = 1
code_rank emergency_stop = 2
code_rank exposure_limit_asset = 3
code_rank exposure_limit_total = 4
code_rank exposure_model_high = 5
code_rank exposure_model_reject = 6
code_rank position_limit = 7

insert_code : ReasonCode → List ReasonCode → List ReasonCode
insert_code x [] = x ∷ []
insert_code x (y ∷ ys) =
    let rest = insert_code x ys in if leb (code_rank x) (code_rank y) then x ∷ y ∷ ys else y ∷ rest

-- `sorted(reason_codes)`
unfoldable pub sorted_codes : List ReasonCode → List ReasonCode
unfolding insert_code code_rank
sorted_codes [] = []
sorted_codes (x ∷ xs) = insert_code x (sorted_codes xs)

unfoldable pub is_block : CapitalDecision → Bool
is_block block = true
is_block _ = false

is_allow : CapitalDecision → Bool
is_allow allow = true
is_allow _ = false

-- What `evaluate_execution` is given besides the hash: the intent's quantity, price and class, the
-- amounts so far, and the slot of the simulation.
pub record Request : Type 0 where
  pub quantity : ℕ
  pub limit_price : Option ℕ
  pub asset_class : AssetClass
  pub current_daily_loss : ℕ
  pub current_total_exposure : ℕ
  pub current_asset_exposure : ℕ
  pub total_available_capital : ℕ
  pub slot : ℕ

-- `limit_price or Decimal("1")`
price_of : Option ℕ → ℕ
price_of none = one
price_of (some zero) = one
price_of (some (suc n)) = suc n

unfoldable pub planned_position_of : Request → ℕ
unfolding price_of
planned_position_of q = q.quantity * price_of q.limit_price

-- `if test: decision = BLOCK; reason_codes.append(code)`
block_if : Bool → ReasonCode → CapitalDecision × List ReasonCode → CapitalDecision × List ReasonCode
block_if test code (decision, codes) =
    if test then (block, codes ++ code ∷ []) else (decision, codes)

score : ExposureState → CapitalDecision × List ReasonCode → CapitalDecision × List ReasonCode
score reject (decision, codes) = (block, codes ++ exposure_model_reject ∷ [])
score high (decision, codes) =
    if is_allow decision then (limit, codes ++ exposure_model_high ∷ []) else (decision, codes)
score _ (decision, codes) = (decision, codes)

-- the decision and the reasons of `evaluate_execution`, in the order of its tests
unfoldable pub decide : CapitalPolicy → Request → ExposureState → CapitalDecision × List ReasonCode
unfolding block_if score is_allow
decide policy q exposure =
    let planned = planned_position_of q in
    score exposure (
      block_if (ltb policy.max_asset_exposure (q.current_asset_exposure + planned))
        exposure_limit_asset
        (block_if (ltb policy.max_total_exposure (q.current_total_exposure + planned))
          exposure_limit_total
          (block_if (ltb policy.max_daily_loss q.current_daily_loss) daily_limit (
            block_if (ltb policy.max_position_size planned) position_limit
              (block_if policy.emergency_stop emergency_stop (allow, []))))))

module _ (hash : HashInput → ℕ) where
  -- `RiskReceipt.calculate_hash`
  unfoldable pub calculate_hash : RiskReceipt → ℕ
  calculate_hash receipt = hash (record {
    policy_version = receipt.policy_version;
    capital_decision = receipt.capital_decision;
    risk_snapshot = receipt.risk_snapshot;
    reason_codes = sorted_codes receipt.reason_codes;
  })

  -- `RiskReceipt.verify`
  unfoldable pub verify : RiskReceipt → Bool
  unfolding calculate_hash
  verify receipt = receipt.risk_hash == calculate_hash receipt

  unfoldable pub with_hash : RiskReceipt → RiskReceipt
  with_hash receipt = record receipt { risk_hash = calculate_hash receipt }

  -- `CapitalGovernor.evaluate_execution`
  unfoldable pub evaluate_execution : CapitalPolicy → Request → RiskReceipt
  unfolding with_hash
  evaluate_execution policy q =
      let planned = planned_position_of q in
      let report = calculate_exposure planned q.total_available_capital 500 q.asset_class in
      let (decision, codes) = decide policy q report.exposure_state in
      with_hash (record {
        capital_decision = decision;
        policy_version = policy.policy_version;
        risk_snapshot = record {
          planned_position = planned;
          current_daily_loss = q.current_daily_loss;
          current_total_exposure = q.current_total_exposure;
          current_asset_exposure = q.current_asset_exposure;
          exposure_report = report;
          policy = policy;
          asset_class = q.asset_class;
        };
        reason_codes = codes;
        created_slot = q.slot;
        valid_until_slot = q.slot + 100;
        risk_hash = 0;
      })

  disabled_codes : List ReasonCode → List ReasonCode
  disabled_codes codes =
      if any (λ c. code_rank c == code_rank capital_disabled) codes
      then codes
      else codes ++ capital_disabled ∷ []

  -- `CapitalGuard.enforce`
  unfoldable pub enforce : Bool → RiskReceipt → RiskReceipt
  unfolding disabled_codes with_hash
  enforce capital_enabled receipt =
      if not capital_enabled && not (is_block receipt.capital_decision)
      then with_hash (record receipt {
        capital_decision = block;
        reason_codes = disabled_codes receipt.reason_codes;
      })
      else receipt

  -- `CapitalReplay.validate`
  unfoldable pub replay_validate : Option RiskReceipt → Bool
  unfolding verify
  replay_validate none = true
  replay_validate (some receipt) = verify receipt
