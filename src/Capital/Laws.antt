-- ===== src/Capital/Laws.antt =====
-- What backend/app/services/capital decides.
use polymarket_agent.Common.{◌≡◌, ◌≢◌, ◌↔◌, ◌≤◌, ◌<◌, ◌+◌, ◌*◌, ℕ, true, false, [], arith, Bool}
use polymarket_agent.Capital.{
  ExposureState, low, medium, reject, high, allow, limit, block, CapitalPolicy, AssetClass, Request,
  RiskReceipt, HashInput, half_even, calculate_exposure, planned_position_of, decide,
  calculate_hash, verify, evaluate_execution, enforce, is_block, dollar, get_active_policy,
  classify,
}

-- The rounded quotient is within a half of the exact one.
pub half_even_bounds :
    (a b : ℕ)
    → 0 < b
    → (2 * (half_even a b * b) ≤ 2 * a + b) × (2 * a ≤ 2 * (half_even a b * b) + b)
unfolding half_even
half_even_bounds a b h = grind arith

-- The limits of a policy, for the position that an execution adds.
pub record IsWithin (policy : CapitalPolicy) (q : Request) : Type 0 where
  pub running : policy.emergency_stop ≡ false
  pub position : planned_position_of q ≤ policy.max_position_size
  pub loss : q.current_daily_loss ≤ policy.max_daily_loss
  pub total : q.current_total_exposure + planned_position_of q ≤ policy.max_total_exposure
  pub asset : q.current_asset_exposure + planned_position_of q ≤ policy.max_asset_exposure

abbrev pub IsMild : ExposureState → Type 0
IsMild low = Unit
IsMild medium = Unit
IsMild high = ⊥
IsMild reject = ⊥

abbrev pub state_of : Request → ExposureState
state_of q =
    (calculate_exposure (planned_position_of q) q.total_available_capital 500
      q.asset_class).exposure_state

ratio_bound : (h a b : ℕ) → h ≤ 5000 → 2 * a ≤ 2 * (h * b) + b → 2 * a ≤ 10001 * b
ratio_bound h a b p q = grind arith

accepted_ratio :
    (planned capital : ℕ) (asset_class : AssetClass)
    → let report = calculate_exposure planned capital 500 asset_class in
      report.exposure_state ≢ reject → (0 < capital) × (20000 * planned ≤ 10001 * capital)
unfolding calculate_exposure classify
accepted_ratio planned capital asset_class h =
    let ratio = half_even (planned * 10000) capital in
    ground (
      arith,
      half_even_bounds (planned * 10000) capital,
      ratio_bound ratio (planned * 10000) capital,
    )

module _ (hash : HashInput → ℕ) where
  -- An execution is allowed exactly when every limit of the policy holds and its exposure is low or
  -- medium, it is limited exactly when they hold and its exposure is high, and it is given a reason
  -- exactly when it is not allowed.
  evaluate_execution_decision :
      (policy : CapitalPolicy) (q : Request)
      → let receipt = evaluate_execution hash policy q in
        ((receipt.capital_decision ≡ allow) ↔ (IsWithin policy q × IsMild (state_of q)))
        × ((receipt.capital_decision ≡ limit) ↔ (IsWithin policy q × (state_of q ≡ high)))
        × ((receipt.capital_decision ≡ allow) ↔ (receipt.reason_codes ≡ []))
  unfolding evaluate_execution decide
  evaluate_execution_decision policy q = (
    (λ h. ground arith, λ h. ground arith),
    (λ h. ground arith, λ h. ground arith),
    (λ h. ground arith, λ h. ground arith),
  )

  -- Under the active policy an execution that is not blocked adds at most 1,000 dollars, leaves the
  -- total exposure at no more than 5,000, that of the asset at no more than 2,000, follows a loss
  -- of no more than 500 on the day, and takes no more than 50.005 percent of the capital, which is
  -- positive.
  pub evaluate_execution_bounds :
      (q : Request)
      → let receipt = evaluate_execution hash get_active_policy q in
        receipt.capital_decision ≢ block
        → (planned_position_of q ≤ 1000 * dollar)
          × (q.current_total_exposure + planned_position_of q ≤ 5000 * dollar)
          × (q.current_asset_exposure + planned_position_of q ≤ 2000 * dollar)
          × (q.current_daily_loss ≤ 500 * dollar)
          × (0 < q.total_available_capital)
          × (20000 * planned_position_of q ≤ 10001 * q.total_available_capital)
  unfolding evaluate_execution decide get_active_policy
  evaluate_execution_bounds q h =
      let k = accepted_ratio (planned_position_of q) q.total_available_capital q.asset_class in
      ground arith

  -- Every receipt that the governor writes passes `verify`, and so does what the guard makes of a
  -- receipt that passes it; with capital disabled the guard leaves none that is not blocked, and
  -- with capital enabled it changes nothing.
  pub enforce-verify :
      (policy : CapitalPolicy) (q : Request) (receipt : RiskReceipt) (enabled : Bool)
      → verify hash receipt ≡ true
      → (verify hash (evaluate_execution hash policy q) ≡ true)
        × (verify hash (enforce hash enabled receipt) ≡ true)
        × ((enforce hash false receipt).capital_decision ≡ block)
        × (enforce hash true receipt ≡ receipt)
  unfolding evaluate_execution enforce verify calculate_hash is_block
  enforce-verify policy q receipt enabled v = ground arith
