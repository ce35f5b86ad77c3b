-- ===== src/Alerts/Rules.antt =====
-- The rules of backend/app/services/alerts/rules.py, each with what it makes of a context.
use polymarket_agent.Common.{
  ℕ, Bool, true, false, Option, none, some, ◌&&◌, List, [], ◌∷◌, ◌++◌, ltb, leb, if◌then◌else◌,
  get_or,
}

pub data Severity : Type 0 where
  info warning critical : Severity

pub data OrderState : Type 0 where
  pending_order submitted_order other_state : OrderState

-- An entry of `ctx["active_orders"]`, by its keys.
pub record ActiveOrder : Type 0 where
  pub order_id : Option ℕ
  pub age_seconds : Option ℕ
  pub status : Option OrderState
  pub retry_count : Option ℕ

-- An entry of `ctx["recent_fills"]`.
pub record RecentFill : Type 0 where
  pub fill_id : Option ℕ
  pub latency_ms : Option ℕ

-- The context of an evaluation, by the keys that the rules read; of a result in `drift_alerts` it has the
-- `entity_id`.
pub record Context : Type 0 where
  pub active_orders : List ActiveOrder
  pub recent_fills : List RecentFill
  pub total_exposure : Option ℕ
  pub exposure_limit : Option ℕ
  pub drawdown : Option ℕ
  pub drawdown_limit : Option ℕ
  pub concentration_pct : Option ℕ
  pub concentration_limit : Option ℕ
  pub mismatch_detected : Bool
  pub drift_alerts : List (Option ℕ)
  pub snapshot_age_seconds : Option ℕ

-- An `AlertRule`; its `evaluate` gives the `entity_id` of each result, or raises, which is `none`.
pub record AlertRule : Type 0 where
  pub name : ℕ
  pub severity : Severity
  pub cooldown_seconds : ℕ
  pub evaluate : Context → Option (List (Option ℕ))

-- the entities that are no ids, and "unknown"
abbrev pub portfolio : ℕ
portfolio = 0

abbrev pub reconciliation : ℕ
reconciliation = 1

abbrev pub unknown : ℕ
unknown = 2

-- the results for the orders that meet a test; an order without an id raises a `KeyError`
unfoldable pub order_results : (ActiveOrder → Bool) → List ActiveOrder → Option (List (Option ℕ))
order_results test [] = some []
order_results test (o ∷ os) =
    let rest = order_results test os in
    if test o
    then elim o.order_id [
      | none ↦ none
      | some id ↦ elim rest [ none ↦ none | some ids ↦ some (some id ∷ ids) ]
    ]
    else rest

unfoldable pub is_stuck : ActiveOrder → Bool
is_stuck o =
    let is_waiting : Bool = elim o.status [
      | none ↦ false
      | some s ↦ elim s [ pending_order ↦ true | submitted_order ↦ true | other_state ↦ false ]
    ] in
    ltb 300 (get_or o.age_seconds 0) && is_waiting

unfoldable pub explodes : ActiveOrder → Bool
explodes o = leb 3 (get_or o.retry_count 0)

unfoldable pub slow_fills : List RecentFill → List (Option ℕ)
slow_fills [] = []
slow_fills (f ∷ fs) =
    let rest = slow_fills fs in
    if ltb 5000 (get_or f.latency_ms 0) then some (get_or f.fill_id unknown) ∷ rest else rest

-- one result for an entity where a test holds
abbrev result_if : Bool → ℕ → Option (List (Option ℕ))
result_if test entity = some (if test then some entity ∷ [] else [])

unfoldable pub exceeds_limit : Context → Bool
exceeds_limit ctx = elim ctx.exposure_limit [
  | none ↦ false
  | some limit ↦ ltb limit (get_or ctx.total_exposure 0)
]

abbrev pub rule : ℕ → Severity → ℕ → (Context → Option (List (Option ℕ))) → AlertRule
rule name severity cooldown evaluate = record {
  name = name;
  severity = severity;
  cooldown_seconds = cooldown;
  evaluate = evaluate;
}

-- `EXECUTION_RULES`
unfoldable pub execution_rules : List AlertRule
unfolding order_results is_stuck explodes slow_fills
execution_rules =
    rule 0 warning 300 (λ ctx. order_results is_stuck ctx.active_orders)
    ∷ rule 1 warning 300 (λ ctx. some (slow_fills ctx.recent_fills))
    ∷ rule 2 critical 120 (λ ctx. order_results explodes ctx.active_orders)
    ∷ []

-- `RISK_RULES`
unfoldable pub risk_rules : List AlertRule
unfolding exceeds_limit
risk_rules =
    rule 3 warning 300 (λ ctx. result_if (exceeds_limit ctx) portfolio)
    ∷ rule 4 critical 300
        (λ ctx. result_if (ltb (get_or ctx.drawdown_limit 100) (get_or ctx.drawdown 0)) portfolio)
    ∷ rule 5 warning 600 (λ ctx.
      result_if (ltb (get_or ctx.concentration_limit 3000) (get_or ctx.concentration_pct 0))
        portfolio)
    ∷ []

-- `SYSTEM_RULES`
unfoldable pub system_rules : List AlertRule
system_rules =
    rule 6 critical 600 (λ ctx. result_if ctx.mismatch_detected reconciliation)
    ∷ rule 7 warning 300 (λ ctx. some ctx.drift_alerts)
    ∷ rule 8 info 600 (λ ctx. result_if (ltb 3600 (get_or ctx.snapshot_age_seconds 0)) portfolio)
    ∷ []

-- `build_all_rules`
unfoldable pub build_all_rules : List AlertRule
unfolding execution_rules risk_rules system_rules
build_all_rules = execution_rules ++ risk_rules ++ system_rules

-- The event that `process_fill` of backend/app/services/execution/fill_handler.py evaluates: that of
-- `normalize_fill_event`, whose keys are type, timestamp, entity_type, entity_id, channel and payload.
unfoldable pub normalize_fill_event : Context
normalize_fill_event = record {
  active_orders = [];
  recent_fills = [];
  total_exposure = none;
  exposure_limit = none;
  drawdown = none;
  drawdown_limit = none;
  concentration_pct = none;
  concentration_limit = none;
  mismatch_detected = false;
  drift_alerts = [];
  snapshot_age_seconds = none;
}
