-- ===== src/Exits/Engine.antt =====
-- The decisions and the counters of `ExitEngine` in backend/app/services/exit_engine.py.
use polymarket_agent.Common.{ℕ, ◌+◌, ◌==◌, Option, none, some, List, [], ◌∷◌, if◌then◌else◌}
use polymarket_agent.Exits.Model.{
  Number, Regime, ExitReason, ExitDecision, Evaluation, ExitTrade, Tables, ExitEngine, fill_price,
  get_outcome_price, detect_regime, sl_hit, tp_hit, check_max_holding_time, detect_regime_flip,
  detect_liquidity_collapse, detect_correlation_risk, decimal, float, stop_loss, take_profit,
  max_holding_time, regime_flip, liquidity_collapse, correlation_risk, trade_not_open,
  no_exit_triggered, exit, decides, type_error,
}

-- the tests of `evaluate` after the prices, in their order
unfoldable pub decide_exit : ℕ → Regime → ExitTrade → Tables → ℕ → ℕ → Number → ExitDecision
unfolding sl_hit tp_hit check_max_holding_time
decide_exit now regime t db fill latest exit_price =
    if sl_hit regime t.is_sell fill latest
    then exit stop_loss exit_price
    else if tp_hit regime t.is_sell fill latest
    then exit take_profit exit_price
    else if check_max_holding_time now t
    then exit max_holding_time exit_price
    else if detect_regime_flip regime t db.events
    then exit regime_flip exit_price
    else if detect_liquidity_collapse now t db.events
    then exit liquidity_collapse exit_price
    else if detect_correlation_risk t db.correlations
    then exit correlation_risk exit_price
    else no_exit_triggered

-- the subtraction of the fill price from the latest price, and what follows it
unfoldable pub with_prices : ℕ → Regime → ExitTrade → Tables → Number → Option ℕ → Evaluation
unfolding decide_exit
with_prices now regime t db (decimal n) none = decides (decide_exit now regime t db n n (decimal n))
with_prices now regime t db (float n) none = decides (decide_exit now regime t db n n (float n))
with_prices now regime t db (decimal n) (some p) = type_error
with_prices now regime t db (float n) (some p) = decides (decide_exit now regime t db n p (float p))

unfoldable pub reason_index : ExitReason → ℕ
reason_index stop_loss = 0
reason_index take_profit = 1
reason_index max_holding_time = 2
reason_index regime_flip = 3
reason_index liquidity_collapse = 4
reason_index correlation_risk = 5

unfoldable pub count_exit : ExitReason → ExitEngine → ExitEngine
unfolding reason_index
count_exit why s = record {
  forced_exit_count = s.forced_exit_count + 1;
  exits_by_reason = λ r.
      if reason_index r == reason_index why then s.exits_by_reason r + 1 else s.exits_by_reason r;
}

unfoldable pub counted : Evaluation → ExitEngine → ExitEngine
unfolding count_exit
counted (decides (exit why p)) s = count_exit why s
counted _ s = s

-- `evaluate`; `regime` is the entry of the state of the market
unfoldable pub evaluate :
    ℕ → Option Regime → Tables → ExitTrade → ExitEngine → Evaluation × ExitEngine
unfolding with_prices counted fill_price get_outcome_price detect_regime
evaluate now regime db t s =
    let latest = get_outcome_price t db.events in
    let result =
      if t.is_active
      then with_prices now (detect_regime regime) t db (fill_price t) latest
      else decides trade_not_open in
    (result, counted result s)

-- the list of a round, where a `TypeError` ends it
unfoldable pub after_evaluation :
    Evaluation
    → ExitEngine
    → Option (List ExitDecision) × ExitEngine
    → Option (List ExitDecision) × ExitEngine
after_evaluation type_error s rest = (none, s)
after_evaluation (decides d) s (none, s') = (none, s')
after_evaluation (decides d) s (some ds, s') = (some (d ∷ ds), s')

-- `evaluate_all_open` over the open and pending trades, without a state of the market; `none` is a
-- `TypeError`
unfoldable pub evaluate_all_open :
    ℕ → Tables → List ExitTrade → ExitEngine → Option (List ExitDecision) × ExitEngine
unfolding evaluate after_evaluation
evaluate_all_open now db [] s = (some [], s)
evaluate_all_open now db (t ∷ ts) s =
    let (result, s') = evaluate now none db t s in
    after_evaluation result s' (evaluate_all_open now db ts s')

-- `reset_stats`
unfoldable pub reset_stats : ExitEngine
reset_stats = record { forced_exit_count = 0; exits_by_reason = λ r. 0 }

-- `sum(self._exits_by_reason.values())` of `get_forced_exit_rate`
unfoldable pub total_exits : ExitEngine → ℕ
total_exits s =
    s.exits_by_reason stop_loss
    + s.exits_by_reason take_profit
    + s.exits_by_reason max_holding_time
    + s.exits_by_reason regime_flip
    + s.exits_by_reason liquidity_collapse
    + s.exits_by_reason correlation_risk
