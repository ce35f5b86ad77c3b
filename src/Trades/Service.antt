-- ===== src/Trades/Service.antt =====
-- The operations of `TradeService` in backend/app/services/trade_service.py, and the session of a
-- request by `get_db` of backend/app/database.py.
use polymarket_agent.Common.{
  ℕ, ◌+◌, ◌/◌, ◌==◌, Bool, true, false, Option, none, some, not, ◌&&◌, ◌||◌, List, [], ◌∷◌, ◌++◌,
  ltb, leb, if◌then◌else◌, any, get_or, keep,
}
use polymarket_agent.Common.Int.{neg_part}
use polymarket_agent.Redis.{Redis}
use polymarket_agent.Risk.{Entry}
use polymarket_agent.Approval.{check_trade_approval}
use polymarket_agent.Safety.{ExecutionContext, validate}
use polymarket_agent.Execution.{
  Trade, External, ExchangeOrder, Settings, State, Result, ok, err, authorization, filled,
  partially_filled, create_trade_execution, close_trade_execution,
}
use polymarket_agent.Trades.Model.{
  TradeRow, TradeCreateRequest, TradeError, Outcome, Environment, Store, Service, ◌>>=◌, ◌>>◌,
  raise_if, write, if_market, is_active, holds, in_shadow, is_halted, trade_pending, trade_open,
  trade_closed, trade_cancelled, shadow_mode_active, emergency_stop_active, operator_kill_switch,
  state_store_failure, approval_raises, safety_check_failed, market_not_found, duplicate_position,
  micro_live_safety_mode, validation_failed, gate_blocked, execution_failed, trade_not_found,
  cannot_close, returned, raised,
}

-- `_check_micro_live_restrictions` finds a violation
unfoldable pub check_micro_live_restrictions : Environment → TradeCreateRequest → Bool
check_micro_live_restrictions env request =
    let other_agent : Bool = elim request.agent_id [
      | none ↦ false
      | some a ↦ not (a == env.crisis_reversion)
    ] in
    let too_dear : Bool = elim request.price [ none ↦ false | some p ↦ leb 20000000 p ] in
    other_agent
    || too_dear
    || leb 200 (neg_part env.live_daily_pnl)
    || leb 2 env.live_consecutive_losses

-- `ExecutionContext(...)` of `create_trade`. The gate takes cents: they are rounded up, which keeps
-- every comparison with a whole number of them.
unfoldable pub gate_context : TradeCreateRequest → ExecutionContext
gate_context request = record {
  position_size_eur = (request.size + 999999) / 1000000;
  portfolio_exposure = 0;
  drawdown = 0;
  regime_confidence = get_or request.confidence 0;
  drift_score = 0;
  stability_score = 500;
  risk_flags = [];
}

-- `min(request.size, allocation.size)`, at most 1 in micro-live mode
unfoldable pub adjusted_size : Environment → TradeCreateRequest → ℕ
adjusted_size env request =
    let allocated = env.allocation request in
    let size = if leb request.size allocated then request.size else allocated in
    if env.micro_live_safe_mode && ltb 100000000 size then 100000000 else size

unfoldable pub new_row : Environment → ℕ → TradeCreateRequest → TradeRow
unfolding adjusted_size
new_row env id request = record {
  trade = record {
    id = id;
    agent_id = request.agent_id;
    market_id = some request.market_id;
    trade_type = some env.trading_mode;
    side = request.side;
    size = adjusted_size env request;
    price = request.price;
  };
  outcome = request.outcome;
  status = trade_pending;
  entry_timestamp = none;
  exit_timestamp = none;
}

unfoldable pub approve : {S : Type 0} → Environment → TradeCreateRequest → Service S (Unit {0})
approve env request s =
    let (r, db) =
      check_trade_approval env.now (get_or request.agent_id env.unknown) request.size s.database in
    (
      elim r [
        | none ↦ raised approval_raises
        | some x ↦ if x.approved then returned tt else raised (safety_check_failed x.reasons)
      ],
      record s { database = db },
    )

unfoldable pub pass_gate : {S : Type 0} → Environment → TradeCreateRequest → Service S (Unit {0})
unfolding gate_context in_shadow
pass_gate env request s =
    let (d, g) = validate (in_shadow env) (gate_context request) s.gate in
    (if d.allowed then returned tt else raised (gate_blocked d.reason), record s { gate = g })

-- the part of `create_trade` before the row
unfoldable pub admit : {S : Type 0} → Environment → TradeCreateRequest → Service S (Unit {0})
unfolding in_shadow is_halted approve pass_gate holds check_micro_live_restrictions
admit env request = do
  raise_if (in_shadow env) shadow_mode_active
  stopped ← λ s. (returned s.emergency_stopped, s)
  raise_if stopped emergency_stop_active
  raise_if env.force_trading_disabled operator_kill_switch
  raise_if (is_halted env.remote_state) state_store_failure
  approve env request
  markets ← λ s. (returned s.markets, s)
  raise_if (not (any (λ m. m == request.market_id) markets)) market_not_found
  trades ← λ s. (returned s.trades, s)
  raise_if (any (holds request.market_id request.outcome) trades) duplicate_position
  raise_if (env.micro_live_safe_mode && check_micro_live_restrictions env request)
      micro_live_safety_mode
  raise_if (not (env.is_valid request)) validation_failed
  pass_gate env request

-- a change of the row with an id
unfoldable pub change_trade : (TradeRow → TradeRow) → ℕ → List TradeRow → List TradeRow
change_trade change id [] = []
change_trade change id (t ∷ ts) =
    let rest = change_trade change id ts in if t.trade.id == id then change t ∷ ts else t ∷ rest

unfoldable pub find_trade : ℕ → List TradeRow → Option TradeRow
find_trade id [] = none
find_trade id (t ∷ ts) = let rest = find_trade id ts in if t.trade.id == id then some t else rest

-- the first filled order of a trade
unfoldable pub filled_order : ℕ → List ExchangeOrder → Option ExchangeOrder
filled_order id [] = none
filled_order id (o ∷ os) =
    let rest = filled_order id os in
    let is_filled : Bool = elim o.status [ filled ↦ true | partially_filled ↦ true | _ ↦ false ] in
    if o.trade_id == id && is_filled then some o else rest

abbrev executed : {A : Type 0} → Result A → Outcome A
executed (ok a) = returned a
executed (err e) = raised (execution_failed e)

unfoldable pub cancel_active : List TradeRow → List TradeRow
unfolding is_active
cancel_active [] = []
cancel_active (t ∷ ts) =
    (if is_active t then record t { status = trade_cancelled } else t) ∷ cancel_active ts

-- `emergency_stop` and `resume`
unfoldable pub emergency_stop : {S : Type 0} → Store S → Store S
emergency_stop s = record s { emergency_stopped = true; trades = cancel_active s.trades }

unfoldable pub resume : {S : Type 0} → Store S → Store S
resume s = record s { emergency_stopped = false }

-- the `except` clauses of the loop of `close_all_positions`: a denied authorization is raised again
unfoldable pub is_raised_again : TradeError → Bool
is_raised_again (execution_failed (authorization why)) = true
is_raised_again _ = false

-- what the loop of `close_all_positions` does after a call of `close_trade`
unfoldable pub after :
    {S : Type 0} → Outcome ℕ → Store S → ℕ → (ℕ → Outcome ℕ × Store S) → Outcome ℕ × Store S
unfolding is_raised_again
after (returned x) s count rest = rest (count + 1)
after (raised e) s count rest = if is_raised_again e then (raised e, s) else rest count

-- `meanwhile` and `later` are as in `submit_intent`, and `planned` as in `create_trade_execution`.
module _ {S : Type 0} (r : Redis S Entry) (c : Settings) (meanwhile : State S → State S) (later : ℕ)
    (ext : External) (env : Environment) where
  -- the execution of a market order
  unfoldable pub execute : Bool → Trade → Service S (Unit {0})
  execute planned trade s =
      let (outcome, e) =
        create_trade_execution r c env.now meanwhile later ext planned trade s.execution in
      (
        elim outcome [ ok x ↦ returned tt | err e ↦ raised (execution_failed e) ],
        record s { execution = e },
      )

  -- `create_trade`; `id` is the id of the new row
  unfoldable pub create_trade : Bool → ℕ → TradeCreateRequest → Service S ℕ
  unfolding admit new_row change_trade execute
  create_trade planned id request =
      let row = new_row env id request in
      let opened : TradeRow → TradeRow =
        λ t. record t { status = trade_open; entry_timestamp = some env.now } in
      do
        admit env request
        write (λ s. record s { trades = s.trades ++ row ∷ [] })
        if_market request.is_market_order (do
          execute planned row.trade
          write (λ s. record s { trades = change_trade opened id s.trades }))
        λ s. (returned id, s)

  -- `close_trade`
  unfoldable pub close_trade : ℕ → Option ℕ → Service S ℕ
  unfolding find_trade is_active change_trade filled_order
  close_trade id exit_price s = elim (find_trade id s.trades) [
    | none ↦ (raised trade_not_found, s)
    | some t ↦
        let (outcome, e) =
          close_trade_execution r c env.now meanwhile later ext (filled_order id s.execution.orders)
            exit_price t.trade s.execution in
        let closed : TradeRow → TradeRow =
          λ t. record t { status = trade_closed; exit_timestamp = some env.now } in
        if not (is_active t) then (raised cannot_close, s) else elim outcome [
          | ok x ↦
              (returned id, record s { execution = e; trades = change_trade closed id s.trades })
          | err why ↦ (raised (execution_failed why), record s { execution = e })
        ]
  ]

  -- the loop of `close_all_positions`
  unfoldable pub close_each : List TradeRow → ℕ → Service S ℕ
  unfolding close_trade after
  close_each [] count s = (returned count, s)
  close_each (t ∷ ts) count s =
      let (outcome, s') = close_trade t.trade.id none s in
      after outcome s' count (λ n. close_each ts n s')

  -- `close_all_positions`
  unfoldable pub close_all_positions : Service S ℕ
  unfolding close_each is_active
  close_all_positions s = close_each (keep is_active s.trades) 0 s

-- The session of a request, `get_db`: what was written to the tables is rolled back on an exception. The
-- flag is that of a service of the request's own, and nothing undoes what was sent.
unfoldable pub in_session : {S A : Type 0} → Service S A → Service S A
in_session m s =
    let (outcome, s') = m (record s { emergency_stopped = false }) in
    elim outcome [
      | returned a ↦ (returned a, s')
      | raised e ↦ (
        raised e,
        record s' {
          trades = s.trades;
          database = s.database;
          execution = record s'.execution { orders = s.execution.orders };
        },
      )
    ]
