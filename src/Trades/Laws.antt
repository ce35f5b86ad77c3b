-- ===== src/Trades/Laws.antt =====
-- What `create_trade`, `close_trade` and `close_all_positions` of
-- backend/app/services/trade_service.py do, with the execution service behind them.
use polymarket_agent.Common.{
  Option-cases, inl, inr, ◌≡◌, ◌≢◌, ◌≤◌, ◌⊎◌, ℕ, Bool, true, false, Option, none, refl, [], ◌∷◌,
  ◌++◌, arith, any, get_or, ◌==◌,
}
use polymarket_agent.Redis.{Redis}
use polymarket_agent.Risk.{Entry}
use polymarket_agent.Approval.{check_trade_approval, is_approved}
use polymarket_agent.Safety.{validate, reasons_of}
use polymarket_agent.Execution.{
  State, Settings, External, Result, ExecutionError, failed, create_trade_execution,
  close_trade_execution, Trade, ExecutionResult, ok, err, create_from_trade, order_for,
}
use polymarket_agent.Capability.{paper}
use polymarket_agent.Execution.Laws.{create_trade_execution_err, close_trade_execution_err}
use polymarket_agent.Trades.Model.{
  Environment, Store, TradeCreateRequest, returned, holds, in_shadow, is_halted,
}
use polymarket_agent.Trades.Service.{
  new_row, admit, execute, create_trade, close_trade, gate_context, approve, pass_gate, find_trade,
  filled_order,
}

-- what `admit` found, where it did not raise
abbrev pub IsAdmitted : {S : Type 0} → Environment → TradeCreateRequest → Store S → Type 0
IsAdmitted env request s =
    (in_shadow env ≡ false)
    × (s.emergency_stopped ≡ false)
    × (env.force_trading_disabled ≡ false)
    × (is_halted env.remote_state ≡ false)
    × (is_approved
          (check_trade_approval env.now (get_or request.agent_id env.unknown) request.size
            s.database).0
        ≡ true)
    × (any (λ m. m == request.market_id) s.markets ≡ true)
    × (any (holds request.market_id request.outcome) s.trades ≡ false)
    × (env.is_valid request ≡ true)

pass_gate_limits :
    {S : Type 0} (env : Environment) (request : TradeCreateRequest) (s : Store S)
    → (pass_gate env request s).0 ≡ returned tt
    → (request.size ≤ 1000000000) × (6000 ≤ get_or request.confidence 0)
unfolding pass_gate gate_context validate reasons_of
pass_gate_limits env request s h = ground arith

pass_gate_state :
    {S : Type 0} (env : Environment) (request : TradeCreateRequest) (s : Store S)
    → (pass_gate env request s).1 ≡ record s { gate = (pass_gate env request s).1.gate }
unfolding pass_gate
pass_gate_state env request s = ground arith

pub admit_state :
    {S : Type 0} (env : Environment) (request : TradeCreateRequest) (s : Store S)
    → let s' = (admit env request s).1 in
      (s'.trades ≡ s.trades)
      × (s'.execution ≡ s.execution)
      × (s'.emergency_stopped ≡ s.emergency_stopped)
      × (s'.markets ≡ s.markets)
unfolding admit approve
admit_state env request s = ground (arith)

admit_ok :
    {S : Type 0} (env : Environment) (request : TradeCreateRequest) (s : Store S)
    → (admit env request s).0 ≡ returned tt
    → IsAdmitted env request s
unfolding admit approve
admit_ok env request s h = ground arith

admit_limits :
    {S : Type 0} (env : Environment) (request : TradeCreateRequest) (s : Store S)
    → (admit env request s).0 ≡ returned tt
    → (request.size ≤ 1000000000) × (6000 ≤ get_or request.confidence 0)
unfolding admit
admit_limits env request s h =
    ground (arith, pass_gate_limits env request (approve env request s).1)

not_ok :
    (o : Result ExecutionResult)
    → ((x : ExecutionResult) → o ≢ ok x)
    → (why : ExecutionError) × (o ≡ err why)
not_ok (ok x) h = absurd (h x refl)
not_ok (err why) h = (why, refl)

module _ {S : Type 0} (r : Redis S Entry) (c : Settings) (meanwhile : State S → State S) (later : ℕ)
    (ext : External) (env : Environment) where
  module _ (w : (t : State S) → (meanwhile t).sent ≡ t.sent) where
    pub execute_err :
        (planned : Bool) (trade : Trade) (s : Store S)
        → let (outcome, s') = execute r c meanwhile later ext env planned trade s in
          let intent = create_from_trade trade (get_or trade.trade_type paper) none none none in
          let sent = s.execution.sent in
          (outcome ≢ returned tt)
          × (s'.trades ≡ s.trades)
          × ((s'.execution.sent ≡ sent)
              ⊎ (s'.execution.sent ≡ sent ++ order_for later intent trade.id ∷ []))
    unfolding execute
    execute_err planned trade s =
        let e = λ (x : ExecutionResult).
          create_trade_execution_err r c env.now later meanwhile ext planned trade s.execution x
            w in
        let o = create_trade_execution r c env.now meanwhile later ext planned trade s.execution in
        ground
          (arith, not_ok o.0 (λ x. (e x).0), (e (record { adapter = paper; status = failed })).1)

    pub close_trade_err :
        (id : ℕ) (exit_price : Option ℕ) (s : Store S)
        → let (outcome, s') = close_trade r c meanwhile later ext env id exit_price s in
          ((x : ℕ) → outcome ≢ returned x)
          × (s'.trades ≡ s.trades)
          × (s'.execution.sent ≡ s.execution.sent)
    unfolding close_trade
    close_trade_err id exit_price s = elim (Option-cases (find_trade id s.trades)) [
      | inl e ↦ ground arith
      | inr (t, e) ↦
          let order = filled_order id s.execution.orders in
          let o =
            close_trade_execution r c env.now meanwhile later ext order exit_price t.trade
              s.execution in
          let f = λ (x : ExecutionResult).
            close_trade_execution_err r c env.now later meanwhile ext order exit_price t.trade
              s.execution x w in
          ground
            (arith, not_ok o.0 (λ x. (f x).0), (f (record { adapter = paper; status = failed })).1)
    ]

    -- `create_trade` adds nothing to the table, or one pending row for the request. It adds one only if no
    -- shadow mode and no stop is on, the remote state could be read and allows trading, the approval
    -- and the validation agree, the market exists and has no open or pending trade on the outcome,
    -- the size is at most 10 and the confidence at least 0.6; a market order then raises all the same,
    -- provided that other tasks do not touch the list of sent orders.
    pub create_trade_admits :
        (planned : Bool) (id : ℕ) (request : TradeCreateRequest) (s : Store S)
        → let (outcome, s') = create_trade r c meanwhile later ext env planned id request s in
          ((s'.trades ≡ s.trades) × (outcome ≢ returned id))
          ⊎ ((s'.trades ≡ s.trades ++ new_row env id request ∷ [])
              × IsAdmitted env request s
              × (request.size ≤ 1000000000)
              × (6000 ≤ get_or request.confidence 0)
              × (request.is_market_order ≡ true → outcome ≢ returned id)
              × (request.is_market_order ≡ false → outcome ≡ returned id))
    unfolding create_trade
    create_trade_admits planned id request s =
        let s' = (admit env request s).1 in
        let row = new_row env id request in
        let s'' = record s' { trades = s'.trades ++ row ∷ [] } in
        ground (
          arith,
          admit_state env request s,
          admit_ok env request s,
          admit_limits env request s,
          execute_err planned row.trade s'',
        )
