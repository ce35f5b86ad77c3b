-- ===== src/Tests/Trades.antt =====
-- Requests of backend/app/services/trade_service.py at a concrete store.
use polymarket_agent.Common.{
  List, ◌≡◌, ◌≢◌, ◌⊎◌, ◌≤◌, ℕ, refl, true, false, some, none, [], ◌∷◌, arith, get_or, length, All,
}
use polymarket_agent.Common.Int.{pos}
use polymarket_agent.Capability.{paper}
use polymarket_agent.Execution.{buy, create_from_trade, order_for}
use polymarket_agent.Safety.{reset_metrics}
use polymarket_agent.Trades.Model.{
  Environment, Store, TradeCreateRequest, no_state, returned, is_active,
}
use polymarket_agent.Trades.Service.{
  new_row, create_trade, close_all_positions, emergency_stop, in_session,
}
use polymarket_agent.Trades.Laws.{IsAdmitted, create_trade_admits}
use polymarket_agent.Trades.Stopped.{
  Call, creates, closes, closes_all, IsRefused, do_calls, do_calls-emergency_stop,
}
use polymarket_agent.Trades.Requests.{
  IsUnique, IsNothing, create_trade-IsUnique, close_all_positions_none, in_session-create_trade,
}
use polymarket_agent.Approval.{
  check_trade_approval, decide, consecutive_losses, check_stale_data, get_state, max_open_positions,
  max_total_exposure, update_safety_state,
}
use polymarket_agent.Portfolio.{upsert_from_fill, is_open, new_position}
use polymarket_agent.Safety.{validate, reasons_of, flag_reasons, evaluate}
use polymarket_agent.Execution.{
  create_trade_execution, check_safety, submit_intent, validate_capabilities, has_adapter,
  intent_to_order, same_key, kill_switch_recheck,
}
use polymarket_agent.Governance.{authorize_execution}
use polymarket_agent.Control.{is_trading_enabled, is_strategy_paused, is_market_paused}
use polymarket_agent.Risk.{get_active}
use polymarket_agent.Capability.{validate_intent, resolve}
use polymarket_agent.Tests.Approval.{database}
use polymarket_agent.Tests.Risk.{memory}
use polymarket_agent.Tests.Execution.{settings, start, wait, filling}

abbrev environment : Environment
environment = record {
  now = 1000;
  manager = none;
  force_trading_disabled = false;
  micro_live_safe_mode = false;
  trading_mode = paper;
  remote_state = no_state;
  unknown = 0;
  crisis_reversion = 1;
  live_daily_pnl = pos 0;
  live_consecutive_losses = 0;
  is_valid = λ request. true;
  allocation = λ request. 500000000;
}

abbrev request : TradeCreateRequest
request = record {
  market_id = 3;
  side = buy;
  outcome = 1;
  is_market_order = true;
  size = 200000000;
  confidence = some 8000;
  price = none;
  agent_id = some 1;
}

abbrev store : Store (Unit {0})
store = record {
  emergency_stopped = false;
  markets = 3 ∷ [];
  trades = [];
  database = database;
  execution = start;
  gate = reset_metrics;
}

create_trade_admits_example :
    let (outcome, s') =
      create_trade (memory true) settings wait 2000 filling environment true 8 request store in
    ((s'.trades ≡ []) × (outcome ≢ returned 8))
    ⊎ ((s'.trades ≡ new_row environment 8 request ∷ [])
        × IsAdmitted environment request store
        × (200000000 ≤ 1000000000)
        × (6000 ≤ 8000)
        × (true ≡ true → outcome ≢ returned 8)
        × (true ≡ false → outcome ≡ returned 8))
create_trade_admits_example =
    create_trade_admits (memory true) settings wait 2000 filling environment (λ t. refl) true 8
      request store

unique : IsUnique store.trades
unique market outcome = omega arith

create_trade-IsUnique_example :
    IsUnique
      (create_trade
        (memory true)
        settings
        wait
        2000
        filling
        environment
        true
        8
        request
        store).1.trades
create_trade-IsUnique_example =
    create_trade-IsUnique (memory true) settings wait 2000 filling environment (λ t. refl) true 8
      request store unique

abbrev holding : Store (Unit {0})
holding = record store { trades = new_row environment 8 request ∷ [] }

close_all_positions_none_example :
    IsNothing holding 0
      (close_all_positions (memory true) settings wait 2000 filling environment holding)
close_all_positions_none_example =
    close_all_positions_none (memory true) settings wait 2000 filling environment (λ t. refl)
      holding

in_session-create_trade_example :
    let (outcome, s') =
      in_session
        (create_trade (memory true) settings wait 2000 filling environment true 8 request)
        store in
    let trade = (new_row environment 8 request).trade in
    let intent = create_from_trade trade (get_or trade.trade_type paper) none none none in
    ((x : ℕ) → outcome ≢ returned x)
    × (s'.trades ≡ [])
    × (s'.execution.orders ≡ [])
    × ((s'.execution.sent ≡ []) ⊎ (s'.execution.sent ≡ order_for 2000 intent 8 ∷ []))
in_session-create_trade_example =
    in_session-create_trade (memory true) settings wait 2000 filling environment (λ t. refl) true 8
      request store refl

-- another try, a close and all closes after the stop
abbrev calls : List Call
calls =
    creates 2000 filling environment true 8 request
    ∷ closes 2000 filling environment 5 none
    ∷ closes_all 2000 filling environment
    ∷ creates 2000 filling environment true 9 request
    ∷ []

do_calls-emergency_stop_example :
    let stopped = emergency_stop holding in
    let (results, s') = do_calls (memory true) settings wait calls stopped in
    All (λ t. is_active t ≡ false) stopped.trades
    × All IsRefused results
    × (s'.trades ≡ stopped.trades)
    × (s'.emergency_stopped ≡ true)
do_calls-emergency_stop_example =
    do_calls-emergency_stop (memory true) settings wait (λ t. refl) calls holding

-- The order is sent, the request fails, and neither the trade nor the order is kept.
sent_and_rolled_back :
    let s' =
      (in_session
        (create_trade (memory true) settings wait 2000 filling environment true 8 request)
        store).1 in
    (length s'.execution.sent ≡ 1) × (s'.execution.orders ≡ []) × (s'.trades ≡ [])
unfolding in_session create_trade check_trade_approval upsert_from_fill is_open validate reasons_of
    flag_reasons create_trade_execution check_safety authorize_execution is_trading_enabled
    is_strategy_paused is_market_paused get_active submit_intent validate_capabilities
    validate_intent resolve decide consecutive_losses check_stale_data get_state max_open_positions
    max_total_exposure update_safety_state has_adapter intent_to_order same_key kill_switch_recheck
    order_for reset_metrics new_position evaluate
sent_and_rolled_back = (refl, refl, refl)
