-- ===== src/Tests/Execution.antt =====
-- Submissions of backend/app/services/execution/execution_service.py at concrete states.
use polymarket_agent.Common.{◌≡◌, ◌≢◌, ◌⊎◌, refl, true, false, none, some, [], ◌∷◌, ◌++◌, any}
use polymarket_agent.Governance.{simulation, live, authorize_execution}
use polymarket_agent.Redis.{str}
use polymarket_agent.Control.{is_trading_enabled, is_market_paused}
use polymarket_agent.Risk.{get_active}
use polymarket_agent.Capability.{paper, is_valid, validate_intent, resolve}
use polymarket_agent.Execution.{
  Settings, State, buy, filled, Trade, ExecutionIntent, ExchangeOrder, External, returns, ok, err,
  name_error, global_trading_disabled, kill_switch_engaged, check_safety, kill_switch_recheck,
  validate_capabilities, has_adapter, submit_intent, create_trade_execution, derived, order_for,
  intent_to_order, same_key, same_trade,
}
use polymarket_agent.Execution.Laws.{submit_intent_ok, submit_intent_sent}
use polymarket_agent.Execution.Gaps.{kill_switch_online}
use polymarket_agent.Tests.Risk.{memory, memory-IsDecoding, world}

abbrev pub settings : Settings
settings = record {
  governor_mode = simulation;
  execution_mode = simulation;
  strict_live_enabled = false;
}

abbrev live_settings : Settings
live_settings = record settings { governor_mode = live; execution_mode = live }

abbrev pub start : State (Unit {0})
start = record { world = world; breakers = []; orders = []; sent = []; blocked = [] }

abbrev paused : State (Unit {0})
paused = record start {
  world = record world { plane = record world.plane { paused_markets = 3 ∷ [] } };
}

abbrev trade : Trade
trade = record {
  id = 8;
  agent_id = none;
  market_id = some 3;
  trade_type = none;
  side = buy;
  size = 100;
  price = none;
}

abbrev intent : ExecutionIntent
intent = record {
  venue = paper;
  symbol = some 3;
  side = buy;
  quantity = 100;
  limit_price = none;
  trade_id = some 8;
  supplied_key = none;
  has_plan = true;
}

abbrev pub filling : External
filling = record {
  adapter = λ order. returns (record { adapter = paper; status = filled });
  dumps = λ intent. true;
}

abbrev pub wait : State (Unit {0}) → State (Unit {0})
wait s = s

submits :
    (submit_intent (memory true) settings 1000 wait 2000 filling intent start).0
    ≡ ok (record { adapter = paper; status = filled })
unfolding submit_intent validate_capabilities check_safety kill_switch_recheck intent_to_order
    order_for has_adapter authorize_execution is_trading_enabled get_active validate_intent resolve
    same_key
submits = refl

-- The order is sent, and the call raises.
sent_then_raises :
    let (outcome, s) =
      create_trade_execution (memory true) settings 1000 wait 2000 filling true trade start in
    (outcome ≡ err name_error) × (s.sent ≡ order_for 2000 intent 8 ∷ [])
unfolding create_trade_execution submit_intent validate_capabilities check_safety
    kill_switch_recheck intent_to_order order_for has_adapter authorize_execution is_trading_enabled
    is_market_paused get_active validate_intent resolve same_key
sent_then_raises = (refl, refl)

keeps_sent : (wait (check_safety (memory true) settings 1000 none start).1).sent ≡ start.sent
unfolding check_safety authorize_execution is_trading_enabled get_active
keeps_sent = refl

submit_intent_sent_example :
    let s' = (submit_intent (memory true) settings 1000 wait 2000 filling intent start).1 in
    let held = wait (check_safety (memory true) settings 1000 none start).1 in
    let order = order_for 2000 intent 8 in
    (s'.sent ≡ start.sent)
    ⊎ ((s'.sent ≡ start.sent ++ order ∷ [])
        × (s'.orders ≡ held.orders ++ order ∷ [])
        × (any (same_key order) held.orders ≡ false)
        × (any (same_trade order) held.orders ≡ false)
        × (is_trading_enabled (memory true) held.world.plane ≡ true)
        × ((get_active (memory true) held.world.plane.redis 2000 held.breakers).0 ≡ []))
submit_intent_sent_example =
    submit_intent_sent (memory true) settings 1000 2000 wait filling intent 8 start refl keeps_sent

submit_intent_ok_example :
    let held = wait (check_safety (memory true) settings 1000 none start).1 in
    (authorize_execution simulation ≡ none)
    × (is_valid (validate_intent (resolve paper)) ≡ true)
    × (has_adapter paper ≡ true)
    × (intent.has_plan ≡ true)
    × (filling.dumps intent ≡ true)
    × (is_trading_enabled (memory true) held.world.plane ≡ true)
    × ((get_active (memory true) held.world.plane.redis 2000 held.breakers).0 ≡ [])
submit_intent_ok_example =
    submit_intent_ok (memory true) settings 1000 2000 wait filling intent start
      (record { adapter = paper; status = filled }) submits

abbrev original : ExchangeOrder
original = record {
  trade_id = 8;
  engine_type = paper;
  status = filled;
  side = buy;
  size = 100;
  price = none;
  idempotency_key = derived 8 1;
  filled_size = 100;
  filled_price = none;
}

market_3_paused : is_market_paused (memory true) paused.world.plane 3 ≡ true
unfolding is_market_paused
market_3_paused = refl

kill_switch_online_example :
    ((check_safety (memory true) settings 1000 (some trade) start).0 ≢ err global_trading_disabled)
    × ((kill_switch_recheck (memory true) settings 1000 (some trade) start).0
        ≢ err kill_switch_engaged)
kill_switch_online_example =
    kill_switch_online (memory true) settings 1000 (some trade) start (some (str "false"))
      (memory-IsDecoding true) refl refl
