-- ===== src/Tests/Signals.antt =====
-- Signals of backend/app/services/execution/execution_service.py at concrete states.
use polymarket_agent.Common.{◌≡◌, refl, true, none, some, [], ◌∷◌}
use polymarket_agent.Capability.{paper}
use polymarket_agent.Execution.{
  err, name_error, check_safety, kill_switch_recheck, order_for, validate_capabilities,
  intent_to_order, has_adapter, submit_intent, same_key,
}
use polymarket_agent.Governance.{authorize_execution}
use polymarket_agent.Control.{is_trading_enabled}
use polymarket_agent.Risk.{get_active}
use polymarket_agent.Capability.{validate_intent, resolve}
use polymarket_agent.Execution.Signals.{
  Signal, hold_signal, signal_to_intent, execute_signal, side_of,
}
use polymarket_agent.Tests.Risk.{memory}
use polymarket_agent.Tests.Execution.{settings, start, wait, filling}

abbrev hold : Signal
hold = record {
  venue = paper;
  symbol = some 3;
  action = hold_signal;
  quantity = some 100;
  trade_id = some 8;
  supplied_key = none;
}

hold_is_sent :
    let (outcome, s) =
      execute_signal (memory true) settings 1000 wait 2000 filling true hold start in
    (outcome ≡ err name_error) × (s.sent ≡ order_for 2000 (signal_to_intent hold) 8 ∷ [])
unfolding execute_signal submit_intent validate_capabilities check_safety kill_switch_recheck
    intent_to_order order_for has_adapter authorize_execution is_trading_enabled get_active
    validate_intent resolve same_key signal_to_intent side_of
hold_is_sent = (refl, refl)
