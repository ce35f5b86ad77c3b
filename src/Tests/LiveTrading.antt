-- ===== src/Tests/LiveTrading.antt =====
-- The machine of backend/app/services/live_trading_state_machine.py at concrete facts.
use polymarket_agent.Common.{◌≡◌, ◌↔◌, refl, none, some, List, [], ◌∷◌}
use polymarket_agent.LiveTrading.{
  kill_switch, stopped, gain, loss, Facts, init, evaluate, next_state, check_shadow_readiness,
  check_drawdown, check_consecutive_losses,
}
use polymarket_agent.LiveTrading.Laws.{Edge, evaluate-Edge, Move, tick, run}

abbrev ready : Facts
ready = record { closed_trades = 20; last_results = []; daily_pnl = gain 0; capital = 100000 }

abbrev losing : Facts
losing = record ready { last_results = loss 5 ∷ loss 1 ∷ loss 9 ∷ []; daily_pnl = loss 2000 }

abbrev moves : List Move
moves = tick none ready ∷ tick none losing ∷ []

ends_killed : (run moves init).status ≡ kill_switch
unfolding run evaluate init next_state check_shadow_readiness check_drawdown
    check_consecutive_losses
ends_killed = refl

evaluate-Edge_example :
    ((evaluate (some stopped) ready init).status ≡ kill_switch)
    ↔ Edge (some stopped) ready init.status kill_switch
evaluate-Edge_example = evaluate-Edge (some stopped) ready init kill_switch
