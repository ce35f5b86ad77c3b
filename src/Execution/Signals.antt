-- ===== src/Execution/Signals.antt =====
-- Signals of backend/app/services/execution/execution_service.py: `_signal_to_intent` and
-- `execute_signal`, with `SignalAction` of backend/app/domain/signals/signal_action.py. Whether the
-- instrument and the assets resolve and the planner returns is an argument.
use polymarket_agent.Common.{
  ℕ, ◌≡◌, ◌≢◌, ◌⊎◌, Bool, true, Option, none, some, List, [], ◌∷◌, ◌++◌, not, arith, refl, ◌∙◌,
}
use polymarket_agent.Redis.{Redis}
use polymarket_agent.Control.{is_trading_enabled}
use polymarket_agent.Risk.{Entry}
use polymarket_agent.Capability.{Venue}
use polymarket_agent.Execution.{
  Settings, State, Side, buy, sell, ExecutionIntent, ExecutionResult, External, Exec,
  planner_failed, ok, check_safety, kill_switch_recheck, submit_intent, order_for, truthy_or,
  raise_if, capture_authorization, ◌>>=◌, ◌>>◌,
}
use polymarket_agent.Execution.Laws.{check_safety_state, submit_intent_sent}

pub data SignalAction : Type 0 where
  buy_signal sell_signal hold_signal : SignalAction

-- `trade_id` and `supplied_key` are entries of the metadata; a strategy id does not reach the order.
pub record Signal : Type 0 where
  pub venue : Venue
  pub symbol : Option ℕ
  pub action : SignalAction
  pub quantity : Option ℕ
  pub trade_id : Option ℕ
  pub supplied_key : Option ℕ

-- `action_to_side.get(signal.action, "buy")`
unfoldable pub side_of : SignalAction → Side
side_of sell_signal = sell
side_of _ = buy

-- `_signal_to_intent`, once the planner has returned
unfoldable pub signal_to_intent : Signal → ExecutionIntent
signal_to_intent signal = record {
  venue = signal.venue;
  symbol = signal.symbol;
  side = side_of signal.action;
  quantity = truthy_or signal.quantity 0;
  limit_price = none;
  trade_id = signal.trade_id;
  supplied_key = signal.supplied_key;
  has_plan = true;
}

-- other pauses in the control plane
abbrev pub with_pauses : {S : Type 0} → List ℕ → List ℕ → State S → State S
with_pauses strategies markets s = record s {
  world = record s.world {
    plane = record s.world.plane { paused_strategies = strategies; paused_markets = markets };
  };
}

module _ {S : Type 0} (r : Redis S Entry) (c : Settings) where
  unfoldable pub execute_signal :
      ℕ → (State S → State S) → ℕ → External → Bool → Signal → Exec S ExecutionResult
  unfolding capture_authorization
  execute_signal now meanwhile later ext planned signal = do
    raise_if (not planned) planner_failed
    result ← submit_intent r c now meanwhile later ext (signal_to_intent signal)
    capture_authorization result

  trading_enabled_pauses :
      (strategies markets : List ℕ) (s : State S)
      → is_trading_enabled r (with_pauses strategies markets s).world.plane
        ≡ is_trading_enabled r s.world.plane
  unfolding is_trading_enabled
  trading_enabled_pauses strategies markets s = refl

  -- Called without a trade, as `submit_intent` calls them, the two checks do not read the pauses: with any
  -- other strategies and markets paused in the control plane their outcome is the same, and so is all
  -- they change.
  pub checks_pauses :
      (now : ℕ) (strategies markets : List ℕ) (s : State S)
      → (let (outcome, t) = check_safety r c now none s in
          check_safety r c now none (with_pauses strategies markets s)
          ≡ (outcome, with_pauses strategies markets t))
        × (let (outcome, t) = kill_switch_recheck r c now none s in
            kill_switch_recheck r c now none (with_pauses strategies markets s)
            ≡ (outcome, with_pauses strategies markets t))
  unfolding check_safety kill_switch_recheck
  checks_pauses now strategies markets s =
      let e = trading_enabled_pauses strategies markets s in ground arith

  module _ (now later : ℕ) (ext : External) (planned : Bool) (signal : Signal) (s : State S) where
    -- A signal to hold is executed as a signal to buy: the outcome and the state after it are the same.
    pub execute_signal-hold :
        (meanwhile : State S → State S)
        → execute_signal now meanwhile later ext planned (record signal { action = hold_signal }) s
          ≡ execute_signal now meanwhile later ext planned (record signal { action = buy_signal }) s
    unfolding execute_signal signal_to_intent side_of
    execute_signal-hold meanwhile = refl

    -- No execution of a signal returns a result; for a signal with a trade id, and provided that other
    -- tasks do not touch the list of sent orders, it sends nothing or the one order of the signal,
    -- which then stays sent.
    pub execute_signal_err :
        (meanwhile : State S → State S) (id : ℕ) (result : ExecutionResult)
        → signal.trade_id ≡ some id
        → ((t : State S) → (meanwhile t).sent ≡ t.sent)
        → let (outcome, s') = execute_signal now meanwhile later ext planned signal s in
          let order = order_for later (signal_to_intent signal) id in
          (outcome ≢ ok result) × ((s'.sent ≡ s.sent) ⊎ (s'.sent ≡ s.sent ++ order ∷ []))
    unfolding execute_signal signal_to_intent
    execute_signal_err meanwhile id result e w = ground (
      arith,
      submit_intent_sent r c now later meanwhile ext (signal_to_intent signal) id s e
          (w (check_safety r c now none s).1 ∙ (check_safety_state r c now none s).2),
    )
