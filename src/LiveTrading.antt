-- ===== src/LiveTrading.antt =====
-- `LiveTradingStateMachine` of backend/app/services/live_trading_state_machine.py. What it reads from
-- the database is an argument: the number of closed trades, the results of the last three closed
-- trades with a result, newest first, and the result of the last day. Money is in cents.
pub mod Laws
use polymarket_agent.Common.{
  ℕ, suc, ◌*◌, Bool, true, false, Option, none, some, not, ◌&&◌, List, [], ◌∷◌, ◌++◌, leb, ltb,
  ◌==◌, if◌then◌else◌, length, take,
}

pub data TradingState : Type 0 where
  shadow micro_live reduced_risk kill_switch disabled : TradingState

-- A result: a gain of so many cents, zero included, or a loss of one cent more than the number.
pub data Pnl : Type 0 where
  gain loss : ℕ → Pnl

pub data OverlayStatus : Type 0 where
  stopped : OverlayStatus
  other : ℕ → OverlayStatus

pub data TransitionReason : Type 0 where
  risk_overlay : Option OverlayStatus → TransitionReason
  forced : ℕ → TransitionReason

-- `StateTransition` and the entry of `_transition_history`, which hold the same; times are left out.
pub record StateTransition : Type 0 where
  pub from_state : TradingState
  pub to_state : TradingState
  pub reason : TransitionReason

pub record Machine : Type 0 where
  pub status : TradingState
  pub transitions : List StateTransition

pub record Facts : Type 0 where
  pub closed_trades : ℕ
  pub last_results : List Pnl
  pub daily_pnl : Pnl
  -- `settings.PAPER_INITIAL_CAPITAL`
  pub capital : ℕ

unfoldable pub init : Machine
init = record { status = shadow; transitions = [] }

abbrev pub max_consecutive_losses : ℕ
max_consecutive_losses = 3

-- `_check_shadow_readiness`
unfoldable pub check_shadow_readiness : Facts → Bool
check_shadow_readiness f = leb 20 f.closed_trades

is_loss : Pnl → Bool
is_loss (gain n) = false
is_loss (loss n) = true

all_losses : List Pnl → Bool
all_losses [] = true
all_losses (p ∷ ps) = is_loss p && all_losses ps

-- `_check_consecutive_losses`, over the rows that the query gives, at most three
unfoldable pub check_consecutive_losses : Facts → Bool
unfolding all_losses is_loss
check_consecutive_losses f =
    let trades = take max_consecutive_losses f.last_results in
    if ltb (length trades) max_consecutive_losses then false else all_losses trades

-- `_check_drawdown`: the loss of the day is more than a fiftieth of the capital
unfoldable pub check_drawdown : Facts → Bool
check_drawdown f = elim f.daily_pnl [ gain n ↦ false | loss n ↦ ltb f.capital (suc n * 50) ]

is_stopped : Option OverlayStatus → Bool
is_stopped (some stopped) = true
is_stopped _ = false

-- the chain of tests in `evaluate`
unfoldable pub next_state : TradingState → Option OverlayStatus → Facts → TradingState
unfolding is_stopped
next_state current overlay f = if is_stopped overlay then kill_switch else elim current [
  | shadow ↦ if check_shadow_readiness f then micro_live else shadow
  | micro_live ↦
      if check_drawdown f
      then kill_switch
      else if check_consecutive_losses f
      then reduced_risk
      else micro_live
  | reduced_risk ↦ if check_consecutive_losses f then kill_switch else reduced_risk
  | kill_switch ↦ kill_switch
  | disabled ↦ disabled
]

unfoldable pub state_index : TradingState → ℕ
state_index shadow = 0
state_index micro_live = 1
state_index reduced_risk = 2
state_index kill_switch = 3
state_index disabled = 4

unfoldable pub evaluate : Option OverlayStatus → Facts → Machine → Machine
unfolding state_index next_state
evaluate overlay f m =
    let next = next_state m.status overlay f in
    if state_index next == state_index m.status then m else record {
      status = next;
      transitions =
          m.transitions
          ++ record { from_state = m.status; to_state = next; reason = risk_overlay overlay } ∷ [];
    }

unfoldable pub force_state : TradingState → ℕ → Machine → Machine
force_state target why m = record {
  status = target;
  transitions =
      m.transitions
      ++ record { from_state = m.status; to_state = target; reason = forced why } ∷ [];
}

-- `hard_caps`, in hundred-thousandths; a cap that the dict lacks is `none`
pub record HardCaps : Type 0 where
  pub max_concurrent_positions : ℕ
  pub max_per_trade_pct : ℕ
  pub max_daily_drawdown_pct : Option ℕ

unfoldable pub hard_caps : TradingState → HardCaps
hard_caps shadow = record {
  max_concurrent_positions = 5;
  max_per_trade_pct = 0;
  max_daily_drawdown_pct = some 2000;
}
hard_caps micro_live = record {
  max_concurrent_positions = 5;
  max_per_trade_pct = 500;
  max_daily_drawdown_pct = some 2000;
}
hard_caps reduced_risk = record {
  max_concurrent_positions = 3;
  max_per_trade_pct = 250;
  max_daily_drawdown_pct = some 1000;
}
hard_caps kill_switch = record {
  max_concurrent_positions = 0;
  max_per_trade_pct = 0;
  max_daily_drawdown_pct = none;
}
hard_caps disabled = record {
  max_concurrent_positions = 0;
  max_per_trade_pct = 0;
  max_daily_drawdown_pct = none;
}
