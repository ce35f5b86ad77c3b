-- ===== src/Trades/Model.antt =====
-- The tables, the state and the errors of `TradeService` in backend/app/services/trade_service.py, and its
-- queries for a trade.
use polymarket_agent.Common.{
  ℕ, ◌==◌, Bool, true, false, Option, none, some, ◌&&◌, List, if◌then◌else◌,
}
use polymarket_agent.Common.Int.{ℤ}
use polymarket_agent.Mode.Manager.{Manager, is_shadow}
use polymarket_agent.Capability.{Venue}
use polymarket_agent.Approval.{Database, Rejection}
use polymarket_agent.Safety.{Gate, Reason}
use polymarket_agent.Execution.{Side, Trade, ExecutionError, State}

pub data TradeStatus : Type 0 where
  trade_pending trade_open trade_closed trade_cancelled : TradeStatus

-- A row of the table of trades: what the execution service reads of it, and the rest.
pub record TradeRow : Type 0 where
  pub trade : Trade
  pub outcome : ℕ
  pub status : TradeStatus
  pub entry_timestamp : Option ℕ
  pub exit_timestamp : Option ℕ

-- `TradeCreateRequest`, less what is only stored
pub record TradeCreateRequest : Type 0 where
  pub market_id : ℕ
  pub side : Side
  pub outcome : ℕ
  pub is_market_order : Bool
  pub size : ℕ
  pub confidence : Option ℕ
  pub price : Option ℕ
  pub agent_id : Option ℕ

-- What `remote:state` in Redis says; `unavailable` is any exception on the way to an answer, but for a
-- `PermissionError`, which is passed on as it is and is left out.
pub data RemoteState : Type 0 where
  no_state trading_enabled trading_disabled unavailable : RemoteState

pub data TradeError : Type 0 where
  shadow_mode_active emergency_stop_active operator_kill_switch : TradeError
  state_store_failure approval_raises : TradeError
  safety_check_failed : List Rejection → TradeError
  market_not_found duplicate_position micro_live_safety_mode validation_failed : TradeError
  gate_blocked : List Reason → TradeError
  execution_failed : ExecutionError → TradeError
  trade_not_found cannot_close : TradeError

pub data Outcome (A : Type 0) : Type 0 where
  returned : A → Outcome A
  raised : TradeError → Outcome A

-- The settings, the answers of other components, and the names of strategies.
pub record Environment : Type 0 where
  pub now : ℕ
  -- the manager of `get_mode_manager()`, which raises a `RuntimeError` without one
  pub manager : Option Manager
  pub force_trading_disabled : Bool
  pub micro_live_safe_mode : Bool
  pub trading_mode : Venue
  pub remote_state : RemoteState
  pub unknown : ℕ
  pub crisis_reversion : ℕ
  -- `live_daily_pnl` in cents and `live_consecutive_losses` of the pipeline's metrics
  pub live_daily_pnl : ℤ
  pub live_consecutive_losses : ℕ
  -- `ValidationEngine.validate_trade(...).approved`
  pub is_valid : TradeCreateRequest → Bool
  -- `PortfolioAllocator.allocate(...).size`
  pub allocation : TradeCreateRequest → ℕ

-- What a service sees: its own flag, the tables, the state of the execution service and the gate.
pub record Store (S : Type 0) : Type 0 where
  pub emergency_stopped : Bool
  pub markets : List ℕ
  pub trades : List TradeRow
  pub database : Database
  pub execution : State S
  pub gate : Gate

-- A method that may raise.
abbrev pub Service : Type 0 → Type 0 → Type 0
Service S A = Store S → Outcome A × Store S

infixl 5 ◌>>=◌ ◌>>◌
abbrev pub ◌>>=◌ : {S A B : Type 0} → Service S A → (A → Service S B) → Service S B
◌>>=◌ m f s = let (r, s') = m s in elim r [ returned a ↦ f a s' | raised e ↦ (raised e, s') ]

abbrev pub ◌>>◌ : {S A B : Type 0} → Service S A → Service S B → Service S B
m >> k = m >>= λ _. k

abbrev pub raise_if : {S : Type 0} → Bool → TradeError → Service S (Unit {0})
raise_if c e s = (if c then raised e else returned tt, s)

abbrev pub write : {S : Type 0} → (Store S → Store S) → Service S (Unit {0})
write f s = (returned tt, f s)

abbrev pub if_market : {S : Type 0} → Bool → Service S (Unit {0}) → Service S (Unit {0})
if_market test m s = let result = m s in if test then result else (returned tt, s)

unfoldable pub is_active : TradeRow → Bool
is_active t = elim t.status [
  | trade_pending ↦ true
  | trade_open ↦ true
  | trade_closed ↦ false
  | trade_cancelled ↦ false
]

abbrev pub is_id : ℕ → Option ℕ → Bool
is_id n none = false
is_id n (some m) = n == m

-- an open or pending trade on the market and the outcome
unfoldable pub holds : ℕ → ℕ → TradeRow → Bool
unfolding is_active
holds market outcome t = is_id market t.trade.market_id && t.outcome == outcome && is_active t

unfoldable pub in_shadow : Environment → Bool
in_shadow env = elim env.manager [ none ↦ false | some m ↦ is_shadow m ]

-- the rejection by the remote control is raised inside the `try`, whose handler replaces it
unfoldable pub is_halted : RemoteState → Bool
is_halted no_state = false
is_halted trading_enabled = false
is_halted trading_disabled = true
is_halted unavailable = true
