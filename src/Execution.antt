-- ===== src/Execution.antt =====
-- `ExecutionService` of backend/app/services/execution/execution_service.py: the safety checks and
-- the submission of an order. The service uses the governor, the control plane, the circuit breakers
-- and the capabilities of the venue. The adapter of the exchange, the writing of JSON and the planner
-- are arguments: what they return, or that they raise. Metrics and log lines are not modelled, nor is the replay and
-- shadow bookkeeping of `_propagate_execution_result`, which no run of this code reaches.
pub mod Laws
pub mod Gaps
pub mod Signals
use Prim.Native.String.{String}
use polymarket_agent.Common.{
  ◌||◌, ℕ, zero, suc, ◌/◌, ◌==◌, any, Bool, true, false, Option, none, some, not, ◌&&◌, List, [],
  ◌∷◌, ◌++◌, if◌then◌else◌, get_or, nonempty,
}
use polymarket_agent.Governance.{ExecutionMode, live, DenialReason, authorize_execution}
use polymarket_agent.Redis.{Redis}
use polymarket_agent.Control.{is_trading_enabled, is_strategy_paused, is_market_paused}
use polymarket_agent.Risk.{BreakerName, Entry, CircuitBreaker, World, get_active}
use polymarket_agent.Capability.{
  Venue, paper, polymarket, live_jupiter, unregistered, VenueCapability, is_valid, validate_intent,
  resolve,
}

pub data Side : Type 0 where
  buy sell : Side

pub data OrderStatus : Type 0 where
  pending submitted filled partially_filled cancelled failed : OrderStatus

-- The columns of `Trade` that the service reads.
pub record Trade : Type 0 where
  pub id : ℕ
  pub agent_id : Option ℕ
  pub market_id : Option ℕ
  pub trade_type : Option Venue
  pub side : Side
  pub size : ℕ
  pub price : Option ℕ

-- `ExecutionIntent`; `symbol` is the market, and `trade_id` is the entry of the metadata or the id of
-- `compat_trade`.
pub record ExecutionIntent : Type 0 where
  pub venue : Venue
  pub symbol : Option ℕ
  pub side : Side
  pub quantity : ℕ
  pub limit_price : Option ℕ
  pub trade_id : Option ℕ
  -- a key that the metadata supplies: a text that is not empty and not of the form `exec_...`
  pub supplied_key : Option ℕ
  -- whether `transaction_plan` was set: it is no field, and reading it unset is an `AttributeError`
  pub has_plan : Bool

pub data IdempotencyKey : Type 0 where
  -- `exec_{trade_id}_{seconds}`
  derived : ℕ → ℕ → IdempotencyKey
  supplied : ℕ → IdempotencyKey

pub record ExchangeOrder : Type 0 where
  pub trade_id : ℕ
  pub engine_type : Venue
  pub status : OrderStatus
  pub side : Side
  pub size : ℕ
  pub price : Option ℕ
  pub idempotency_key : IdempotencyKey
  pub filled_size : ℕ
  pub filled_price : Option ℕ

pub record ExecutionResult : Type 0 where
  pub adapter : Venue
  pub status : OrderStatus

-- What `asyncio.wait_for(adapter.submit_order(order), ...)` does.
pub data AdapterOutcome : Type 0 where
  timeout raises : AdapterOutcome
  returns : ExecutionResult → AdapterOutcome

-- What is outside the repository: the adapter of the exchange, and whether the library can write an
-- intent as JSON (`intent.model_dump(mode="json")`).
pub record External : Type 0 where
  pub adapter : ExchangeOrder → AdapterOutcome
  pub dumps : ExecutionIntent → Bool

-- The exceptions, by where they are raised. `name_error` is Python's `NameError`.
pub data ExecutionError : Type 0 where
  authorization : Option DenialReason → ExecutionError
  live_not_explicitly_enabled global_trading_disabled : ExecutionError
  strategy_paused market_paused : ℕ → ExecutionError
  active_breakers : List BreakerName → ExecutionError
  lacks_capabilities : List VenueCapability → ExecutionError
  kill_switch_engaged : ExecutionError
  breaker_engaged : List BreakerName → ExecutionError
  unknown_engine_type no_trade_id not_serializable no_transaction_plan planner_failed duplicate_key
        adapter_failed no_filled_order name_error :
      ExecutionError

pub data Result (A : Type 0) : Type 0 where
  ok : A → Result A
  err : ExecutionError → Result A

-- `settings`, and the mode of the governor.
pub record Settings : Type 0 where
  pub governor_mode : ExecutionMode
  pub execution_mode : ExecutionMode
  pub strict_live_enabled : Bool

pub record State (S : Type 0) : Type 0 where
  pub world : World S
  pub breakers : List CircuitBreaker
  -- the orders in the session, in the order in which they were added
  pub orders : List ExchangeOrder
  -- the orders that were handed to an adapter
  pub sent : List ExchangeOrder
  -- the `EXECUTION_BLOCKED` events
  pub blocked : List ExecutionError

-- A method that may raise. What was written before stays written.
abbrev pub Exec : Type 0 → Type 0 → Type 0
Exec S A = State S → Result A × State S

infixl 5 ◌>>=◌ ◌>>◌
abbrev pub ◌>>=◌ : {S A B : Type 0} → Exec S A → (A → Exec S B) → Exec S B
◌>>=◌ m f s = let (r, s') = m s in elim r [ ok a ↦ f a s' | err e ↦ (err e, s') ]

abbrev pub ◌>>◌ : {S A B : Type 0} → Exec S A → Exec S B → Exec S B
m >> k = m >>= λ _. k

abbrev pub pure : {S A : Type 0} → A → Exec S A
pure a s = (ok a, s)

abbrev pub raise : {S A : Type 0} → ExecutionError → Exec S A
raise e s = (err e, s)

abbrev pub raise_if : {S : Type 0} → Bool → ExecutionError → Exec S (Unit {0})
raise_if c e s = (if c then err e else ok tt, s)

-- `emit("EXECUTION_BLOCKED", ...)` and `raise`
abbrev block_if : {S : Type 0} → Bool → ExecutionError → Exec S (Unit {0})
block_if c e s =
    (if c then err e else ok tt, if c then record s { blocked = s.blocked ++ e ∷ [] } else s)

unfoldable pub is_live : ExecutionMode → Bool
is_live live = true
is_live _ = false

-- `Option.get`-like use of a missing attribute: no trade, or no id, asks nothing
asks : Option ℕ → (ℕ → Bool) → Bool
asks none p = false
asks (some id) p = p id

agent_of : Option Trade → Option ℕ
agent_of none = none
agent_of (some t) = t.agent_id

market_of : Option Trade → Option ℕ
market_of none = none
market_of (some t) = t.market_id

-- `_get_adapter` finds one: exchanges/__init__.py registers three, and none for polymarket
unfoldable pub has_adapter : Venue → Bool
has_adapter (unregistered n) = false
has_adapter polymarket = false
has_adapter _ = true

abbrev pub opposite : Side → Side
opposite buy = sell
opposite sell = buy

-- prices and sizes are `Numeric(24, 8)`, in units of the eighth decimal place: this is 0.5
abbrev pub half : ℕ
half = 50000000

same_idempotency_key : IdempotencyKey → IdempotencyKey → Bool
same_idempotency_key (derived t n) (derived u m) = t == u && n == m
same_idempotency_key (supplied a) (supplied b) = a == b
same_idempotency_key _ _ = false

-- the unique constraint on the idempotency key
unfoldable pub same_key : ExchangeOrder → ExchangeOrder → Bool
unfolding same_idempotency_key
same_key a b = same_idempotency_key a.idempotency_key b.idempotency_key

-- `value or default`, where 0 is false
abbrev pub truthy_or : Option ℕ → ℕ → ℕ
truthy_or none d = d
truthy_or (some zero) d = d
truthy_or (some (suc n)) d = suc n

-- `limit_price or trade.price`
abbrev pub truthy_or_option : Option ℕ → Option ℕ → Option ℕ
truthy_or_option none d = d
truthy_or_option (some zero) d = d
truthy_or_option (some (suc n)) d = some (suc n)

authorize : {S : Type 0} → ExecutionMode → Exec S (Unit {0})
authorize mode s =
    (elim (authorize_execution mode) [ none ↦ ok tt | some why ↦ err (authorization why) ], s)

key_for : ℕ → ℕ → Option ℕ → IdempotencyKey
key_for now id none = derived id (now / 1000)
key_for now id (some key) = supplied key

-- the order for a trade id
unfoldable pub order_for : ℕ → ExecutionIntent → ℕ → ExchangeOrder
unfolding key_for
order_for now intent id = record {
  trade_id = id;
  engine_type = intent.venue;
  status = pending;
  side = intent.side;
  size = intent.quantity;
  price = intent.limit_price;
  idempotency_key = key_for now id intent.supplied_key;
  filled_size = 0;
  filled_price = none;
}

-- `_intent_to_order`
unfoldable pub intent_to_order : External → ℕ → ExecutionIntent → Result ExchangeOrder
intent_to_order ext now intent = elim intent.trade_id [
  | none ↦ err no_trade_id
  | some id ↦
      if not (ext.dumps intent)
      then err not_serializable
      else if not intent.has_plan
      then err no_transaction_plan
      else ok (order_for now intent id)
]

-- the result that a timeout is turned into, and the exception of the adapter
settle : Venue → AdapterOutcome → Result ExecutionResult
settle venue timeout = ok (record { adapter = venue; status = failed })
settle venue raises = err adapter_failed
settle venue (returns result) = ok result

-- Whether two orders are of one trade. The service leaves `order_num` at its default 1, so that the pair of
-- the two columns is unique only if the trade is.
unfoldable pub same_trade : ExchangeOrder → ExchangeOrder → Bool
same_trade a b = a.trade_id == b.trade_id

-- `self.db.add(order)` and `self.db.flush()`: the keys of the orders are unique, as are their trades with the
-- number of the order, and a second order with the same key or for the same trade is rolled back
flush : {S : Type 0} → ExchangeOrder → Exec S (Unit {0})
unfolding same_key same_trade
flush order s =
    if any (same_key order) s.orders || any (same_trade order) s.orders
    then (err duplicate_key, s)
    else (ok tt, record s { orders = s.orders ++ order ∷ [] })

-- the call of the adapter
place : {S : Type 0} → (ExchangeOrder → AdapterOutcome) → ExchangeOrder → Exec S ExecutionResult
unfolding settle
place adapter order s =
    (settle order.engine_type (adapter order), record s { sent = s.sent ++ order ∷ [] })

-- `ExecutionIntentFactory.create_from_trade`: arguments that are missing come from the trade
unfoldable pub create_from_trade :
    Trade → Venue → Option Side → Option ℕ → Option ℕ → ExecutionIntent
create_from_trade trade engine_type side quantity limit_price = record {
  venue = engine_type;
  symbol = trade.market_id;
  side = get_or side trade.side;
  quantity = truthy_or quantity trade.size;
  limit_price = truthy_or_option limit_price trade.price;
  trade_id = some trade.id;
  supplied_key = none;
  has_plan = false;
}

-- What follows the submission in `execute_signal`, `create_trade_execution` and
-- `close_trade_execution`: the name `ExecutionPermission` is not bound in the module.
unfoldable pub capture_authorization : {S : Type 0} → ExecutionResult → Exec S ExecutionResult
capture_authorization result = raise name_error

module _ {S : Type 0} (r : Redis S Entry) (c : Settings) where
  -- `cb_system.get_active()`
  active : ℕ → Exec S (List BreakerName)
  active now s =
      let (names, bs) = get_active r s.world.plane.redis now s.breakers in
      (ok names, record s { breakers = bs })

  -- `_check_safety`
  unfoldable pub check_safety : ℕ → Option Trade → Exec S (Unit {0})
  unfolding authorize active asks agent_of market_of is_live
  check_safety now trade = do
    authorize c.governor_mode
    block_if (is_live c.execution_mode && not c.strict_live_enabled) live_not_explicitly_enabled
    plane ← λ s. (ok s.world.plane, s)
    block_if (not (is_trading_enabled r plane)) global_trading_disabled
    block_if (asks (agent_of trade) (is_strategy_paused r plane))
        (strategy_paused (get_or (agent_of trade) 0))
    block_if (asks (market_of trade) (is_market_paused r plane))
        (market_paused (get_or (market_of trade) 0))
    names ← active now
    block_if (nonempty names) (active_breakers names)

  -- `_kill_switch_recheck`
  unfoldable pub kill_switch_recheck : ℕ → Option Trade → Exec S (Unit {0})
  unfolding active asks market_of
  kill_switch_recheck now trade = do
    plane ← λ s. (ok s.world.plane, s)
    raise_if (not (is_trading_enabled r plane)) kill_switch_engaged
    raise_if (asks (market_of trade) (is_market_paused r plane))
        (market_paused (get_or (market_of trade) 0))
    names ← active now
    raise_if (nonempty names) (breaker_engaged names)

  -- `_validate_capabilities`
  unfoldable pub validate_capabilities : Venue → Exec S (Unit {0})
  validate_capabilities venue =
      let report = validate_intent (resolve venue) in
      raise_if (not (is_valid report)) (lacks_capabilities report.missing)

  -- `submit_intent`: `now` is the time of the checks, `meanwhile` what other tasks do to the control
  -- plane and the breakers while this one waits for the lock of its market, and `later` the time at
  -- which it has the lock.
  unfoldable pub submit_intent :
      ℕ → (State S → State S) → ℕ → External → ExecutionIntent → Exec S ExecutionResult
  unfolding place flush
  submit_intent now meanwhile later ext intent = do
    validate_capabilities intent.venue
    check_safety now none
    λ s. (ok tt, meanwhile s)
    kill_switch_recheck later none
    raise_if (not (has_adapter intent.venue)) unknown_engine_type
    order ← λ s. (intent_to_order ext later intent, s)
    flush order
    place ext.adapter order

  -- `create_trade_execution`; `planned` says whether the assets resolve and the planner returns
  unfoldable pub create_trade_execution :
      ℕ → (State S → State S) → ℕ → External → Bool → Trade → Exec S ExecutionResult
  unfolding capture_authorization create_from_trade
  create_trade_execution now meanwhile later ext planned trade = do
    check_safety now (some trade)
    raise_if (not planned) planner_failed
    let intent = create_from_trade trade (get_or trade.trade_type paper) none none none
    result ← submit_intent now meanwhile later ext (record intent { has_plan = true })
    capture_authorization result

  -- `close_trade_execution`, over the first filled order of the trade, if any
  unfoldable pub close_trade_execution :
      ℕ
      → (State S → State S)
      → ℕ
      → External
      → Option ExchangeOrder
      → Option ℕ
      → Trade
      → Exec S ExecutionResult
  unfolding capture_authorization create_from_trade
  close_trade_execution now meanwhile later ext none exit_price trade = do
    check_safety now (some trade)
    raise no_filled_order
  close_trade_execution now meanwhile later ext (some original) exit_price trade = do
    check_safety now (some trade)
    let price = get_or exit_price (truthy_or original.filled_price half)
    result ← submit_intent now meanwhile later ext (
        create_from_trade trade original.engine_type (some (opposite original.side))
          (some original.filled_size) (some price))
    capture_authorization result

  -- `submit_order`: `none` is the result for an order that was submitted before
  unfoldable pub submit_order :
      (ExchangeOrder → AdapterOutcome) → ExchangeOrder → Exec S (Option ExecutionResult)
  unfolding settle
  submit_order adapter order s = elim order.status [
    | submitted ↦ (ok none, s)
    | _ ↦
        if has_adapter order.engine_type
        then elim (settle order.engine_type (adapter order)) [
          | ok result ↦ (ok (some result), record s { sent = s.sent ++ order ∷ [] })
          | err e ↦ (err e, record s { sent = s.sent ++ order ∷ [] })
        ]
        else (err unknown_engine_type, s)
  ]
