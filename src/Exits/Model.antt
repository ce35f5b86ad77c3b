-- ===== src/Exits/Model.antt =====
-- The rows, the thresholds and the queries of backend/app/services/exit_engine.py.
use polymarket_agent.Common.{
  ℕ, suc, ◌+◌, ◌-◌, ◌*◌, ◌==◌, Bool, false, Option, none, some, not, ◌&&◌, ◌||◌, List, [], ◌∷◌, ltb,
  leb, if◌then◌else◌, keep, any, length, is_some, get_or,
}
use polymarket_agent.Common.Int.{ℤ, pos_part}

pub data Number : Type 0 where
  decimal float : ℕ → Number

pub data Regime : Type 0 where
  crisis normal extreme high_volatility : Regime

pub data ExitReason : Type 0 where
  stop_loss take_profit max_holding_time regime_flip liquidity_collapse correlation_risk :
      ExitReason

pub data ExitDecision : Type 0 where
  trade_not_open no_exit_triggered : ExitDecision
  exit : ExitReason → Number → ExitDecision

-- What `evaluate` does: it decides or raises a `TypeError`.
pub data Evaluation : Type 0 where
  decides : ExitDecision → Evaluation
  type_error : Evaluation

-- The columns of a `Trade` that the engine reads.
pub record ExitTrade : Type 0 where
  pub is_active : Bool
  pub market_id : Option ℕ
  pub is_no : Bool
  pub is_sell : Bool
  pub filled_price : Option ℕ
  pub price : Option ℕ
  pub entry_timestamp : Option ℕ

pub record MarketEvent : Type 0 where
  pub market_id : ℕ
  -- an event of type `price_change` or `trade`
  pub is_price : Bool
  pub timestamp : ℕ
  pub price : Option ℕ
  pub size : Option ℕ

-- The coefficient is in millionths.
pub record MarketCorrelation : Type 0 where
  pub market_a_id : ℕ
  pub market_b_id : ℕ
  pub coefficient : ℤ

pub record Tables : Type 0 where
  pub events : List MarketEvent
  pub correlations : List MarketCorrelation

pub record ExitEngine : Type 0 where
  pub forced_exit_count : ℕ
  pub exits_by_reason : ExitReason → ℕ

-- `REGIME_SL_TP`, in hundredths
unfoldable pub stop_loss_of : Regime → ℕ
stop_loss_of crisis = 5
stop_loss_of normal = 10
stop_loss_of extreme = 15
stop_loss_of high_volatility = 20

unfoldable pub take_profit_of : Regime → ℕ
take_profit_of crisis = 12
take_profit_of normal = 25
take_profit_of extreme = 20
take_profit_of high_volatility = 30

abbrev pub one : ℕ
one = 100000000

-- `trade.filled_price or trade.price or 0.5`, where 0 is false
unfoldable pub fill_price : ExitTrade → Number
fill_price t = elim t.filled_price [
  | some (suc n) ↦ decimal (suc n)
  | _ ↦ elim t.price [ some (suc n) ↦ decimal (suc n) | _ ↦ float 50000000 ]
]

-- the newest of the events that the query of `_get_outcome_price` gives
unfoldable pub newest_price : ℕ → List MarketEvent → Option ℕ
newest_price market [] = none
newest_price market (e ∷ es) =
    let later = newest_price market es in
    let own = if e.market_id == market && e.is_price then e.price else none in
    if is_some later then later else own

-- `_get_outcome_price`
unfoldable pub get_outcome_price : ExitTrade → List MarketEvent → Option ℕ
unfolding newest_price
get_outcome_price t events = elim t.market_id [
  | none ↦ none
  | some m ↦ elim (newest_price m events) [
    | none ↦ none
    | some p ↦ some (if t.is_no then one - p else p)
  ]
]

-- `_detect_regime`, of the entry in the state of the market, if it is one of the four
unfoldable pub detect_regime : Option Regime → Regime
detect_regime regime = get_or regime normal

-- the return is at least some hundredths, or at most minus them: the quotient by the fill price, which is
-- positive, is multiplied out
unfoldable pub gains : ℕ → ℕ → ℕ → Bool
gains hundredths fill latest = leb ((100 + hundredths) * fill) (100 * latest)

unfoldable pub loses : ℕ → ℕ → ℕ → Bool
loses hundredths fill latest = leb (100 * latest + hundredths * fill) (100 * fill)

unfoldable pub sl_hit : Regime → Bool → ℕ → ℕ → Bool
unfolding gains loses stop_loss_of
sl_hit regime is_sell fill latest =
    if is_sell
    then gains (stop_loss_of regime) fill latest
    else loses (stop_loss_of regime) fill latest

unfoldable pub tp_hit : Regime → Bool → ℕ → ℕ → Bool
unfolding gains loses take_profit_of
tp_hit regime is_sell fill latest =
    if is_sell
    then loses (take_profit_of regime) fill latest
    else gains (take_profit_of regime) fill latest

-- `_check_max_holding_time`: 168 hours
unfoldable pub check_max_holding_time : ℕ → ExitTrade → Bool
check_max_holding_time now t = elim t.entry_timestamp [
  | none ↦ false
  | some e ↦ ltb (e + 604800) now
]

-- the prices of the hour before the entry, in the order of time
unfoldable pub prices_before : ℕ → ℕ → List MarketEvent → List ℕ
prices_before market entry [] = []
prices_before market entry (e ∷ es) =
    let rest = prices_before market entry es in
    if e.market_id == market && leb entry (e.timestamp + 3600) && leb e.timestamp entry
    then elim e.price [ none ↦ rest | some p ↦ p ∷ rest ]
    else rest

abbrev last_of : ℕ → List ℕ → ℕ
last_of p [] = p
last_of p (q ∷ qs) = last_of q qs

abbrev distance : ℕ → ℕ → ℕ
distance a b = (a - b) + (b - a)

-- the flip of a regime, by the first and the last price
unfoldable pub flips : Regime → ℕ → ℕ → Bool
flips regime start last =
    let change = distance start last in
    elim regime [
      | crisis ↦ false
      | normal ↦ ltb 0 start && ltb (15 * start) (100 * change)
      | _ ↦ not (ltb 0 start) || ltb (100 * change) (2 * start)
    ]

flips_over : Regime → List ℕ → Bool
flips_over regime [] = false
flips_over regime (p ∷ ps) = leb 2 (length ps) && flips regime p (last_of p ps)

-- `_detect_regime_flip`
unfoldable pub detect_regime_flip : Regime → ExitTrade → List MarketEvent → Bool
unfolding flips_over flips prices_before
detect_regime_flip regime t events = elim t.entry_timestamp [
  | none ↦ false
  | some entry ↦ elim t.market_id [
    | none ↦ false
    | some m ↦ flips_over regime (prices_before m entry events)
  ]
]

abbrev sizes : List MarketEvent → List ℕ
sizes [] = []
sizes (e ∷ es) = elim e.size [ none ↦ sizes es | some n ↦ n ∷ sizes es ]

abbrev sum : List ℕ → ℕ
sum [] = 0
sum (n ∷ ns) = n + sum ns

-- fewer than three events, of sizes below 10 on average, where no size counts as 0
unfoldable pub is_thin : List MarketEvent → Bool
is_thin es =
    let ns = sizes es in
    ltb (length es) 3 && (length ns == 0 || ltb (sum ns) (10 * one * length ns))

-- `_detect_liquidity_collapse`, over two hours
unfoldable pub detect_liquidity_collapse : ℕ → ExitTrade → List MarketEvent → Bool
unfolding is_thin
detect_liquidity_collapse now t events = elim t.market_id [
  | none ↦ false
  | some m ↦ is_thin (keep (λ e. e.market_id == m && leb now (e.timestamp + 7200)) events)
]

-- `_detect_correlation_risk`
unfoldable pub detect_correlation_risk : ExitTrade → List MarketCorrelation → Bool
detect_correlation_risk t cs = elim t.market_id [
  | none ↦ false
  | some m ↦
      any (λ c. (c.market_a_id == m || c.market_b_id == m) && leb 800000 (pos_part c.coefficient))
        cs
]
