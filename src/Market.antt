-- ===== src/Market.antt =====
-- The rolling windows of `MarketContext` in backend/app/replay/market_state.py: `update_trade` and
-- `_prune_windows`. Times are in milliseconds; sizes and prices are in units of the eighth decimal, and
-- no size is negative. Floating point rounding is not modelled, nor are the features that are
-- computed from the windows (volatility, momentum, regime).
pub mod Windows
pub mod Replay
use polymarket_agent.Common.{
  ℕ, ◌+◌, ◌-◌, ◌*◌, Bool, true, false, Option, none, some, List, [], ◌∷◌, ◌++◌, ltb, leb,
  if◌then◌else◌,
}
use polymarket_agent.Common.Dict.{Dict, insert}

-- a time and a size, or a time and a price
abbrev pub Stamped : Type 0
Stamped = ℕ × ℕ

-- `volume_window_...` and `trade_count_...` of one length
pub record Window : Type 0 where
  pub volume : ℕ
  pub count : ℕ

-- `is_buy` says whether the side is "buy" or "BUY"; `side` is its text, the key of `outcome_prices`.
pub record TradeEvent : Type 0 where
  pub timestamp : ℕ
  pub price : ℕ
  pub size : ℕ
  pub side : ℕ
  pub is_buy : Bool

pub record MarketContext : Type 0 where
  pub current_price : Option ℕ
  pub outcome_prices : Dict ℕ
  pub window_5m : Window
  pub window_15m : Window
  pub window_1h : Window
  pub window_4h : Window
  pub window_24h : Window
  pub price_history : List Stamped
  pub volume_history : List Stamped
  pub whale_buy_volume_1h : ℕ
  pub whale_sell_volume_1h : ℕ
  pub last_event_timestamp : Option ℕ

abbrev pub no_trades : Window
no_trades = record { volume = 0; count = 0 }

unfoldable pub init : MarketContext
init = record {
  current_price = none;
  outcome_prices = [];
  window_5m = no_trades;
  window_15m = no_trades;
  window_1h = no_trades;
  window_4h = no_trades;
  window_24h = no_trades;
  price_history = [];
  volume_history = [];
  whale_buy_volume_1h = 0;
  whale_sell_volume_1h = 0;
  last_event_timestamp = none;
}

-- `ts < now - span`
abbrev pub is_older : ℕ → ℕ → ℕ → Bool
is_older now span ts = ltb (ts + span) now

-- the loop over the volume history, for the window of one length
unfoldable pub subtract_old : ℕ → ℕ → List Stamped → Window → Window
subtract_old now span [] w = w
subtract_old now span ((ts, size) ∷ history) w =
    subtract_old now span history
      (if is_older now span ts then record { volume = w.volume - size; count = w.count - 1 } else w)

-- `while history and history[0] is old: history.pop(0)`
unfoldable pub drop_old : ℕ → ℕ → List Stamped → List Stamped
drop_old now span [] = []
drop_old now span ((ts, x) ∷ history) =
    let rest = drop_old now span history in if is_older now span ts then rest else (ts, x) ∷ history

-- `_prune_windows`
unfoldable pub prune_windows : ℕ → MarketContext → MarketContext
unfolding subtract_old drop_old
prune_windows now m = record m {
  price_history = drop_old now 3600000 m.price_history;
  window_5m = subtract_old now 300000 m.volume_history m.window_5m;
  window_15m = subtract_old now 900000 m.volume_history m.window_15m;
  window_1h = subtract_old now 3600000 m.volume_history m.window_1h;
  window_4h = subtract_old now 14400000 m.volume_history m.window_4h;
  window_24h = subtract_old now 86400000 m.volume_history m.window_24h;
  volume_history = drop_old now 300000 m.volume_history;
}

unfoldable pub add_trade : ℕ → Window → Window
add_trade size w = record { volume = w.volume + size; count = w.count + 1 }

-- a trade of 500 or more
unfoldable pub is_whale : ℕ → Bool
is_whale size = leb 50000000000 size

-- `update_trade`; `whale_pressure` is computed from the two whale volumes and is left out
unfoldable pub update_trade : TradeEvent → MarketContext → MarketContext
unfolding prune_windows add_trade is_whale
update_trade e m =
    let seen : MarketContext = record m {
      last_event_timestamp = some e.timestamp;
      current_price = some e.price;
      outcome_prices = insert e.side e.price m.outcome_prices;
      price_history = m.price_history ++ (e.timestamp, e.price) ∷ [];
      volume_history = m.volume_history ++ (e.timestamp, e.size) ∷ [];
    } in
    let pruned = prune_windows e.timestamp seen in
    record pruned {
      window_5m = add_trade e.size pruned.window_5m;
      window_15m = add_trade e.size pruned.window_15m;
      window_1h = add_trade e.size pruned.window_1h;
      window_4h = add_trade e.size pruned.window_4h;
      window_24h = add_trade e.size pruned.window_24h;
      whale_buy_volume_1h =
          if is_whale e.size
          then (if e.is_buy
              then pruned.whale_buy_volume_1h + e.size
              else pruned.whale_buy_volume_1h)
          else pruned.whale_buy_volume_1h;
      whale_sell_volume_1h =
          if is_whale e.size
          then (if e.is_buy
              then pruned.whale_sell_volume_1h
              else pruned.whale_sell_volume_1h + e.size)
          else pruned.whale_sell_volume_1h;
    }

-- the context after some trades, the last one first
unfoldable pub replay : List TradeEvent → MarketContext
replay [] = init
replay (e ∷ es) = update_trade e (replay es)
