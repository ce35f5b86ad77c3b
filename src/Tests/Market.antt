-- ===== src/Tests/Market.antt =====
-- Replays of backend/app/replay/market_state.py over concrete trades.
use polymarket_agent.Common.{◌≡◌, true, [], ◌∷◌, arith, List, length}
use polymarket_agent.Market.{TradeEvent, replay}
use polymarket_agent.Market.Windows.{within, volume_of}
use polymarket_agent.Market.Replay.{HoldsAll, replay_window_5m, replay_busy}

abbrev early : TradeEvent
early = record { timestamp = 1000; price = 50; size = 7; side = 1; is_buy = true }

abbrev late : TradeEvent
late = record early { timestamp = 400000; size = 5 }

abbrev trades : List TradeEvent
trades = late ∷ early ∷ []

replay_window_5m_example :
    ((replay trades).window_5m.volume ≡ volume_of (within 400000 300000 trades))
    × ((replay trades).window_5m.count ≡ length (within 400000 300000 trades))
replay_window_5m_example = replay_window_5m trades (omega arith)

replay_busy_example :
    HoldsAll trades (replay trades).window_15m
    × HoldsAll trades (replay trades).window_1h
    × HoldsAll trades (replay trades).window_4h
    × HoldsAll trades (replay trades).window_24h
replay_busy_example = replay_busy trades (omega arith) (omega arith)
