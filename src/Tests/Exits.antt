-- ===== src/Tests/Exits.antt =====
-- Exits of backend/app/services/exit_engine.py at concrete tables.
use polymarket_agent.Common.{◌≡◌, ◌↔◌, ◌⊎◌, ℕ, refl, true, false, some, none, [], ◌∷◌}
use polymarket_agent.Exits.Model.{
  Tables, ExitTrade, Number, decimal, float, stop_loss, take_profit, exit, decides, type_error,
  fill_price, get_outcome_price,
}
use polymarket_agent.Exits.Engine.{evaluate, total_exits, reset_stats}
use polymarket_agent.Exits.Laws.{evaluate_type_error}

-- the price falls from 0.8 to 0.4
abbrev fallen : Tables
fallen = record {
  events =
      record { market_id = 3; is_price = true; timestamp = 500; price = some 40000000; size = none }
      ∷ [];
  correlations = [];
}

abbrev trade : ExitTrade
trade = record {
  is_active = true;
  market_id = some 3;
  is_no = false;
  is_sell = false;
  filled_price = some 80000000;
  price = none;
  entry_timestamp = some 100;
}

-- half of the value is lost, and the stop loss is not reached
raises : (evaluate 600 none fallen trade reset_stats).0 ≡ type_error
unfolding evaluate
raises = refl

-- a trade without a price is taken at 0.5
stops :
    (evaluate 600 none fallen (record trade { filled_price = none }) reset_stats).0
    ≡ decides (exit stop_loss (float 40000000))
unfolding evaluate
stops = refl

evaluate_type_error_example :
    let result = (evaluate 600 none fallen trade reset_stats).0 in
    ((result ≡ type_error) ↔ (
      (true ≡ true)
      × ((n : ℕ) × (fill_price trade ≡ decimal n))
      × ((p : ℕ) × (get_outcome_price trade fallen.events ≡ some p))))
    × ((p : Number)
        → (result ≡ decides (exit stop_loss p)) ⊎ (result ≡ decides (exit take_profit p))
        → fill_price trade ≡ float 50000000)
evaluate_type_error_example = evaluate_type_error 600 none fallen trade reset_stats

counts_none : reset_stats.forced_exit_count ≡ total_exits reset_stats
unfolding reset_stats total_exits
counts_none = refl
