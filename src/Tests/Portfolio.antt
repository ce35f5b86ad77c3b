-- ===== src/Tests/Portfolio.antt =====
-- Fills of backend/app/services/portfolio_service.py over concrete tables.
use polymarket_agent.Common.{false, ◌≡◌, refl, true, some, none, [], arith, List, if◌then◌else◌}
use polymarket_agent.Capital.{half_even}
use polymarket_agent.Portfolio.{
  Fill, Position, new_position, upsert_from_fill, apply_fill, direction_of, same_market,
}
use polymarket_agent.Portfolio.Books.{Reach, empty, filled}
use polymarket_agent.Common.Int.{pos}
use polymarket_agent.Portfolio.Net.{net, ledger, is_oversized, net-upsert_from_fill}

abbrev pub buys : Fill
buys = record { market_id = some 3; is_buy = true; size = 200; price = 40; filled_at = 10 }

abbrev more : Fill
more = record buys { size = 100; price = 70 }

abbrev position : Position
position = record {
  id = 1;
  market_id = some 3;
  direction = polymarket_agent.Portfolio.buy;
  size = 200;
  entry_price = 40;
  current_price = some 40;
  unrealized_pnl = none;
  realized_pnl = none;
  status = polymarket_agent.Portfolio.open_position_status;
  strategy_name = none;
  opened_at = 10;
  closed_at = none;
}

same_direction : direction_of more ≡ position.direction
unfolding direction_of
same_direction = refl

abbrev pub table : List Position
table = upsert_from_fill half_even 1 buys []

pub table-Reach : Reach half_even table
table-Reach = filled 1 buys empty (omega arith)

-- a sale of 500 against the 200 that are held leaves nothing, and 300 are lost
abbrev oversold : Fill
oversold = record buys { is_buy = false; size = 500 }

net-upsert_from_fill_example : net (some 3) (upsert_from_fill half_even 2 oversold table) ≡ (
    if same_market (some 3) (some 3)
    then (if is_oversized (net (some 3) table) oversold
        then pos 0
        else ledger (net (some 3) table) oversold)
    else net (some 3) table)
net-upsert_from_fill_example =
    net-upsert_from_fill half_even 2 oversold (some 3) table-Reach (omega arith)
