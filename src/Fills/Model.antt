-- ===== src/Fills/Model.antt =====
-- The rows of exchange orders and fills (backend/app/models/exchange_order.py, backend/app/models/fill.py), what
-- the services share, and `process_fill` of backend/app/services/execution/fill_handler.py.
use polymarket_agent.Common.{
  ℕ, ◌+◌, ◌==◌, Bool, true, false, Option, none, some, List, [], ◌∷◌, ◌++◌, ltb, if◌then◌else◌,
  keep, length,
}
use polymarket_agent.Portfolio
use polymarket_agent.Portfolio.{Position, upsert_from_fill}
use polymarket_agent.DeadLetters.{Queue}

pub data OrderStatus : Type 0 where
  order_pending order_submitted order_filled order_partially_filled order_cancelled order_failed :
      OrderStatus
  other_status : ℕ → OrderStatus

unfoldable pub status_code : OrderStatus → ℕ
status_code order_pending = 0
status_code order_submitted = 1
status_code order_filled = 2
status_code order_partially_filled = 3
status_code order_cancelled = 4
status_code order_failed = 5
status_code (other_status n) = 6 + n

-- An `ExchangeOrder`; `market_id` is that of its trade.
pub record Order : Type 0 where
  pub id : ℕ
  pub trade_id : ℕ
  pub market_id : Option ℕ
  pub clob_order_id : Option ℕ
  pub is_live : Bool
  pub status : OrderStatus
  pub is_buy : Bool
  pub outcome : Option ℕ
  pub size : ℕ
  pub filled_size : Option ℕ
  pub filled_price : Option ℕ
  pub fee : Option ℕ
  pub filled_at : Option ℕ
  pub retry_count : ℕ
  pub is_abandoned : Bool
  pub submitted_at : Option ℕ
  pub created_at : ℕ

-- A `Fill`.
pub record FillRow : Type 0 where
  pub exchange_order_id : ℕ
  pub trade_id : ℕ
  pub market_id : Option ℕ
  pub fill_num : ℕ
  pub clob_fill_id : Option ℕ
  pub is_buy : Bool
  pub outcome : Option ℕ
  pub size : ℕ
  pub price : ℕ
  pub fee : ℕ
  pub filled_at : ℕ

-- The tables and the dead letters.
pub record Store : Type 0 where
  pub orders : List Order
  pub fills : List FillRow
  pub positions : List Position
  pub queue : Queue

-- What becomes of a fill outside the tables: `process_fill` ends, or it raises before or after the position
-- is changed.
pub data Handling : Type 0 where
  handled fails_before fails_after : Handling

abbrev pub is_id : ℕ → Option ℕ → Bool
is_id n none = false
is_id n (some m) = n == m

-- the row of an order that is found by a query
unfoldable pub find_order : (Order → Bool) → List Order → Option Order
find_order test [] = none
find_order test (o ∷ os) = let rest = find_order test os in if test o then some o else rest

-- the attributes of the row with a primary key
unfoldable pub change_order : (Order → Order) → ℕ → List Order → List Order
change_order change id [] = []
change_order change id (o ∷ os) = (if o.id == id then change o else o) ∷ change_order change id os

unfoldable pub fills_of : ℕ → List FillRow → List FillRow
fills_of id fills = keep (λ f. f.exchange_order_id == id) fills

-- the greatest `fill_num`
unfoldable pub last_num : List FillRow → ℕ
last_num [] = 0
last_num (f ∷ fs) = let rest = last_num fs in if ltb rest f.fill_num then f.fill_num else rest

-- `(last_fill.fill_num + 1) if last_fill else 1`
unfoldable pub next_num : ℕ → List FillRow → ℕ
unfolding fills_of last_num
next_num id fills = elim (fills_of id fills) [ [] ↦ 1 | f ∷ fs ↦ last_num (f ∷ fs) + 1 ]

-- what `upsert_from_fill` reads of a fill
unfoldable pub portfolio_fill : FillRow → Portfolio.Fill
portfolio_fill f = record {
  market_id = f.market_id;
  is_buy = f.is_buy;
  size = f.size;
  price = f.price;
  filled_at = f.filled_at;
}

module _ (divide : ℕ → ℕ → ℕ) (handling : FillRow → Handling) where
  unfoldable pub upserted : FillRow → Store → Store
  unfolding portfolio_fill
  upserted f s = record s {
    positions = upsert_from_fill divide (length s.fills) (portfolio_fill f) s.positions;
  }

  -- `process_fill`; the flag says whether it returns
  unfoldable pub process_fill : FillRow → Store → Bool × Store
  unfolding upserted
  process_fill f s = elim (handling f) [
    | handled ↦ (true, upserted f s)
    | fails_before ↦ (false, s)
    | fails_after ↦ (false, upserted f s)
  ]

  -- a fill that is added with a change of its order, and processed
  unfoldable pub add_fill : (Order → Order) → FillRow → Store → Bool × Store
  unfolding process_fill change_order
  add_fill change f s = process_fill f (record s {
    orders = change_order change f.exchange_order_id s.orders;
    fills = s.fills ++ f ∷ [];
  })
