-- ===== src/Portfolio.antt =====
-- Positions of `PortfolioService` in backend/app/services/portfolio_service.py: `upsert_from_fill`,
-- `open_position`, `close_position`, `update_position_price` and `get_open_positions`, with the columns
-- of backend/app/models/portfolio.py that they use. Sizes and prices are in units of the eighth
-- decimal and results in units of the sixteenth; neither sizes nor prices are negative. Floating point
-- rounding is not modelled, but for the quotient of an average price, which is an argument. The table
-- is a list in the order in which the rows were added.
pub mod Laws
pub mod Books
pub mod Net
use polymarket_agent.Common.{
  ℕ, ◌+◌, ◌-◌, ◌*◌, Bool, true, false, Option, none, some, ◌&&◌, not, List, [], ◌∷◌, ◌++◌, ◌==◌,
  ltb, leb, if◌then◌else◌, keep, get_or,
}
use polymarket_agent.Common.Int.{ℤ, pos, sub_ℕ}

pub data Direction : Type 0 where
  buy sell yes_outcome no_outcome : Direction

pub data PositionStatus : Type 0 where
  open_position_status closed_position_status : PositionStatus

pub record Position : Type 0 where
  pub id : ℕ
  pub market_id : Option ℕ
  pub direction : Direction
  pub size : ℕ
  pub entry_price : ℕ
  pub current_price : Option ℕ
  pub unrealized_pnl : Option ℤ
  pub realized_pnl : Option ℤ
  pub status : PositionStatus
  pub strategy_name : Option ℕ
  pub opened_at : ℕ
  pub closed_at : Option ℕ

-- `side.upper()` is "BUY" or "SELL"
pub record Fill : Type 0 where
  pub market_id : Option ℕ
  pub is_buy : Bool
  pub size : ℕ
  pub price : ℕ
  pub filled_at : ℕ

unfoldable pub direction_of : Fill → Direction
direction_of f = if f.is_buy then buy else sell

unfoldable pub direction_index : Direction → ℕ
direction_index buy = 0
direction_index sell = 1
direction_index yes_outcome = 2
direction_index no_outcome = 3

unfoldable pub is_open : Position → Bool
is_open p = elim p.status [ open_position_status ↦ true | closed_position_status ↦ false ]

-- `market_id == fill.market_id`, where NULL matches NULL
unfoldable pub same_market : Option ℕ → Option ℕ → Bool
same_market none none = true
same_market (some m) (some n) = m == n
same_market _ _ = false

-- a row that the query of `upsert_from_fill` may give; where there are several, it is the first here
unfoldable pub is_match : Fill → Position → Bool
is_match f p = same_market p.market_id f.market_id && is_open p

unfoldable pub new_position : ℕ → Fill → Position
new_position id f = record {
  id = id;
  market_id = f.market_id;
  direction = direction_of f;
  size = f.size;
  entry_price = f.price;
  current_price = some f.price;
  unrealized_pnl = none;
  realized_pnl = none;
  status = open_position_status;
  strategy_name = none;
  opened_at = f.filled_at;
  closed_at = none;
}

-- (price - entry) * size, or the other way round
abbrev pub gain : ℕ → ℕ → ℕ → ℤ
gain price entry size = sub_ℕ (price * size) (entry * size)

module _ (divide : ℕ → ℕ → ℕ) where
  -- what a fill in the direction of the position makes of it
  unfoldable pub increase : Fill → Position → Position
  increase f p =
      let total_cost = p.size * p.entry_price + f.size * f.price in
      let new_size = p.size + f.size in
      record p {
        entry_price = if ltb 0 new_size then divide total_cost new_size else p.entry_price;
        size = new_size;
      }

  -- what a fill against it makes of it
  unfoldable pub decrease : Fill → Position → Position
  decrease f p =
      if leb p.size f.size
      then record p {
        realized_pnl = some (
            if direction_index p.direction == 0
            then gain f.price p.entry_price p.size
            else gain p.entry_price f.price p.size);
        status = closed_position_status;
        size = 0;
        closed_at = some f.filled_at;
      }
      else record p { size = p.size - f.size }

  -- the branch of `upsert_from_fill` for a position that is there
  unfoldable pub apply_fill : Fill → Position → Position
  unfolding increase decrease
  apply_fill f p =
      let p' =
        if direction_index (direction_of f) == direction_index p.direction
        then increase f p
        else decrease f p in
      record p' { current_price = some f.price }

  -- `upsert_from_fill`; `id` is the id of a new row
  unfoldable pub upsert_from_fill : ℕ → Fill → List Position → List Position
  unfolding apply_fill new_position is_match
  upsert_from_fill id f [] = new_position id f ∷ []
  upsert_from_fill id f (p ∷ ps) =
      let rest = upsert_from_fill id f ps in if is_match f p then apply_fill f p ∷ ps else p ∷ rest

-- `open_position`, where `market_id` is what the query for the market gives
unfoldable pub open_position :
    ℕ → Option ℕ → Direction → ℕ → ℕ → Option ℕ → ℕ → List Position → List Position
open_position id market_id direction size entry_price strategy_name now ps =
    ps
    ++ record {
      id = id;
      market_id = market_id;
      direction = direction;
      size = size;
      entry_price = entry_price;
      current_price = some entry_price;
      unrealized_pnl = none;
      realized_pnl = none;
      status = open_position_status;
      strategy_name = strategy_name;
      opened_at = now;
      closed_at = none;
    }
      ∷ []

-- `price_move * size`, with the sign turned for "NO"
unfoldable pub pnl_at : ℕ → Position → ℤ
pnl_at price p =
    if direction_index p.direction == 3
    then gain p.entry_price price p.size
    else gain price p.entry_price p.size

unfoldable pub close_at : ℕ → ℕ → Position → Position
unfolding pnl_at
close_at exit_price now p = record p {
  realized_pnl = some (pnl_at exit_price p);
  current_price = some exit_price;
  unrealized_pnl = some (pos 0);
  status = closed_position_status;
  closed_at = some now;
}

unfoldable pub reprice : ℕ → Position → Position
unfolding pnl_at
reprice price p = record p { current_price = some price; unrealized_pnl = some (pnl_at price p) }

-- a change of the row with an id, unless it is closed; the flag says whether there is such a row
unfoldable pub change_open : (Position → Position) → ℕ → List Position → Bool × List Position
change_open change id [] = (false, [])
change_open change id (p ∷ ps) =
    let (found, rest) = change_open change id ps in
    if p.id == id then (is_open p, (if is_open p then change p else p) ∷ ps) else (found, p ∷ rest)

-- `close_position`; `false` is a return of `None`
unfoldable pub close_position : ℕ → ℕ → ℕ → List Position → Bool × List Position
close_position id exit_price now ps = change_open (close_at exit_price now) id ps

-- `update_position_price`
unfoldable pub update_position_price : ℕ → ℕ → List Position → Bool × List Position
update_position_price id price ps = change_open (reprice price) id ps

-- `get_open_positions`, without its order and its filter by strategy
unfoldable pub get_open_positions : List Position → List Position
get_open_positions ps = keep is_open ps
