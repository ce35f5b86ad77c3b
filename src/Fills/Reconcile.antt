-- ===== src/Fills/Reconcile.antt =====
-- `ReconciliationService` of backend/app/services/execution/reconciliation_service.py.
use polymarket_agent.Common.{
  ℕ, ◌-◌, ◌==◌, Bool, true, false, Option, none, some, not, ◌&&◌, List, [], ◌∷◌, ltb, if◌then◌else◌,
  get_or, keep, is_some,
}
use polymarket_agent.DeadLetters
use polymarket_agent.DeadLetters.{Stream}
use polymarket_agent.Fills.Model.{
  Order, FillRow, Store, Handling, OrderStatus, order_filled, order_cancelled, order_failed,
  other_status, find_order, change_order, next_num, add_fill, status_code,
}

-- What `get_order` of the client does: it raises with a text, answers nothing, or answers a status in small
-- letters, a filled size and an average price.
pub data Answer : Type 0 where
  fetch_raises : ℕ → Answer
  nothing : Answer
  clob_state : OrderStatus → Option ℕ → Option ℕ → Answer

abbrev pub reconciliation : ℕ
reconciliation = 1

abbrev pub fetch_failed : ℕ
fetch_failed = 2

unfoldable pub is_final : OrderStatus → Bool
is_final s = elim s [
  | order_filled ↦ true
  | order_cancelled ↦ true
  | order_failed ↦ true
  | _ ↦ false
]

-- the first `if` on the status
unfoldable pub adopt_status : OrderStatus → Order → Order
unfolding is_final
adopt_status clob_status o =
    if not (status_code clob_status == status_code o.status) && is_final clob_status
    then record o { status = clob_status }
    else o

-- the fill for what is missing
unfoldable pub missing_fill : ℕ → ℕ → ℕ → Order → List FillRow → FillRow
missing_fill now filled price o fills = record {
  exchange_order_id = o.id;
  trade_id = o.trade_id;
  market_id = o.market_id;
  fill_num = next_num o.id fills;
  clob_fill_id = none;
  is_buy = o.is_buy;
  outcome = o.outcome;
  size = filled - get_or o.filled_size 0;
  price = price;
  fee = 0;
  filled_at = now;
}

-- the check constraint `ck_exchange_orders_status` of models/exchange_order.py
unfoldable pub is_allowed_status : OrderStatus → Bool
is_allowed_status s = elim s [ other_status text ↦ false | _ ↦ true ]

-- the order with the size that the exchange has filled
unfoldable pub restore_order : OrderStatus → ℕ → FillRow → Order → Order
restore_order clob_status filled f o = record o {
  filled_size = some filled;
  filled_price = some f.price;
  status = clob_status;
  filled_at = some f.filled_at;
}

module _ (divide : ℕ → ℕ → ℕ) (handling : FillRow → Handling) (trim : Stream → Stream)
    (now : ℕ) where
  -- `reconcile_order` with a state of the exchange. A restored order with a status that the table does not
  -- allow is rejected by the next flush: the call raises, and the changes are rolled back.
  unfoldable pub reconcile_with : OrderStatus → ℕ → ℕ → Order → Store → Bool × Store
  unfolding adopt_status missing_fill restore_order change_order is_allowed_status
  reconcile_with clob_status filled price o s =
      let s' = record s { orders = change_order (adopt_status clob_status) o.id s.orders } in
      let f = missing_fill now filled price o s.fills in
      if ltb (get_or o.filled_size 0) filled
      then (if is_allowed_status clob_status
          then add_fill divide handling (restore_order clob_status filled f) f s'
          else (false, s))
      else (true, s')

  -- `reconcile_order` after the call of the client; the flag says whether it returns. Where the exchange
  -- answers nothing, the call of `clob_state.get` raises.
  unfoldable pub reconcile_answer : Answer → Order → Store → Bool × Store
  unfolding reconcile_with
  reconcile_answer (fetch_raises error) o s = (
    true,
    record s { queue = DeadLetters.push trim now reconciliation fetch_failed o.id error s.queue },
  )
  reconcile_answer nothing o s = (false, s)
  reconcile_answer (clob_state status filled price) o s =
      reconcile_with status (get_or filled 0) (get_or price 0) o s

  -- `reconcile_order`
  unfoldable pub reconcile_order : (ℕ → Answer) → Order → Store → Bool × Store
  unfolding reconcile_answer
  reconcile_order get_order o s = elim o.clob_order_id [
    | none ↦ (true, s)
    | some clob ↦ reconcile_answer (get_order clob) o s
  ]

  -- the order with an id, which the session has
  unfoldable pub reconcile_id : (ℕ → Answer) → ℕ → Store → Bool × Store
  unfolding reconcile_order find_order
  reconcile_id get_order id s = elim (find_order (λ o. o.id == id) s.orders) [
    | none ↦ (true, s)
    | some o ↦ reconcile_order get_order o s
  ]

  -- the loop of `reconcile_all_submitted`, which goes on after an exception
  unfoldable pub reconcile_each : (ℕ → Answer) → List Order → Store → Store
  unfolding reconcile_id
  reconcile_each get_order [] s = s
  reconcile_each get_order (o ∷ os) s =
      reconcile_each get_order os (reconcile_id get_order o.id s).1

  -- `reconcile_all_submitted`
  unfoldable pub reconcile_all_submitted : (ℕ → Answer) → Store → Store
  unfolding reconcile_each
  reconcile_all_submitted get_order s =
      reconcile_each get_order (keep (λ o. o.is_live && is_some o.clob_order_id) s.orders) s
