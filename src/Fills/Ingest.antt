-- ===== src/Fills/Ingest.antt =====
-- `FillIngestionService` of backend/app/services/execution/fill_ingestion_service.py, and `_poll_cycle` of
-- backend/app/workers/clob_fill_poller.py.
use polymarket_agent.Common.{
  ℕ, ◌+◌, Bool, true, false, Option, none, some, ◌&&◌, List, [], ◌∷◌, leb, if◌then◌else◌, get_or,
  keep, any, is_some,
}
use polymarket_agent.DeadLetters
use polymarket_agent.DeadLetters.{Stream}
use polymarket_agent.Fills.Model.{
  Order, FillRow, Store, Handling, order_filled, order_partially_filled, order_submitted, is_id,
  find_order, next_num, add_fill,
}

-- An event of the exchange, by the keys that are read, where an empty text is no value. Of a time it says
-- what `fromisoformat` makes of the text, `none` for a `ValueError`. `raw` is the event as a whole.
pub record Event : Type 0 where
  pub raw : ℕ
  pub id : Option ℕ
  pub fill_id : Option ℕ
  pub trade_id : Option ℕ
  pub order_id : Option ℕ
  pub order_id_camel : Option ℕ
  pub is_buy : Option Bool
  pub outcome : Option ℕ
  pub size : Option ℕ
  pub price : Option ℕ
  pub fee : Option ℕ
  pub timestamp : Option (Option ℕ)
  pub created_at : Option (Option ℕ)
  pub fill_time : Option (Option ℕ)

-- `a or b`
abbrev pub or_else : {A : Type 0} → Option A → Option A → Option A
or_else none b = b
or_else (some a) b = some a

unfoldable pub clob_fill_id_of : Event → Option ℕ
clob_fill_id_of e = or_else e.id (or_else e.fill_id e.trade_id)

unfoldable pub clob_order_id_of : Event → Option ℕ
clob_order_id_of e = or_else e.order_id e.order_id_camel

unfoldable pub filled_at_of : ℕ → Event → ℕ
filled_at_of now e = elim (or_else e.timestamp (or_else e.created_at e.fill_time)) [
  | none ↦ now
  | some parsed ↦ get_or parsed now
]

-- the fill of an event, for its order
unfoldable pub new_fill : ℕ → ℕ → Event → Order → List FillRow → FillRow
unfolding filled_at_of
new_fill now clob_fill_id e o fills = record {
  exchange_order_id = o.id;
  trade_id = o.trade_id;
  market_id = o.market_id;
  fill_num = next_num o.id fills;
  clob_fill_id = some clob_fill_id;
  is_buy = get_or e.is_buy o.is_buy;
  outcome = or_else e.outcome o.outcome;
  size = get_or e.size 0;
  price = get_or e.price 0;
  fee = get_or e.fee 0;
  filled_at = filled_at_of now e;
}

-- what a fill makes of its order
unfoldable pub fill_order : FillRow → Order → Order
fill_order f o =
    let filled = get_or o.filled_size 0 + f.size in
    record o {
      filled_size = some filled;
      filled_price = some f.price;
      fee = some (get_or o.fee 0 + f.fee);
      status = if leb o.size filled then order_filled else order_partially_filled;
      filled_at = some f.filled_at;
    }

-- whether there is a fill with an id of the exchange
unfoldable pub is_ingested : ℕ → List FillRow → Bool
is_ingested id fills = any (λ f. is_id id f.clob_fill_id) fills

-- The domain and the kinds of the dead letters; the text of the last one names the order.
abbrev pub fill_ingestion : ℕ
fill_ingestion = 0

abbrev pub missing_id : ℕ
missing_id = 0

abbrev pub unknown_order : ℕ
unknown_order = 1

abbrev pub no_clob_fill_id : ℕ
no_clob_fill_id = 0

abbrev pub no_exchange_order : ℕ → ℕ
no_exchange_order clob_order_id = 1 + clob_order_id

-- the orders that a cycle asks for
unfoldable pub is_polled : Order → Bool
is_polled o =
    let is_active : Bool = elim o.status [
      | order_submitted ↦ true
      | order_partially_filled ↦ true
      | _ ↦ false
    ] in
    o.is_live && is_some o.clob_order_id && is_active

module _ (divide : ℕ → ℕ → ℕ) (handling : FillRow → Handling) (trim : Stream → Stream)
    (now : ℕ) where
  unfoldable pub dead_letter : ℕ → ℕ → Event → Store → Store
  dead_letter kind error e s = record s {
    queue = DeadLetters.push trim now fill_ingestion kind e.raw error s.queue;
  }

  -- `_ingest_single` for an event with an id that is new
  unfoldable pub ingest_new : ℕ → Event → Store → Bool × Store
  unfolding dead_letter new_fill fill_order find_order clob_order_id_of
  ingest_new clob_fill_id e s = elim (clob_order_id_of e) [
    | none ↦ (true, s)
    | some order ↦ elim (find_order (λ o. is_id order o.clob_order_id) s.orders) [
      | none ↦ (true, dead_letter unknown_order (no_exchange_order order) e s)
      | some o ↦
          let f = new_fill now clob_fill_id e o s.fills in
          add_fill divide handling (fill_order f) f s
    ]
  ]

  -- `_ingest_single`; the flag says whether it returns
  unfoldable pub ingest_single : Event → Store → Bool × Store
  unfolding ingest_new dead_letter is_ingested clob_fill_id_of
  ingest_single e s = elim (clob_fill_id_of e) [
    | none ↦ (true, dead_letter missing_id no_clob_fill_id e s)
    | some id ↦ if is_ingested id s.fills then (true, s) else ingest_new id e s
  ]

  -- `ingest_clob_fills`, which an exception ends
  unfoldable pub ingest_clob_fills : List Event → Store → Bool × Store
  unfolding ingest_single
  ingest_clob_fills [] s = (true, s)
  ingest_clob_fills (e ∷ es) s =
      let (ok, s') = ingest_single e s in
      let rest = ingest_clob_fills es s' in if ok then rest else (false, s')

  -- an order of a cycle, for what `get_fills` answers, `none` for an exception: an exception rolls back the
  -- tables, but not the dead letters
  unfoldable pub poll_order : Option (List Event) → Store → Store
  unfolding ingest_clob_fills
  poll_order none s = s
  poll_order (some fills) s =
      let (ok, s') = ingest_clob_fills fills s in if ok then s' else record s { queue = s'.queue }

  -- the loop of `_poll_cycle`
  unfoldable pub poll_orders : (Order → Option (List Event)) → List Order → Store → Store
  unfolding poll_order
  poll_orders get_fills [] s = s
  poll_orders get_fills (o ∷ os) s = poll_orders get_fills os (poll_order (get_fills o) s)

  -- `_poll_cycle`
  unfoldable pub poll_cycle : (Order → Option (List Event)) → Store → Store
  unfolding poll_orders is_polled
  poll_cycle get_fills s = poll_orders get_fills (keep is_polled s.orders) s
