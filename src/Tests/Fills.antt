-- ===== src/Tests/Fills.antt =====
-- Fills over concrete tables.
use polymarket_agent.Common.{
  ◌≡◌, ◌+◌, ◌-◌, ◌/◌, ℕ, refl, true, false, some, none, [], ◌∷◌, get_or, map,
}
use polymarket_agent.DeadLetters.{Queue, Stream}
use polymarket_agent.Fills.Model.{
  Order, FillRow, Store, Handling, handled, order_submitted, order_filled, order_pending, fills_of,
  add_fill, process_fill, find_order, change_order, status_code,
}
use polymarket_agent.Fills.Ingest.{
  Event, ingest_clob_fills, ingest_single, ingest_new, poll_cycle, clob_fill_id_of,
  clob_order_id_of, is_ingested, new_fill, fill_order,
}
use polymarket_agent.Fills.Reconcile.{
  is_allowed_status, Answer, clob_state, fetch_raises, reconcile_order, reconcile_answer,
  reconcile_with, restore_order, missing_fill, adopt_status,
}
use polymarket_agent.Fills.Recovery.{
  Scan, reconcile, count_incident, action_of, scan_order, run_scan,
}
use polymarket_agent.Fills.Books.{IsBooked}
use polymarket_agent.Fills.Reach.{empty, ordered, polled, Reach-IsBooked}
use polymarket_agent.Fills.Again.{IsKnown, ingest_clob_fills_again}
use polymarket_agent.Fills.Counts.{IsFair, run_scan-IsFair, scan_order_unreachable}

abbrev quiet : Queue
quiet = record { backlog = []; stream = none; next_id = 0; retry_times = λ d. []; calls = [] }

-- an order for two in the market 3, known to the exchange as 70
abbrev order : Order
order = record {
  id = 1;
  trade_id = 2;
  market_id = some 3;
  clob_order_id = some 70;
  is_live = true;
  status = order_submitted;
  is_buy = true;
  outcome = none;
  size = 200000000;
  filled_size = none;
  filled_price = none;
  fee = none;
  filled_at = none;
  retry_count = 0;
  is_abandoned = false;
  submitted_at = some 5;
  created_at = 5;
}

-- its fill
abbrev event : Event
event = record {
  raw = 9;
  id = some 900;
  fill_id = none;
  trade_id = none;
  order_id = some 70;
  order_id_camel = none;
  is_buy = none;
  outcome = none;
  size = some 200000000;
  price = some 50000000;
  fee = none;
  timestamp = none;
  created_at = none;
  fill_time = none;
}

abbrev handling : FillRow → Handling
handling f = handled

abbrev divide : ℕ → ℕ → ℕ
divide a b = a / b

abbrev all : Stream → Stream
all s = s

abbrev store : Store
store = record { orders = order ∷ []; fills = []; positions = []; queue = quiet }

abbrev answer : ℕ → Answer
answer clob = clob_state order_filled (some 200000000) (some 50000000)

-- A fill that a reconciliation has restored is added once more when its event comes: four of two are filled.
filled_twice :
    let (returned, s) = reconcile_order divide handling all 10 answer order store in
    map
      (λ o. get_or o.filled_size 0)
      (ingest_clob_fills divide handling all 20 (event ∷ []) s).1.orders
    ≡ 400000000 ∷ []
unfolding reconcile_order reconcile_answer reconcile_with adopt_status missing_fill restore_order
    is_allowed_status add_fill process_fill change_order ingest_clob_fills ingest_single ingest_new
    clob_fill_id_of clob_order_id_of is_ingested find_order fill_order new_fill status_code
filled_twice = refl

no_fills : fills_of 1 [] ≡ []
unfolding fills_of
no_fills = refl

known : IsKnown (order ∷ []) event
unfolding IsKnown clob_fill_id_of clob_order_id_of find_order
known = (900, 70, refl, refl, refl)

returns : (ingest_clob_fills divide handling all 10 (event ∷ []) store).0 ≡ true
unfolding ingest_clob_fills ingest_single ingest_new clob_fill_id_of clob_order_id_of is_ingested
    find_order add_fill process_fill
returns = refl

-- a scan of the order two hours after it was submitted
abbrev now : ℕ
now = 7200000005

abbrev scan : Scan
scan = record {
  store = store;
  incidents = record { local = []; stored = none };
  next_incident = 1;
  abandoned_set = none;
  recovered = 0;
  incidents_created = 0;
  abandoned = 0;
}

abbrev unreachable : ℕ → Answer
unreachable clob = fetch_raises 4

reconciles : action_of now 60 order ≡ reconcile
unfolding action_of
reconciles = refl

-- 80 minutes after it came, a pending order that was never sent counts as an incident
counts :
    action_of 4800000005 60 (record order { status = order_pending; clob_order_id = none })
    ≡ count_incident
unfolding action_of
counts = refl

Reach-IsBooked_example :
    let s = poll_cycle divide handling all 10 (λ o. some (event ∷ event ∷ [])) store in
    IsBooked s.orders s.fills
Reach-IsBooked_example = Reach-IsBooked (
    polled handling 10 (λ o. some (event ∷ event ∷ []))
      (ordered order refl no_fills (empty [] quiet)))

ingest_clob_fills_again_example :
    let s = (ingest_clob_fills divide handling all 10 (event ∷ []) store).1 in
    ingest_clob_fills divide handling all 10 (event ∷ []) s ≡ (true, s)
ingest_clob_fills_again_example =
    ingest_clob_fills_again divide handling all 10 (event ∷ []) store (known, tt) returns

run_scan-IsFair_example :
    let result = run_scan divide handling all unreachable now 0 60 false none scan in
    IsFair result.0 (result.2.next_incident - 1)
run_scan-IsFair_example = run_scan-IsFair divide handling all unreachable now 0 60 false none scan

scan_order_unreachable_example :
    let s = scan_order divide handling all unreachable now 0 60 order scan in
    (s.recovered ≡ 0 + 1)
    × (s.store.orders ≡ order ∷ [])
    × (s.store.fills ≡ [])
    × (s.incidents ≡ record { local = []; stored = none })
scan_order_unreachable_example =
    scan_order_unreachable divide handling all unreachable now 0 60 order scan 4 (λ clob. refl)
      reconciles
