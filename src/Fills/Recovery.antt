-- ===== src/Fills/Recovery.antt =====
-- `OrderRecoveryService` of backend/app/services/recovery/order_recovery_service.py. Times are in microseconds
-- and the clock is read once in a scan; the audit trail does not raise.
use polymarket_agent.Common.{
  ℕ, ◌+◌, ◌*◌, ◌==◌, Bool, true, false, Option, none, some, not, ◌&&◌, List, [], ◌∷◌, ltb, leb,
  if◌then◌else◌, get_or, keep, length, is_some,
}
use polymarket_agent.DeadLetters.{Stream}
use polymarket_agent.Incidents.{Incidents, create_from_alert}
use polymarket_agent.Fills.Model.{
  Order, FillRow, Store, Handling, OrderStatus, order_pending, order_submitted,
  order_partially_filled, order_cancelled, change_order, find_order,
}
use polymarket_agent.Fills.Reconcile.{Answer, reconcile_order}

abbrev pub minutes : ℕ → ℕ
minutes n = n * 60000000

abbrev pub max_retry_threshold : ℕ
max_retry_threshold = 3

-- The answer of `run_scan`; `skipped` is the answer that a scan has just been.
pub data Report : Type 0 where
  skipped : Report
  scanned : ℕ → ℕ → ℕ → ℕ → Report

-- What a scan changes: the tables, the incidents and the set of abandoned orders in Redis, which is `none`
-- where Redis does not answer, and what it counts. `next_incident` is the next id of an incident.
pub record Scan : Type 0 where
  pub store : Store
  pub incidents : Incidents
  pub next_incident : ℕ
  pub abandoned_set : Option (List ℕ)
  pub recovered : ℕ
  pub incidents_created : ℕ
  pub abandoned : ℕ

-- what a scan does with an order
pub data Action : Type 0 where
  abandon leave_alone reconcile count_incident : Action

-- `Order.status.in_(["pending", "submitted", "partially_filled"])`
unfoldable pub is_scanned : Order → Bool
is_scanned o = elim o.status [
  | order_pending ↦ true
  | order_submitted ↦ true
  | order_partially_filled ↦ true
  | _ ↦ false
]

abbrev pub is_pending : OrderStatus → Bool
is_pending order_pending = true
is_pending _ = false

-- the branches of the loop; `window` is that of the scan
unfoldable pub action_of : ℕ → ℕ → Order → Action
action_of now window o =
    let is_new : Bool = elim o.submitted_at [
      | none ↦ false
      | some at ↦ leb now (at + minutes window)
    ] in
    let since = get_or o.submitted_at o.created_at in
    if leb max_retry_threshold o.retry_count
    then abandon
    else if is_new
    then leave_alone
    else if o.is_live && is_some o.clob_order_id
    then reconcile
    else if not (is_pending o.status)
    then leave_alone
    else if ltb (since + minutes window + minutes 30) now
    then abandon
    else count_incident

unfoldable pub abandoned_order : Order → Order
abandoned_order o = record o { status = order_cancelled; is_abandoned = true }

-- `_mark_abandoned`, and the count of it
unfoldable pub mark_abandoned : Order → Scan → Scan
unfolding abandoned_order change_order
mark_abandoned o s = record s {
  store = record s.store { orders = change_order abandoned_order o.id s.store.orders };
  abandoned_set = elim s.abandoned_set [ none ↦ none | some ids ↦ some (o.id ∷ ids) ];
  abandoned = s.abandoned + 1;
}

-- `_create_recovery_incident`, whose alert has no id, and the count of it
unfoldable pub create_recovery_incident : ℕ → ℕ → Scan → Scan
create_recovery_incident now no_alert_id s = record s {
  incidents = create_from_alert s.next_incident now no_alert_id s.incidents;
  next_incident = s.next_incident + 1;
  incidents_created = s.incidents_created + 1;
}

-- a scan that is not forced, within five minutes of the last one
unfoldable pub is_skipped : ℕ → Bool → Option ℕ → Bool
is_skipped now force last_scan =
    let recent : Bool = elim last_scan [ none ↦ false | some at ↦ ltb now (at + minutes 5) ] in
    not force && recent

module _ (divide : ℕ → ℕ → ℕ) (handling : FillRow → Handling) (trim : Stream → Stream)
    (get_order : ℕ → Answer) (now no_alert_id : ℕ) where
  -- `_reconcile_live_order`, and what follows it
  unfoldable pub reconcile_live_order : Order → Scan → Scan
  unfolding create_recovery_incident
  reconcile_live_order o s =
      let (ok, store) = reconcile_order divide handling trim now get_order o s.store in
      let s' = record s { store = store } in
      if ok
      then record s' { recovered = s.recovered + 1 }
      else create_recovery_incident now no_alert_id s'

  unfoldable pub act : Action → Order → Scan → Scan
  unfolding mark_abandoned reconcile_live_order
  act abandon o s = mark_abandoned o s
  act leave_alone o s = s
  act reconcile o s = reconcile_live_order o s
  act count_incident o s = record s { incidents_created = s.incidents_created + 1 }

  -- the body of the loop
  unfoldable pub scan_order : ℕ → Order → Scan → Scan
  unfolding action_of act
  scan_order window o s = act (action_of now window o) o s

  -- the order with an id, which the session has
  unfoldable pub scan_id : ℕ → ℕ → Scan → Scan
  unfolding scan_order find_order
  scan_id window id s = elim (find_order (λ o. o.id == id) s.store.orders) [
    | none ↦ s
    | some o ↦ scan_order window o s
  ]

  -- the loop over the orders
  unfoldable pub scan_orders : ℕ → List Order → Scan → Scan
  unfolding scan_id
  scan_orders window [] s = s
  scan_orders window (o ∷ os) s = scan_orders window os (scan_id window o.id s)

  -- `run_scan`; the time of the last scan is that in Redis, where it is there and can be read. The answer
  -- comes with the new time, which is written where Redis answers.
  unfoldable pub run_scan : ℕ → Bool → Option ℕ → Scan → Report × Option ℕ × Scan
  unfolding is_skipped is_scanned scan_orders
  run_scan window force last_scan s =
      let orders = keep is_scanned s.store.orders in
      let start = record s { recovered = 0; incidents_created = 0; abandoned = 0 } in
      let s' = scan_orders window orders start in
      if is_skipped now force last_scan then (skipped, last_scan, s) else (
        scanned (length orders) s'.recovered s'.incidents_created s'.abandoned,
        if is_some s.abandoned_set then some now else last_scan,
        s',
      )
