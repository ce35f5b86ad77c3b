-- ===== src/Fills/Reach.antt =====
-- The tables of orders and fills after any steps of backend/app/workers/clob_fill_poller.py, of
-- backend/app/services/execution/reconciliation_service.py and of
-- backend/app/services/recovery/order_recovery_service.py.
use polymarket_agent.Common.{
  ◌≡◌, ◌==◌, ℕ, Bool, Option, List, [], ◌∷◌, ◌++◌, arith, get_or, refl, All, keep, Option-cases,
  Bool-cases, inl, inr,
}
use polymarket_agent.DeadLetters.{Stream, Queue}
use polymarket_agent.Portfolio.{Position}
use polymarket_agent.Fills.Model.{Order, FillRow, Store, Handling, find_order, fills_of, last_num}
use polymarket_agent.Fills.Ingest.{Event, poll_cycle}
use polymarket_agent.Fills.Reconcile.{Answer, reconcile_all_submitted, reconcile_order}
use polymarket_agent.Fills.Recovery.{
  Scan, Action, abandon, leave_alone, reconcile, count_incident, action_of, abandoned_order,
  mark_abandoned, create_recovery_incident, reconcile_live_order, act, scan_order, scan_id,
  scan_orders, is_scanned, is_skipped, run_scan,
}
use polymarket_agent.Fills.Books.{IsBooked, total_size, occurrences}
use polymarket_agent.Fills.Laws.{IsSound, poll_cycle-IsBooked}
use polymarket_agent.Fills.Restored.{
  balanced-kept, booked_row, reconcile_order-IsBooked, reconcile_all_submitted-IsBooked,
}

module _ (divide : ℕ → ℕ → ℕ) (handling : FillRow → Handling) (trim : Stream → Stream)
    (get_order : ℕ → Answer) (now no_alert_id : ℕ) where
  mark_abandoned-IsBooked :
      (o : Order) (s : Scan) → IsSound s.store → IsSound (mark_abandoned o s).store
  unfolding mark_abandoned abandoned_order
  mark_abandoned-IsBooked o s h = record {
    balanced =
        balanced-kept abandoned_order o.id s.store.fills s.store.orders (λ x. (refl, refl))
          h.balanced;
    numbered = h.numbered;
    once = h.once;
  }

  reconcile_live-IsBooked :
      (o : Order) (s : Scan)
      → get_or o.filled_size 0 ≡ total_size o.id s.store.fills
      → IsSound s.store
      → IsSound (reconcile_live_order divide handling trim get_order now no_alert_id o s).store
  unfolding reconcile_live_order create_recovery_incident
  reconcile_live-IsBooked o s b h =
      let k = reconcile_order-IsBooked divide handling trim now get_order o s.store b h in
      elim (Bool-cases (reconcile_order divide handling trim now get_order o s.store).0) [
        | inl m ↦ rw (m, reconcile_live_order) k
        | inr m ↦ rw (m, reconcile_live_order) k
      ]

  act-IsBooked :
      (a : Action) (o : Order) (s : Scan)
      → get_or o.filled_size 0 ≡ total_size o.id s.store.fills
      → IsSound s.store
      → IsSound (act divide handling trim get_order now no_alert_id a o s).store
  unfolding act
  act-IsBooked abandon o s b h = mark_abandoned-IsBooked o s h
  act-IsBooked leave_alone o s b h = h
  act-IsBooked reconcile o s b h = reconcile_live-IsBooked o s b h
  act-IsBooked count_incident o s b h = h

  scan_id-IsBooked :
      (window id : ℕ) (s : Scan)
      → IsSound s.store
      → IsSound (scan_id divide handling trim get_order now no_alert_id window id s).store
  unfolding scan_id scan_order
  scan_id-IsBooked window id s h =
      elim (Option-cases (find_order (λ o. o.id == id) s.store.orders)) [
        | inl k ↦ rw (k, scan_id) h
        | inr (o, k) ↦
            let b = booked_row divide handling trim now id o s.store k h in
            rw (k, scan_id) (act-IsBooked (action_of now window o) o s b h)
      ]

  scan_orders-IsBooked :
      (window : ℕ) (os : List Order) (s : Scan)
      → IsSound s.store
      → IsSound (scan_orders divide handling trim get_order now no_alert_id window os s).store
  unfolding scan_orders
  scan_orders-IsBooked window [] s h = h
  scan_orders-IsBooked window (o ∷ os) s h =
      scan_orders-IsBooked window os _ (scan_id-IsBooked window o.id s h)

  run_scan-IsBooked :
      (window : ℕ) (force : Bool) (last : Option ℕ) (s : Scan)
      → IsSound s.store
      → IsSound
          (run_scan divide handling trim get_order now no_alert_id window force last s).2.store
  unfolding run_scan
  run_scan-IsBooked window force last s h =
      let start = record s { recovered = 0; incidents_created = 0; abandoned = 0 } in
      let orders = keep is_scanned s.store.orders in
      elim (Bool-cases (is_skipped now force last)) [
        | inl m ↦ rw (m, run_scan) h
        | inr m ↦ rw (m, run_scan) (scan_orders-IsBooked window orders start h)
      ]

-- The tables as they come about: an order is added before it has a fill, fills are polled, and orders are
-- reconciled or recovered, each with whatever the exchange answers and whatever fails.
pub data Reach (divide : ℕ → ℕ → ℕ) (trim : Stream → Stream) : Store → Type 0 where
  empty :
      (positions : List Position) (queue : Queue)
      → Reach divide trim (record { orders = []; fills = []; positions = positions; queue = queue })
  ordered :
      {s : Store} (o : Order)
      → get_or o.filled_size 0 ≡ 0
      → fills_of o.id s.fills ≡ []
      → Reach divide trim s
      → Reach divide trim (record s { orders = s.orders ++ o ∷ [] })
  polled :
      {s : Store} (handling : FillRow → Handling) (now : ℕ)
      (get_fills : Order → Option (List Event))
      → Reach divide trim s
      → Reach divide trim (poll_cycle divide handling trim now get_fills s)
  reconciled :
      {s : Store} (handling : FillRow → Handling) (now : ℕ) (get_order : ℕ → Answer)
      → Reach divide trim s
      → Reach divide trim (reconcile_all_submitted divide handling trim now get_order s)
  recovered :
      {s : Store} (handling : FillRow → Handling) (now no_alert_id : ℕ) (get_order : ℕ → Answer)
      (window : ℕ) (force : Bool) (last : Option ℕ) (scan : Scan)
      → scan.store ≡ s
      → Reach divide trim s
      → Reach divide trim
          (run_scan divide handling trim get_order now no_alert_id window force last scan).2.store

no_size : (id : ℕ) (fills : List FillRow) → fills_of id fills ≡ [] → total_size id fills ≡ 0
unfolding fills_of total_size
no_size id [] h = refl
no_size id (f ∷ fills) h = ground (arith, no_size id fills)

All-append :
    {A : Type 0} (P : A → Type 0) (xs : List A) (a : A) → All P xs → P a → All P (xs ++ a ∷ [])
All-append P [] a h k = (k, tt)
All-append P (x ∷ xs) a h k = (h.0, All-append P xs a h.1 k)

-- The tables are booked in every state that comes about: the filled size of each order is the sum of its
-- fills, the fills of each order are numbered up to their number, and no fill of the exchange is there twice -
-- whatever events come, in whatever order and however often, whatever the exchange answers, and wherever
-- the processing of a fill raises.
pub Reach-IsBooked :
    {divide : ℕ → ℕ → ℕ} {trim : Stream → Stream} {s : Store}
    → Reach divide trim s
    → IsBooked s.orders s.fills
unfolding fills_of last_num occurrences
Reach-IsBooked (empty positions queue) = record {
  balanced = tt;
  numbered = λ id. refl;
  once = λ id. omega arith;
}
Reach-IsBooked (ordered {s} o z n r) =
    let h = Reach-IsBooked r in
    record {
      balanced = All-append _ s.orders o h.balanced (ground (arith, no_size o.id s.fills n));
      numbered = h.numbered;
      once = h.once;
    }
Reach-IsBooked {divide} {trim} (polled {s} handling now get_fills r) =
    poll_cycle-IsBooked divide handling trim now get_fills s (Reach-IsBooked r)
Reach-IsBooked {divide} {trim} (reconciled {s} handling now get_order r) =
    reconcile_all_submitted-IsBooked divide handling trim now get_order s (Reach-IsBooked r)
Reach-IsBooked {divide} {trim}
      (recovered {s} handling now no_alert_id get_order window force last scan e r) =
    run_scan-IsBooked divide handling trim get_order now no_alert_id window force last scan
      (rw e (Reach-IsBooked r))
