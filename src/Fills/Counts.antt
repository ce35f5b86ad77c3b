-- ===== src/Fills/Counts.antt =====
-- What a scan by backend/app/services/recovery/order_recovery_service.py reports.
use polymarket_agent.Common.{
  ◌≡◌, ◌≤◌, ◌+◌, ◌-◌, ◌==◌, ℕ, Bool, true, Option, List, [], ◌∷◌, arith, refl, keep, Bool-cases,
  Option-cases, inl, inr, length,
}
use polymarket_agent.DeadLetters.{Stream}
use polymarket_agent.Fills.Model.{Order, FillRow, Store, Handling, find_order}
use polymarket_agent.Fills.Reconcile.{Answer, fetch_raises, reconcile_order, reconcile_answer}
use polymarket_agent.Fills.Recovery.{
  Scan, Action, Report, skipped, scanned, abandon, leave_alone, reconcile, count_incident,
  action_of, mark_abandoned, create_recovery_incident, reconcile_live_order, act, scan_order,
  scan_id, scan_orders, is_scanned, is_skipped, run_scan,
}

-- what a scan has counted
abbrev pub counted : Scan → ℕ
counted s = s.recovered + s.incidents_created + s.abandoned

-- From one state of a scan to another over some orders: no more is counted than there are, and no more
-- incidents are created than counted.
pub record IsCounted (n : ℕ) (s s' : Scan) : Type 0 where
  pub few : counted s' ≤ counted s + n
  pub real : s'.next_incident + s.incidents_created ≤ s.next_incident + s'.incidents_created

-- a report, where some incidents were created
pub IsFair : Report → ℕ → Type 0
IsFair skipped created = created ≡ 0
IsFair (scanned orders recovered incidents abandoned) created =
    (recovered + incidents + abandoned ≤ orders) × (created ≤ incidents)

module _ (divide : ℕ → ℕ → ℕ) (handling : FillRow → Handling) (trim : Stream → Stream)
    (get_order : ℕ → Answer) (now no_alert_id : ℕ) where
  act-IsCounted :
      (a : Action) (o : Order) (s : Scan)
      → IsCounted 1 s (act divide handling trim get_order now no_alert_id a o s)
  unfolding act mark_abandoned reconcile_live_order create_recovery_incident
  act-IsCounted abandon o s = record { few = omega arith; real = omega arith }
  act-IsCounted leave_alone o s = record { few = omega arith; real = omega arith }
  act-IsCounted count_incident o s = record { few = omega arith; real = omega arith }
  act-IsCounted reconcile o s = record { few = ground arith; real = ground arith }

  scan_id-IsCounted :
      (window id : ℕ) (s : Scan)
      → IsCounted 1 s (scan_id divide handling trim get_order now no_alert_id window id s)
  unfolding scan_id scan_order
  scan_id-IsCounted window id s =
      elim (Option-cases (find_order (λ o. o.id == id) s.store.orders)) [
        | inl k ↦ rw (k, scan_id) (record { few = omega arith; real = omega arith })
        | inr (o, k) ↦ rw (k, scan_id) (act-IsCounted (action_of now window o) o s)
      ]

  scan_orders-IsCounted :
      (window : ℕ) (os : List Order) (s : Scan)
      → IsCounted
          (length os)
          s
          (scan_orders divide handling trim get_order now no_alert_id window os s)
  unfolding scan_orders
  scan_orders-IsCounted window [] s = record { few = omega arith; real = omega arith }
  scan_orders-IsCounted window (o ∷ os) s =
      let s' = scan_id divide handling trim get_order now no_alert_id window o.id s in
      let h = scan_id-IsCounted window o.id s in
      let k = scan_orders-IsCounted window os s' in
      record { few = omega (arith, h.few, k.few); real = omega (arith, h.real, k.real) }

  -- A report counts each order of the scan at most once, as recovered, abandoned or with an incident, and no
  -- more incidents are created than it says; a scan that is skipped creates none.
  pub run_scan-IsFair :
      (window : ℕ) (force : Bool) (last : Option ℕ) (s : Scan)
      → let result = run_scan divide handling trim get_order now no_alert_id window force last s in
        IsFair result.0 (result.2.next_incident - s.next_incident)
  unfolding run_scan IsFair
  run_scan-IsFair window force last s =
      let start = record s { recovered = 0; incidents_created = 0; abandoned = 0 } in
      let orders = keep is_scanned s.store.orders in
      let k = scan_orders-IsCounted window orders start in
      elim (Bool-cases (is_skipped now force last)) [
        | inl m ↦ rw (m, run_scan) (omega arith)
        | inr m ↦ rw (m, run_scan) (omega (arith, k.few), omega (arith, k.real))
      ]

  IsUnchanged : Bool × Store → Store → Type 0
  IsUnchanged r s = (r.0 ≡ true) × (r.1.orders ≡ s.orders) × (r.1.fills ≡ s.fills)

  reconcile_order_unreachable :
      (o : Order) (s : Store) (error : ℕ)
      → ((clob : ℕ) → get_order clob ≡ fetch_raises error)
      → IsUnchanged (reconcile_order divide handling trim now get_order o s) s
  unfolding reconcile_order reconcile_answer IsUnchanged
  reconcile_order_unreachable o s error h = elim (Option-cases o.clob_order_id) [
    | inl k ↦ rw (k, reconcile_order) (refl, refl, refl)
    | inr (c, k) ↦ rw (k, h c, reconcile_order) (refl, refl, refl)
  ]

  reconcile_live_unreachable :
      (o : Order) (s : Scan) (error : ℕ)
      → ((clob : ℕ) → get_order clob ≡ fetch_raises error)
      → let s' = reconcile_live_order divide handling trim get_order now no_alert_id o s in
        (s'.recovered ≡ s.recovered + 1)
        × (s'.store.orders ≡ s.store.orders)
        × (s'.store.fills ≡ s.store.fills)
        × (s'.incidents ≡ s.incidents)
  unfolding reconcile_live_order IsUnchanged
  reconcile_live_unreachable o s error h =
      ground (arith, reconcile_order_unreachable o s.store error h)

  -- While no answer comes from the exchange, an order that a scan reconciles is counted as recovered: no
  -- order and no fill is changed, and no incident is created.
  pub scan_order_unreachable :
      (window : ℕ) (o : Order) (s : Scan) (error : ℕ)
      → ((clob : ℕ) → get_order clob ≡ fetch_raises error)
      → action_of now window o ≡ reconcile
      → let s' = scan_order divide handling trim get_order now no_alert_id window o s in
        (s'.recovered ≡ s.recovered + 1)
        × (s'.store.orders ≡ s.store.orders)
        × (s'.store.fills ≡ s.store.fills)
        × (s'.incidents ≡ s.incidents)
  unfolding scan_order act
  scan_order_unreachable window o s error h k =
      rw (k, scan_order) (reconcile_live_unreachable o s error h)
