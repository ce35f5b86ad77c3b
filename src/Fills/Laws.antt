-- ===== src/Fills/Laws.antt =====
-- What the services of backend/app/services/execution/ keep true of orders and fills.
use polymarket_agent.Common.{
  ◌≡◌, ℕ, false, Option, none, some, List, [], ◌∷◌, arith, refl, keep, Bool-cases, Option-cases,
  inl, inr,
}
use polymarket_agent.DeadLetters.{Stream}
use polymarket_agent.Fills.Model.{Order, FillRow, Store, Handling, is_id, find_order}
use polymarket_agent.Fills.Ingest.{
  Event, is_ingested, ingest_single, ingest_new, ingest_clob_fills, dead_letter, new_fill,
  fill_order, clob_fill_id_of, clob_order_id_of, poll_order, poll_orders, poll_cycle, is_polled,
}
use polymarket_agent.Fills.Books.{IsBooked, IsEntry, not_ingested, add_fill-IsBooked}

-- the orders and fills of a store
abbrev pub IsSound : Store → Type 0
IsSound s = IsBooked s.orders s.fills

module _ (divide : ℕ → ℕ → ℕ) (handling : FillRow → Handling) (trim : Stream → Stream) where
  new-IsEntry :
      (now id : ℕ) (e : Event) (o : Order) (s : Store)
      → is_ingested id s.fills ≡ false
      → let f = new_fill now id e o s.fills in IsEntry (fill_order f) f s
  unfolding new_fill fill_order
  new-IsEntry now id e o s h = record {
    numbers = refl;
    is_new = λ k m. ground (arith, not_ingested id s.fills h);
    keeps_id = λ o. refl;
    adds = λ o m b. ground arith;
  }

  ingest_new-IsBooked :
      (now id : ℕ) (e : Event) (s : Store)
      → is_ingested id s.fills ≡ false
      → IsSound s
      → IsSound (ingest_new divide handling trim now id e s).1
  unfolding ingest_new dead_letter
  ingest_new-IsBooked now id e s n h = elim (Option-cases (clob_order_id_of e)) [
    | inl k ↦ rw (k, ingest_new) h
    | inr (c, k) ↦ elim (Option-cases (find_order (λ o. is_id c o.clob_order_id) s.orders)) [
      | inl m ↦ rw (k, m, ingest_new) h
      | inr (o, m) ↦
          let f = new_fill now id e o s.fills in
          rw (k, m, ingest_new)
            (add_fill-IsBooked divide handling (fill_order f) f s (new-IsEntry now id e o s n) h)
    ]
  ]

  ingest_single-IsBooked :
      (now : ℕ) (e : Event) (s : Store)
      → IsSound s
      → IsSound (ingest_single divide handling trim now e s).1
  unfolding ingest_single dead_letter
  ingest_single-IsBooked now e s h = elim (Option-cases (clob_fill_id_of e)) [
    | inl k ↦ rw (k, ingest_single) h
    | inr (id, k) ↦ elim (Bool-cases (is_ingested id s.fills)) [
      | inl m ↦ rw (k, m, ingest_single) h
      | inr m ↦ rw (k, m, ingest_single) (ingest_new-IsBooked now id e s m h)
    ]
  ]

  ingest_clob_fills-IsBooked :
      (now : ℕ) (es : List Event) (s : Store)
      → IsSound s
      → IsSound (ingest_clob_fills divide handling trim now es s).1
  unfolding ingest_clob_fills
  ingest_clob_fills-IsBooked now [] s h = h
  ingest_clob_fills-IsBooked now (e ∷ es) s h =
      let (ok, s') = ingest_single divide handling trim now e s in
      let k = ingest_single-IsBooked now e s h in
      elim (Bool-cases (ingest_single divide handling trim now e s).0) [
        | inl m ↦ rw (m, ingest_clob_fills) (ingest_clob_fills-IsBooked now es _ k)
        | inr m ↦ rw (m, ingest_clob_fills) k
      ]

  poll_order-IsBooked :
      (now : ℕ) (answer : Option (List Event)) (s : Store)
      → IsSound s
      → IsSound (poll_order divide handling trim now answer s)
  unfolding poll_order
  poll_order-IsBooked now none s h = h
  poll_order-IsBooked now (some es) s h =
      elim (Bool-cases (ingest_clob_fills divide handling trim now es s).0) [
        | inl m ↦ rw (m, poll_order) (ingest_clob_fills-IsBooked now es s h)
        | inr m ↦ rw (m, poll_order) h
      ]

  poll_orders-IsBooked :
      (now : ℕ) (get_fills : Order → Option (List Event)) (os : List Order) (s : Store)
      → IsSound s
      → IsSound (poll_orders divide handling trim now get_fills os s)
  unfolding poll_orders
  poll_orders-IsBooked now get_fills [] s h = h
  poll_orders-IsBooked now get_fills (o ∷ os) s h =
      poll_orders-IsBooked now get_fills os _ (poll_order-IsBooked now (get_fills o) s h)

  pub poll_cycle-IsBooked :
      (now : ℕ) (get_fills : Order → Option (List Event)) (s : Store)
      → IsSound s
      → IsSound (poll_cycle divide handling trim now get_fills s)
  unfolding poll_cycle
  poll_cycle-IsBooked now get_fills s h =
      poll_orders-IsBooked now get_fills (keep is_polled s.orders) s h
