-- ===== src/Fills/Restored.antt =====
-- What a reconciliation by backend/app/services/execution/reconciliation_service.py keeps and restores.
use polymarket_agent.Common.{
  ◌≡◌, ◌<◌, ◌==◌, ◌&&◌, ℕ, Bool, some, List, [], ◌∷◌, arith, ltb, get_or, refl, All, keep,
  Bool-cases, Option-cases, inl, inr, is_some,
}
use polymarket_agent.DeadLetters.{Stream}
use polymarket_agent.Fills.Model.{
  Order, FillRow, Store, Handling, OrderStatus, change_order, find_order,
}
use polymarket_agent.Fills.Reconcile.{
  Answer, fetch_raises, nothing, clob_state, reconcile_answer, adopt_status, missing_fill,
  is_allowed_status, restore_order, reconcile_with, reconcile_order, reconcile_id, reconcile_each,
  reconcile_all_submitted,
}
use polymarket_agent.Fills.Laws.{IsSound}
use polymarket_agent.Fills.Books.{IsBooked, IsEntry, total_size, add_fill-IsBooked}

-- a change of an order that keeps its id and its filled size
pub balanced-kept :
    (change : Order → Order) (id : ℕ) (fills : List FillRow) (os : List Order)
    → ((o : Order) → ((change o).id ≡ o.id) × ((change o).filled_size ≡ o.filled_size))
    → All (λ o. get_or o.filled_size 0 ≡ total_size o.id fills) os
    → All (λ o. get_or o.filled_size 0 ≡ total_size o.id fills) (change_order change id os)
unfolding change_order
balanced-kept change id fills [] k h = tt
balanced-kept change id fills (o ∷ os) k h =
    (ground (arith, k o, h.0), balanced-kept change id fills os k h.1)

found_is_booked :
    (test : Order → Bool) (o : Order) (fills : List FillRow) (os : List Order)
    → find_order test os ≡ some o
    → All (λ x. get_or x.filled_size 0 ≡ total_size x.id fills) os
    → get_or o.filled_size 0 ≡ total_size o.id fills
unfolding find_order
found_is_booked test o fills [] e h = ground arith
found_is_booked test o fills (x ∷ os) e h = ground (arith, h.0, found_is_booked test o fills os)

module _ (divide : ℕ → ℕ → ℕ) (handling : FillRow → Handling) (trim : Stream → Stream)
    (now : ℕ) where
  missing-IsEntry :
      (status : OrderStatus) (filled price : ℕ) (o : Order) (s : Store)
      → get_or o.filled_size 0 < filled
      → get_or o.filled_size 0 ≡ total_size o.id s.fills
      → let f = missing_fill now filled price o s.fills in
        IsEntry (restore_order status filled f) f s
  unfolding missing_fill restore_order
  missing-IsEntry status filled price o s l b = record {
    numbers = refl;
    is_new = λ k m. ground arith;
    keeps_id = λ o. refl;
    adds = λ x m c. ground arith;
  }

  adopted-IsBooked :
      (status : OrderStatus) (id : ℕ) (s : Store)
      → IsSound s
      → IsBooked (change_order (adopt_status status) id s.orders) s.fills
  unfolding adopt_status
  adopted-IsBooked status id s h = record {
    balanced =
        balanced-kept (adopt_status status) id s.fills s.orders (λ o. ground arith) h.balanced;
    numbered = h.numbered;
    once = h.once;
  }

  reconcile_with-IsBooked :
      (status : OrderStatus) (filled price : ℕ) (o : Order) (s : Store)
      → get_or o.filled_size 0 ≡ total_size o.id s.fills
      → IsSound s
      → IsSound (reconcile_with divide handling trim now status filled price o s).1
  unfolding reconcile_with
  reconcile_with-IsBooked status filled price o s b h =
      let s' : Store = record s { orders = change_order (adopt_status status) o.id s.orders } in
      let f = missing_fill now filled price o s.fills in
      let k = adopted-IsBooked status o.id s h in
      elim (Bool-cases (ltb (get_or o.filled_size 0) filled)) [
        | inl m ↦
            let e = missing-IsEntry status filled price o s' (ground arith) b in
            elim (Bool-cases (is_allowed_status status)) [
              | inl a ↦
                  rw (m, a, reconcile_with)
                    (add_fill-IsBooked divide handling (restore_order status filled f) f s' e k)
              | inr a ↦ rw (m, a, reconcile_with) h
            ]
        | inr m ↦ rw (m, reconcile_with) k
      ]

  reconcile_answer-IsBooked :
      (a : Answer) (o : Order) (s : Store)
      → get_or o.filled_size 0 ≡ total_size o.id s.fills
      → IsSound s
      → IsSound (reconcile_answer divide handling trim now a o s).1
  unfolding reconcile_answer
  reconcile_answer-IsBooked (fetch_raises error) o s b h = h
  reconcile_answer-IsBooked nothing o s b h = h
  reconcile_answer-IsBooked (clob_state status filled price) o s b h =
      reconcile_with-IsBooked status (get_or filled 0) (get_or price 0) o s b h

  pub reconcile_order-IsBooked :
      (get_order : ℕ → Answer) (o : Order) (s : Store)
      → get_or o.filled_size 0 ≡ total_size o.id s.fills
      → IsSound s
      → IsSound (reconcile_order divide handling trim now get_order o s).1
  unfolding reconcile_order
  reconcile_order-IsBooked get_order o s b h = elim (Option-cases o.clob_order_id) [
    | inl k ↦ rw (k, reconcile_order) h
    | inr (c, k) ↦ rw (k, reconcile_order) (reconcile_answer-IsBooked (get_order c) o s b h)
  ]

  pub booked_row :
      (id : ℕ) (o : Order) (s : Store)
      → find_order (λ x. x.id == id) s.orders ≡ some o
      → IsSound s
      → get_or o.filled_size 0 ≡ total_size o.id s.fills
  booked_row id o s e h = found_is_booked (λ x. x.id == id) o s.fills s.orders e h.balanced

  reconcile_id-IsBooked :
      (get_order : ℕ → Answer) (id : ℕ) (s : Store)
      → IsSound s
      → IsSound (reconcile_id divide handling trim now get_order id s).1
  unfolding reconcile_id
  reconcile_id-IsBooked get_order id s h =
      elim (Option-cases (find_order (λ o. o.id == id) s.orders)) [
        | inl k ↦ rw (k, reconcile_id) h
        | inr (o, k) ↦
            rw (k, reconcile_id) (reconcile_order-IsBooked get_order o s (booked_row id o s k h) h)
      ]

  reconcile_each-IsBooked :
      (get_order : ℕ → Answer) (os : List Order) (s : Store)
      → IsSound s
      → IsSound (reconcile_each divide handling trim now get_order os s)
  unfolding reconcile_each
  reconcile_each-IsBooked get_order [] s h = h
  reconcile_each-IsBooked get_order (o ∷ os) s h =
      reconcile_each-IsBooked get_order os _ (reconcile_id-IsBooked get_order o.id s h)

  pub reconcile_all_submitted-IsBooked :
      (get_order : ℕ → Answer) (s : Store)
      → IsSound s
      → IsSound (reconcile_all_submitted divide handling trim now get_order s)
  unfolding reconcile_all_submitted
  reconcile_all_submitted-IsBooked get_order s h =
      reconcile_each-IsBooked get_order (keep (λ o. o.is_live && is_some o.clob_order_id) s.orders)
        s h
