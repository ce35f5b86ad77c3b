-- ===== src/Fills/Again.antt =====
-- What a repetition does in backend/app/services/execution/fill_ingestion_service.py and
-- backend/app/services/execution/reconciliation_service.py.
use polymarket_agent.Common.{
  ◌≡◌, ℕ, true, some, List, [], ◌∷◌, ◌++◌, arith, ◌||◌, refl, All, Bool-cases, Option-cases, inl,
  inr, ◌∙◌, ◌⊎◌, sym, is_some,
}
use mathlib.Core.Path.{subst}
use polymarket_agent.DeadLetters.{Stream}
use polymarket_agent.Fills.Model.{
  Order, FillRow, Store, Handling, is_id, change_order, find_order, add_fill,
}
use polymarket_agent.Fills.Ingest.{
  Event, is_ingested, ingest_single, ingest_new, ingest_clob_fills, new_fill, fill_order,
  clob_fill_id_of, clob_order_id_of,
}
use polymarket_agent.Fills.Books.{process_fill-tables}

-- an event with an id, whose fill is in the table
pub IsDone : List FillRow → Event → Type 0
IsDone fills e = (id : ℕ) × (clob_fill_id_of e ≡ some id) × (is_ingested id fills ≡ true)

-- an event with an id, and with the id of an order that is in the table
unfoldable pub IsKnown : List Order → Event → Type 0
IsKnown orders e =
    (id : ℕ) × (clob : ℕ) × (clob_fill_id_of e ≡ some id)
    × (clob_order_id_of e ≡ some clob)
    × (is_some (find_order (λ o. is_id clob o.clob_order_id) orders) ≡ true)

ingested-append :
    (id : ℕ) (fills : List FillRow) (f : FillRow)
    → is_ingested id (fills ++ f ∷ []) ≡ is_ingested id fills || is_id id f.clob_fill_id
unfolding is_ingested
ingested-append id [] f = ground arith
ingested-append id (g ∷ fills) f = ground (arith, ingested-append id fills f)

-- a change that keeps the order's id of the exchange keeps what is found by it
known-change :
    (f : FillRow) (clob id : ℕ) (os : List Order)
    → is_some (find_order (λ o. is_id clob o.clob_order_id) (change_order (fill_order f) id os))
      ≡ is_some (find_order (λ o. is_id clob o.clob_order_id) os)
unfolding find_order change_order fill_order
known-change f clob id [] = refl
known-change f clob id (o ∷ os) = ground (arith, known-change f clob id os)

-- the tables are as they were, or a fill of the event is added to its order
IsEffect : Event → Store → Store → Type 0
IsEffect e s s' =
    ((s'.orders ≡ s.orders) × (s'.fills ≡ s.fills))
    ⊎ ((f : FillRow) × (f.clob_fill_id ≡ clob_fill_id_of e)
        × (s'.orders ≡ change_order (fill_order f) f.exchange_order_id s.orders)
        × (s'.fills ≡ s.fills ++ f ∷ []))

same-IsEffect : (e : Event) (s : Store) → IsEffect e s s
unfolding IsEffect
same-IsEffect e s = inl (refl, refl)

is_done :
    (e : Event) (id : ℕ) (fills : List FillRow)
    → clob_fill_id_of e ≡ some id
    → is_ingested id fills ≡ true
    → IsDone fills e
unfolding IsDone
is_done e id fills k m = (id, k, m)

record IsTaken (e : Event) (s s' : Store) : Type 0 where
  pub effect : IsEffect e s s'
  pub done : IsDone s'.fills e

effect-IsDone :
    (e d : Event) (s s' : Store) → IsEffect e s s' → IsDone s.fills d → IsDone s'.fills d
unfolding IsEffect IsDone
effect-IsDone e d s s' (inl (o, g)) h = rw g h
effect-IsDone e d s s' (inr (f, c, o, g)) (id, k, m) =
    (id, k, rw g (ground (arith, ingested-append id s.fills f, m)))

effect-IsKnown :
    (e d : Event) (s s' : Store) → IsEffect e s s' → IsKnown s.orders d → IsKnown s'.orders d
unfolding IsEffect IsKnown
effect-IsKnown e d s s' (inl (o, g)) h = rw o h
effect-IsKnown e d s s' (inr (f, c, o, g)) (id, clob, k, l, m) =
    (id, clob, k, l, rw o (known-change f clob f.exchange_order_id s.orders ∙ m))

module _ (divide : ℕ → ℕ → ℕ) (handling : FillRow → Handling) (trim : Stream → Stream)
    (now : ℕ) where
  done_single :
      (e : Event) (s : Store)
      → IsDone s.fills e
      → ingest_single divide handling trim now e s ≡ (true, s)
  unfolding IsDone ingest_single
  done_single e s (id, k, m) = rw (k, m, ingest_single) refl

  done-All :
      (es : List Event) (s : Store)
      → All (IsDone s.fills) es
      → ingest_clob_fills divide handling trim now es s ≡ (true, s)
  unfolding ingest_clob_fills
  done-All [] s h = refl
  done-All (e ∷ es) s h = rw (done_single e s h.0, ingest_clob_fills) (done-All es s h.1)

  add_fill-IsEffect :
      (e : Event) (id : ℕ) (o : Order) (s : Store)
      → clob_fill_id_of e ≡ some id
      → let f = new_fill now id e o s.fills in
        IsEffect e s (add_fill divide handling (fill_order f) f s).1
  unfolding IsEffect add_fill new_fill
  add_fill-IsEffect e id o s k =
      let f = new_fill now id e o s.fills in
      let p = process_fill-tables divide handling f (record s {
        orders = change_order (fill_order f) o.id s.orders;
        fills = s.fills ++ f ∷ [];
      }) in
      inr (f, sym k, p.0, p.1)

  add_fill-IsDone :
      (e : Event) (id : ℕ) (o : Order) (s : Store)
      → clob_fill_id_of e ≡ some id
      → let f = new_fill now id e o s.fills in
        IsDone (add_fill divide handling (fill_order f) f s).1.fills e
  unfolding IsDone add_fill new_fill
  add_fill-IsDone e id o s k =
      let f = new_fill now id e o s.fills in
      let p = process_fill-tables divide handling f (record s {
        orders = change_order (fill_order f) o.id s.orders;
        fills = s.fills ++ f ∷ [];
      }) in
      (id, k, rw p.1 (ground (arith, ingested-append id s.fills f)))

  -- what a call does for an event of a known order: its fill is in the table then
  known_new :
      (e : Event) (id clob : ℕ) (o : Order) (s : Store)
      → clob_fill_id_of e ≡ some id
      → clob_order_id_of e ≡ some clob
      → find_order (λ o. is_id clob o.clob_order_id) s.orders ≡ some o
      → IsTaken e s (ingest_new divide handling trim now id e s).1
  unfolding ingest_new
  known_new e id clob o s k l p =
      rw (l, p, ingest_new)
        (record { effect = add_fill-IsEffect e id o s k; done = add_fill-IsDone e id o s k })

  known_single :
      (e : Event) (s : Store)
      → IsKnown s.orders e
      → IsTaken e s (ingest_single divide handling trim now e s).1
  unfolding IsKnown ingest_single
  known_single e s (id, clob, k, l, m) = elim (Bool-cases (is_ingested id s.fills)) [
    | inl n ↦
        rw (k, n, ingest_single)
          (record { effect = same-IsEffect e s; done = is_done e id s.fills k n })
    | inr n ↦ elim (Option-cases (find_order (λ o. is_id clob o.clob_order_id) s.orders)) [
      | inl p ↦ absurd (ground arith)
      | inr (o, p) ↦ rw (k, n, ingest_single) (known_new e id clob o s k l p)
    ]
  ]

  IsKnown-All :
      (e : Event) (ds : List Event) (s s' : Store)
      → IsEffect e s s'
      → All (IsKnown s.orders) ds
      → All (IsKnown s'.orders) ds
  IsKnown-All e [] s s' h k = tt
  IsKnown-All e (d ∷ ds) s s' h k = (effect-IsKnown e d s s' h k.0, IsKnown-All e ds s s' h k.1)

  -- what is done stays done
  kept-All :
      (d : Event) (es : List Event) (s : Store)
      → All (IsKnown s.orders) es
      → IsDone s.fills d
      → IsDone (ingest_clob_fills divide handling trim now es s).1.fills d
  unfolding ingest_clob_fills
  kept-All d [] s h k = k
  kept-All d (e ∷ es) s h k =
      let s' = (ingest_single divide handling trim now e s).1 in
      let t = (known_single e s h.0).effect in
      let k' = effect-IsDone e d s s' t k in
      elim (Bool-cases (ingest_single divide handling trim now e s).0) [
        | inl m ↦ rw (m, ingest_clob_fills) (kept-All d es s' (IsKnown-All e es s s' t h.1) k')
        | inr m ↦ rw (m, ingest_clob_fills) k'
      ]

  returns_rest :
      (e : Event) (es : List Event) (s : Store)
      → (ingest_clob_fills divide handling trim now (e ∷ es) s).0 ≡ true
      → ((ingest_single divide handling trim now e s).0 ≡ true)
        × ((ingest_clob_fills divide handling trim now es
              (ingest_single divide handling trim now e s).1).0
            ≡ true)
  unfolding ingest_clob_fills
  returns_rest e es s r = ground arith

  step_returns :
      (e : Event) (es : List Event) (s : Store)
      → (ingest_single divide handling trim now e s).0 ≡ true
      → ingest_clob_fills divide handling trim now (e ∷ es) s
        ≡ ingest_clob_fills divide handling trim now es
            (ingest_single divide handling trim now e s).1
  unfolding ingest_clob_fills
  step_returns e es s r = rw (r, ingest_clob_fills) refl

  -- after a run that returns, all events of known orders are done
  taken-All :
      (es : List Event) (s : Store)
      → All (IsKnown s.orders) es
      → (ingest_clob_fills divide handling trim now es s).0 ≡ true
      → All (IsDone (ingest_clob_fills divide handling trim now es s).1.fills) es
  taken-All [] s h r = tt
  taken-All (e ∷ es) s h r =
      let s' = (ingest_single divide handling trim now e s).1 in
      let t = known_single e s h.0 in
      let h' = IsKnown-All e es s s' t.effect h.1 in
      let (r0, r1) = returns_rest e es s r in
      subst (λ x. All (IsDone x.1.fills) (e ∷ es)) (sym (step_returns e es s r0))
        (kept-All e es s' h' t.done, taken-All es s' h' r1)

  -- Events that are delivered again change nothing: if a batch of events, each with an id and with the id of an
  -- order that the table has, is ingested without an exception, then ingesting it once more leaves the
  -- tables, the positions and the dead letters as they are.
  pub ingest_clob_fills_again :
      (es : List Event) (s : Store)
      → All (IsKnown s.orders) es
      → (ingest_clob_fills divide handling trim now es s).0 ≡ true
      → let s' = (ingest_clob_fills divide handling trim now es s).1 in
        ingest_clob_fills divide handling trim now es s' ≡ (true, s')
  ingest_clob_fills_again es s h r =
      done-All es (ingest_clob_fills divide handling trim now es s).1 (taken-All es s h r)
