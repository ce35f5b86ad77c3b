-- ===== src/Fills/Books.antt =====
-- What the tables of backend/app/models/exchange_order.py and backend/app/models/fill.py have in common while
-- fills are ingested and orders reconciled.
use polymarket_agent.Common.{
  ◌≡◌, ◌≤◌, ◌+◌, ◌==◌, ◌&&◌, ℕ, true, false, List, [], ◌∷◌, ◌++◌, arith, if◌then◌else◌, ltb, get_or,
  refl, All, length,
}
use polymarket_agent.Fills.Model.{
  Order, FillRow, Store, Handling, is_id, change_order, fills_of, last_num, next_num, process_fill,
  add_fill, upserted,
}
use polymarket_agent.Fills.Ingest.{is_ingested}

-- the sum of the fills of an order
unfoldable pub total_size : ℕ → List FillRow → ℕ
total_size id [] = 0
total_size id (f ∷ fs) = (if f.exchange_order_id == id then f.size else 0) + total_size id fs

-- how many fills there are with an id of the exchange
unfoldable pub occurrences : ℕ → List FillRow → ℕ
occurrences id [] = 0
occurrences id (f ∷ fs) = (if is_id id f.clob_fill_id then 1 else 0) + occurrences id fs

-- The filled size of each order is the sum of its fills, the fills of an order are numbered up to their
-- number, and no fill of the exchange is there twice.
pub record IsBooked (orders : List Order) (fills : List FillRow) : Type 0 where
  pub balanced : All (λ o. get_or o.filled_size 0 ≡ total_size o.id fills) orders
  pub numbered : (id : ℕ) → last_num (fills_of id fills) ≡ length (fills_of id fills)
  pub once : (id : ℕ) → occurrences id fills ≤ 1

total_size-append :
    (id : ℕ) (fills : List FillRow) (f : FillRow)
    → total_size id (fills ++ f ∷ [])
      ≡ total_size id fills + (if f.exchange_order_id == id then f.size else 0)
unfolding total_size
total_size-append id [] f = omega arith
total_size-append id (g ∷ fills) f = omega (arith, total_size-append id fills f)

occurrences-append :
    (id : ℕ) (fills : List FillRow) (f : FillRow)
    → occurrences id (fills ++ f ∷ [])
      ≡ occurrences id fills + (if is_id id f.clob_fill_id then 1 else 0)
unfolding occurrences
occurrences-append id [] f = omega arith
occurrences-append id (g ∷ fills) f = omega (arith, occurrences-append id fills f)

count-append :
    (id : ℕ) (fills : List FillRow) (f : FillRow)
    → length (fills_of id (fills ++ f ∷ []))
      ≡ length (fills_of id fills) + (if f.exchange_order_id == id then 1 else 0)
unfolding fills_of
count-append id [] f = ground arith
count-append id (g ∷ fills) f = ground (arith, count-append id fills f)

last-append :
    (id : ℕ) (fills : List FillRow) (f : FillRow)
    → let last = last_num (fills_of id fills) in
      last_num (fills_of id (fills ++ f ∷ []))
      ≡ (if f.exchange_order_id == id && ltb last f.fill_num then f.fill_num else last)
unfolding fills_of last_num
last-append id [] f = ground arith
last-append id (g ∷ fills) f = ground (arith, last-append id fills f)

pub next_num_lem :
    (id : ℕ) (fills : List FillRow) → next_num id fills ≡ last_num (fills_of id fills) + 1
unfolding next_num last_num
next_num_lem id fills = go (fills_of id fills)
  where
    go :
        (fs : List FillRow)
        → (elim fs [ [] ↦ 1 | f ∷ gs ↦ last_num (f ∷ gs) + 1 ]) ≡ last_num fs + 1
    go [] = refl
    go (f ∷ fs) = refl

pub not_ingested :
    (id : ℕ) (fills : List FillRow) → is_ingested id fills ≡ false → occurrences id fills ≡ 0
unfolding is_ingested occurrences
not_ingested id [] h = refl
not_ingested id (f ∷ fills) h = ground (arith, not_ingested id fills)

-- A fill that is new, with a change of its order that adds its size.
pub record IsEntry (change : Order → Order) (f : FillRow) (s : Store) : Type 0 where
  pub numbers : f.fill_num ≡ next_num f.exchange_order_id s.fills
  pub is_new : (id : ℕ) → is_id id f.clob_fill_id ≡ true → occurrences id s.fills ≡ 0
  pub keeps_id : (o : Order) → (change o).id ≡ o.id
  pub adds :
      (o : Order)
      → o.id ≡ f.exchange_order_id
      → get_or o.filled_size 0 ≡ total_size o.id s.fills
      → get_or (change o).filled_size 0 ≡ total_size o.id s.fills + f.size

entry_row :
    (change : Order → Order) (f : FillRow) (s : Store) (o : Order)
    → IsEntry change f s
    → get_or o.filled_size 0 ≡ total_size o.id s.fills
    → let o' = if o.id == f.exchange_order_id then change o else o in
      get_or o'.filled_size 0 ≡ total_size o'.id (s.fills ++ f ∷ [])
entry_row change f s o e h =
    ground (arith, e.keeps_id o, e.adds o, total_size-append o.id s.fills f)

balanced-change :
    (change : Order → Order) (f : FillRow) (s : Store)
    → IsEntry change f s
    → (os : List Order) → All (λ o. get_or o.filled_size 0 ≡ total_size o.id s.fills) os
    → All
        (λ o. get_or o.filled_size 0 ≡ total_size o.id (s.fills ++ f ∷ []))
        (change_order change f.exchange_order_id os)
unfolding change_order
balanced-change change f s e [] h = tt
balanced-change change f s e (o ∷ os) h =
    (entry_row change f s o e h.0, balanced-change change f s e os h.1)

numbered-append :
    (id : ℕ) (fills : List FillRow) (f : FillRow)
    → f.fill_num ≡ next_num f.exchange_order_id fills
    → last_num (fills_of id fills) ≡ length (fills_of id fills)
    → last_num (fills_of id (fills ++ f ∷ [])) ≡ length (fills_of id (fills ++ f ∷ []))
numbered-append id fills f n h =
    ground (
      arith,
      next_num_lem f.exchange_order_id fills,
      last-append id fills f,
      count-append id fills f,
    )

module _ (divide : ℕ → ℕ → ℕ) (handling : FillRow → Handling) where
  -- processing a fill keeps the orders and the fills
  pub process_fill-tables :
      (f : FillRow) (s : Store)
      → let s' = (process_fill divide handling f s).1 in
        (s'.orders ≡ s.orders) × (s'.fills ≡ s.fills) × (s'.queue ≡ s.queue)
  unfolding process_fill upserted
  process_fill-tables f s = ground arith

  pub add_fill-IsBooked :
      (change : Order → Order) (f : FillRow) (s : Store)
      → IsEntry change f s
      → IsBooked s.orders s.fills
      → let s' = (add_fill divide handling change f s).1 in IsBooked s'.orders s'.fills
  unfolding add_fill
  add_fill-IsBooked change f s e h =
      let orders = change_order change f.exchange_order_id s.orders in
      let fills = s.fills ++ f ∷ [] in
      let k = process_fill-tables f (record s { orders = orders; fills = fills }) in
      let booked : IsBooked orders fills = record {
        balanced = balanced-change change f s e s.orders h.balanced;
        numbered = λ id. numbered-append id s.fills f e.numbers (h.numbered id);
        once = λ id. ground (arith, occurrences-append id s.fills f, e.is_new id, h.once id);
      } in
      rw k.0 (rw k.1 booked)
