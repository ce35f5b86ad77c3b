-- ===== src/Portfolio/Books.antt =====
-- The table of positions under fills: backend/app/services/portfolio_service.py, `upsert_from_fill`,
-- the invariant of the table.
use polymarket_agent.Common.{
  ◌≡◌, ◌≤◌, ◌<◌, ◌⊎◌, ℕ, true, Option, none, List, [], ◌∷◌, arith, All, keep, length, is_some, ◌&&◌,
}
use polymarket_agent.Portfolio.{
  Position, Fill, closed_position_status, open_position_status, direction_of, direction_index,
  is_match, is_open, same_market, apply_fill, upsert_from_fill,
}

-- The tables that fills of some size build.
pub data Reach (divide : ℕ → ℕ → ℕ) : List Position → Type 0 where
  empty : Reach divide []
  filled :
      {ps : List Position} (id : ℕ) (f : Fill)
      → Reach divide ps
      → 0 < f.size
      → Reach divide (upsert_from_fill divide id f ps)

-- A row by itself: an open one has a size and a direction of a fill and no result, a closed one has a
-- result, a time and no size.
abbrev pub IsSound : Position → Type 0
IsSound p = elim p.status [
  | open_position_status ↦
      (0 < p.size)
      × (direction_index p.direction < 2)
      × (p.realized_pnl ≡ none)
      × (p.closed_at ≡ none)
  | closed_position_status ↦
      (p.size ≡ 0) × (is_some p.realized_pnl ≡ true) × (is_some p.closed_at ≡ true)
]

-- how many open rows a market has
abbrev pub open_rows : Option ℕ → List Position → ℕ
open_rows m ps = length (keep (λ p. same_market p.market_id m && is_open p) ps)

pub record IsBooked (m : Option ℕ) (ps : List Position) : Type 0 where
  pub sound : All IsSound ps
  pub single : open_rows m ps ≤ 1

pub same_market_sym : (a b : Option ℕ) → same_market a b ≡ true → a ≡ b
unfolding same_market
same_market_sym a b h = ground arith

same_market_refl : (a : Option ℕ) → same_market a a ≡ true
unfolding same_market
same_market_refl a = ground arith

module _ (divide : ℕ → ℕ → ℕ) where
  apply_fill-IsSound :
      (f : Fill) (p : Position)
      → 0 < f.size
      → is_match f p ≡ true
      → IsSound p
      → IsSound (apply_fill divide f p)
  unfolding apply_fill is_match is_open
  apply_fill-IsSound f p h m s = ground arith

  upsert-IsSound :
      (id : ℕ) (f : Fill) (ps : List Position)
      → 0 < f.size
      → All IsSound ps
      → All IsSound (upsert_from_fill divide id f ps)
  unfolding upsert_from_fill direction_of direction_index
  upsert-IsSound id f [] h s = ground arith
  upsert-IsSound id f (p ∷ ps) h s =
      ground (arith, apply_fill-IsSound f p h, upsert-IsSound id f ps h)

  pub apply_fill_market :
      (f : Fill) (p : Position)
      → ((apply_fill divide f p).market_id ≡ p.market_id)
        × ((is_open p ≡ true) ⊎ (is_open (apply_fill divide f p) ≡ is_open p))
  unfolding apply_fill is_open
  apply_fill_market f p = ground arith

  -- A fill adds an open row to a market only where it had none.
  upsert_rows :
      (id : ℕ) (f : Fill) (m : Option ℕ) (ps : List Position)
      → (open_rows m (upsert_from_fill divide id f ps) ≤ open_rows m ps)
        ⊎ ((f.market_id ≡ m)
            × (open_rows m ps ≡ 0)
            × (open_rows m (upsert_from_fill divide id f ps) ≡ 1))
  unfolding upsert_from_fill is_match is_open
  upsert_rows id f m [] = ground (arith, same_market_sym f.market_id m)
  upsert_rows id f m (p ∷ ps) = ground (
    arith,
    upsert_rows id f m ps,
    apply_fill_market f p,
    same_market_sym p.market_id m,
    same_market_refl m,
  )

  -- Under fills of some size every row is sound, and a market has at most one open row.
  pub tables-IsBooked : {ps : List Position} (m : Option ℕ) → Reach divide ps → IsBooked m ps
  tables-IsBooked m empty = omega arith
  tables-IsBooked m (filled {ps = ps} id f r h) =
      let v = tables-IsBooked m r in
      ground (arith, upsert-IsSound id f ps h v.sound, upsert_rows id f m ps)
