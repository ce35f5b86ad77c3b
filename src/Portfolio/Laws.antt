-- ===== src/Portfolio/Laws.antt =====
-- What one operation of backend/app/services/portfolio_service.py does to a position.
use polymarket_agent.Common.{◌≡◌, ◌≤◌, ◌<◌, ◌+◌, ◌*◌, ℕ, true, some, arith}
use polymarket_agent.Common.Int.{neg, neg-sub_ℕ}
use polymarket_agent.Portfolio.{
  Position, Fill, sell, closed_position_status, direction_of, direction_index, gain, apply_fill,
  close_at,
}

-- a quotient rounded to the nearest number
abbrev pub IsNearest : (ℕ → ℕ → ℕ) → Type 0
IsNearest divide =
    (a b : ℕ) → 0 < b → (2 * (divide a b * b) ≤ 2 * a + b) × (2 * a ≤ 2 * (divide a b * b) + b)

average_bounds :
    (q s n e p low high : ℕ)
    → 0 < s + n
    → 2 * (q * (s + n)) ≤ 2 * (s * e + n * p) + (s + n)
    → 2 * (s * e + n * p) ≤ 2 * (q * (s + n)) + (s + n)
    → low ≤ e
    → low ≤ p
    → e ≤ high
    → p ≤ high
    → (low ≤ q) × (q ≤ high)
average_bounds q s n e p low high z a b c d f g = grind arith

module _ (divide : ℕ → ℕ → ℕ) where
  -- A fill in the direction of a position adds its size; provided that the quotient is rounded to the
  -- nearest number, the average price stays within every range that holds the old price and that of
  -- the fill.
  pub apply_fill_average :
      (f : Fill) (p : Position) (low high : ℕ)
      → IsNearest divide
      → direction_of f ≡ p.direction
      → 0 < p.size
      → low ≤ p.entry_price
      → low ≤ f.price
      → p.entry_price ≤ high
      → f.price ≤ high
      → let p' = apply_fill divide f p in
        (p'.size ≡ p.size + f.size)
        × (p'.status ≡ p.status)
        × (low ≤ p'.entry_price)
        × (p'.entry_price ≤ high)
  unfolding apply_fill
  apply_fill_average f p low high r e s a b c d =
      let total = p.size * p.entry_price + f.size * f.price in
      let n = p.size + f.size in
      let k = r total n in
      ground
        (arith, k, average_bounds (divide total n) p.size f.size p.entry_price f.price low high)

  -- For a position that a sell fill opened, `close_position` realizes the opposite of what a fill that
  -- closes it at the same price realizes: a gain is booked as a loss, and a loss as a gain.
  pub close_at-apply_fill :
      (f : Fill) (p : Position) (now : ℕ)
      → p.direction ≡ sell
      → f.is_buy ≡ true
      → p.size ≤ f.size
      → ((apply_fill divide f p).realized_pnl ≡ some (gain p.entry_price f.price p.size))
        × ((close_at f.price now p).realized_pnl ≡ some (neg (gain p.entry_price f.price p.size)))
        × ((apply_fill divide f p).status ≡ closed_position_status)
        × ((close_at f.price now p).status ≡ closed_position_status)
  unfolding apply_fill close_at direction_of direction_index
  close_at-apply_fill f p now d b le =
      ground (arith, neg-sub_ℕ (p.entry_price * p.size) (f.price * p.size))
