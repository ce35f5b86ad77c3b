-- ===== src/Approval/Fills.antt =====
-- The streak of losses of backend/app/services/safety_service.py over the positions that
-- `upsert_from_fill` of backend/app/services/portfolio_service.py writes.
use polymarket_agent.Common.{
  ◌≡◌, ℕ, false, none, refl, List, [], ◌∷◌, arith, keep, All, ap, take, not, ◌&&◌,
}
use polymarket_agent.Portfolio.{Position, Fill, is_open, upsert_from_fill}
use polymarket_agent.Portfolio.Books.{Reach, empty, filled}
use polymarket_agent.Approval.{
  consecutive_losses, recent_trades, order_by_time, has_strategy, max_consecutive_losses,
}

abbrev IsUnnamed : Position → Type 0
IsUnnamed p = p.strategy_name ≡ none

module _ (divide : ℕ → ℕ → ℕ) where
  upsert-IsUnnamed :
      (id : ℕ) (f : Fill) (ps : List Position)
      → All IsUnnamed ps
      → All IsUnnamed (upsert_from_fill divide id f ps)
  unfolding upsert_from_fill
  upsert-IsUnnamed id f [] a = ground arith
  upsert-IsUnnamed id f (p ∷ ps) a = ground (arith, upsert-IsUnnamed id f ps)

  tables-IsUnnamed : {ps : List Position} → Reach divide ps → All IsUnnamed ps
  tables-IsUnnamed empty = tt
  tables-IsUnnamed (filled {ps = ps} id f r h) = upsert-IsUnnamed id f ps (tables-IsUnnamed r)

  keep_unnamed :
      (n : ℕ) (ps : List Position)
      → All IsUnnamed ps
      → keep (λ p. has_strategy n p && not (is_open p)) ps ≡ []
  keep_unnamed n [] a = refl
  keep_unnamed n (p ∷ ps) a = ground (arith, keep_unnamed n ps)

  recent_trades_unnamed : (n : ℕ) (ps : List Position) → All IsUnnamed ps → recent_trades n ps ≡ []
  unfolding recent_trades order_by_time max_consecutive_losses
  recent_trades_unnamed n ps a = ap (λ xs. take 5 (order_by_time xs)) (keep_unnamed n ps a)

  -- The positions that fills write carry no strategy, so over a table of them the check for
  -- consecutive losses never rejects a trade, whatever the closed positions lost.
  pub consecutive_losses-upsert_from_fill :
      {ps : List Position} (n : ℕ) → Reach divide ps → consecutive_losses n ps ≡ false
  unfolding consecutive_losses max_consecutive_losses
  consecutive_losses-upsert_from_fill {ps} n r =
      let e = recent_trades_unnamed n ps (tables-IsUnnamed r) in ground arith
