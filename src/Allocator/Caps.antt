-- ===== src/Allocator/Caps.antt =====
-- The caps of `_enforce_hard_caps` in backend/app/services/portfolio_allocator.py, and the size of a position.
use polymarket_agent.Common.{
  ◌≡◌, ◌↔◌, ◌≤◌, ◌<◌, ◌+◌, ◌-◌, ◌*◌, ◌⊎◌, ℕ, Bool, true, false, arith, if◌then◌else◌, ltb,
}
use polymarket_agent.Allocator.{
  Market, Request, Regime, Allocator, cap, percent, is_crisis, enforce_hard_caps,
  get_current_exposure, get_correlated_exposure, scaled_size, allocated_size,
  compute_drawdown_factor, total_of_strategy,
}

cap-room : (most used size n : ℕ) → (n ≤ cap most used size) ↔ ((n ≤ size) × (n ≤ most - used))
unfolding cap
cap-room most used size n = ground arith

tenth-room :
    (most size n : ℕ) → (n ≤ (if ltb most size then most else size)) ↔ ((n ≤ size) × (n ≤ most))
tenth-room most size n = ground arith

crisis-room :
    (b : Bool) (most used size n : ℕ)
    → (n ≤ (if b then cap most used size else size)) ↔ ((n ≤ size) × ((b ≡ true) → n ≤ most - used))
crisis-room true most used size n = ground (arith, cap-room most used size n)
crisis-room false most used size n = ground arith

-- The size that passes is the largest one within the one that is asked for and each cap: a tenth of the
-- capital, what remains of two fifths of it for the strategy, what remains of a quarter beside the correlated
-- exposure and, in a crisis, what remains of 15% beside all open and pending trades.
pub enforce_hard_caps_largest :
    (env : Market) (total size : ℕ) (regime : Regime) (n : ℕ)
    → let capital = env.paper_initial_capital in
      (n ≤ enforce_hard_caps env total size regime) ↔ (
        ((n ≤ size) × (n ≤ percent 10 capital))
        × ((is_crisis regime ≡ true) → n ≤ percent 15 capital - get_current_exposure env)
        × (n ≤ percent 40 capital - total)
        × (n ≤ percent 25 capital - get_correlated_exposure env))
unfolding enforce_hard_caps
enforce_hard_caps_largest env total size regime n =
    let capital = env.paper_initial_capital in
    let single = if ltb (percent 10 capital) size then percent 10 capital else size in
    let in_crisis =
      if is_crisis regime
      then cap (percent 15 capital) (get_current_exposure env) single
      else single in
    let of_strategy = cap (percent 40 capital) total in_crisis in
    let t = tenth-room (percent 10 capital) size n in
    let c =
      crisis-room (is_crisis regime) (percent 15 capital) (get_current_exposure env) single n in
    let s = cap-room (percent 40 capital) total in_crisis n in
    let k = cap-room (percent 25 capital) (get_correlated_exposure env) of_strategy n in
    (
      λ h.
          let (h1, k1) = k.0 h in
          let (h2, s1) = s.0 h1 in let (h3, c1) = c.0 h2 in (t.0 h3, c1, s1, k1),
      λ h. let (t1, c1, s1, k1) = h in k.1 (s.1 (c.1 (t.1 t1, c1), s1), k1),
    )

-- A position is no larger than a tenth of the capital, and what a strategy has after it is within two fifths
-- of the capital or what it had.
pub allocated_size_bounded :
    (env : Market) (r : Request) (a : Allocator)
    → let size = allocated_size env r a in
      let total = total_of_strategy r.strategy_name a in
      (size ≤ percent 10 env.paper_initial_capital)
      × ((total + size ≤ percent 40 env.paper_initial_capital) ⊎ (size ≡ 0))
unfolding allocated_size
allocated_size_bounded env r a =
    let total = total_of_strategy r.strategy_name a in
    let size = allocated_size env r a in
    let k =
      (enforce_hard_caps_largest env total (scaled_size env r) r.regime size).0 (omega arith) in
    let (one, two, three, four) = k in ground (arith, one, three)

drawdown_stops : (drawdown : ℕ) → 2000 < drawdown → compute_drawdown_factor drawdown ≡ 0
unfolding compute_drawdown_factor
drawdown_stops drawdown h = ground arith

product_of_zero : (a b d : ℕ) → d ≡ 0 → a * d * b ≡ 0
product_of_zero a b d h = rw h (omega arith)

scaled_stops : (env : Market) (r : Request) → 2000 < r.current_drawdown → scaled_size env r ≡ 0
unfolding scaled_size
scaled_stops env r h = product_of_zero _ _ _ (drawdown_stops r.current_drawdown h)

-- Beyond a drawdown of a fifth nothing is allocated.
pub allocated_size_stops :
    (env : Market) (r : Request) (a : Allocator)
    → 2000 < r.current_drawdown
    → allocated_size env r a ≡ 0
unfolding allocated_size
allocated_size_stops env r a h =
    let total = total_of_strategy r.strategy_name a in
    let size = allocated_size env r a in
    let k =
      (enforce_hard_caps_largest env total (scaled_size env r) r.regime size).0 (omega arith) in
    omega (arith, k.0.0, scaled_stops env r h)
