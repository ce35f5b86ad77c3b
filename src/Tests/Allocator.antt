-- ===== src/Tests/Allocator.antt =====
-- The allocator of backend/app/services/portfolio_allocator.py over concrete requests.
use polymarket_agent.Common.{◌≡◌, ◌↔◌, ◌≤◌, ◌-◌, ℕ, refl, true, some, none, [], ◌∷◌, arith}
use polymarket_agent.Allocator.{
  Market, Request, Allocator, crisis, normal, medium_liquidity, percent, is_crisis,
  enforce_hard_caps, get_current_exposure, get_correlated_exposure, total_of_strategy,
  restore_from_db, reset, round_to, win_rate_of, compute_strategy_expectancy_factor,
}
use polymarket_agent.Allocator.Caps.{enforce_hard_caps_largest}
use polymarket_agent.Allocator.Totals.{
  IsCapped, allocate_all, allocate_all-IsCapped, restore_from_db-allocate_all,
}

-- a capital of 10,000, a tenth of it for a position, and no trades
abbrev market : Market
market = record {
  paper_initial_capital = 1000000000000;
  max_position_size = 1000;
  performance = λ s. none;
  trades = [];
  correlation_count = 0;
}

-- what `create_trade` asks for with a confidence of 0.95
abbrev request : Request
request = record {
  signal_confidence = 9500;
  strategy_name = 7;
  market_archetype = medium_liquidity;
  regime = normal;
  current_drawdown = 0;
}

abbrev new_allocator : Allocator
new_allocator = record { totals = []; table = [] }

-- an amount in units of the eighth decimal
abbrev stored : ℕ → ℕ
stored n = round_to 100000000000000 n

-- a record of no wins counts as one half
no_wins : compute_strategy_expectancy_factor (some (some 0)) ≡ 100
unfolding compute_strategy_expectancy_factor win_rate_of
no_wins = refl

few_wins : compute_strategy_expectancy_factor (some (some 1)) ≡ 30
unfolding compute_strategy_expectancy_factor win_rate_of
few_wins = refl

nothing_capped : (s : ℕ) → total_of_strategy s new_allocator ≤ percent 40 1000000000000
unfolding total_of_strategy
nothing_capped s = omega arith

new-IsCapped : IsCapped 1000000000000 new_allocator
unfolding IsCapped
new-IsCapped = nothing_capped

zero_stored : stored 0 ≡ 0
unfolding round_to
zero_stored = refl

enforce_hard_caps_largest_example :
    (5 ≤ enforce_hard_caps market 0 (percent 20 1000000000000) crisis) ↔ (
      ((5 ≤ percent 20 1000000000000) × (5 ≤ percent 10 1000000000000))
      × ((is_crisis crisis ≡ true) → 5 ≤ percent 15 1000000000000 - get_current_exposure market)
      × (5 ≤ percent 40 1000000000000 - 0)
      × (5 ≤ percent 25 1000000000000 - get_correlated_exposure market))
enforce_hard_caps_largest_example =
    enforce_hard_caps_largest market 0 (percent 20 1000000000000) crisis 5

allocate_all-IsCapped_example :
    IsCapped 1000000000000
      (allocate_all stored ((market, request) ∷ (market, request) ∷ []) new_allocator)
allocate_all-IsCapped_example =
    allocate_all-IsCapped stored 1000000000000 ((market, request) ∷ (market, request) ∷ [])
      new_allocator (refl, (refl, tt)) new-IsCapped

restore_from_db-allocate_all_example :
    let a = allocate_all stored ((market, request) ∷ []) new_allocator in
    total_of_strategy 7 (restore_from_db (reset a)) ≡ stored (total_of_strategy 7 a)
restore_from_db-allocate_all_example =
    restore_from_db-allocate_all stored ((market, request) ∷ []) 7 zero_stored
