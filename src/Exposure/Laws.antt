-- ===== src/Exposure/Laws.antt =====
-- What backend/app/services/global_risk_guard.py adds up, and what it lets through.
use polymarket_agent.Common.{
  ◌≡◌, ◌↔◌, ◌≤◌, ◌<◌, ◌+◌, ◌*◌, ◌==◌, ℕ, none, true, [], arith, List, ◌∷◌, keep, length, get_or,
  if◌then◌else◌,
}
use polymarket_agent.Common.Dict.{Dict, lookup, insert, lookup-insert}
use polymarket_agent.Exposure.{
  GuardedTrade, GuardSettings, compute_effective_limits, max_open_positions, is_live_trade,
  exposure_of, accumulate, check_exposure,
}

-- the exposure of some trades, and that of those in a market
abbrev pub total_of : List GuardedTrade → ℕ
total_of [] = 0
total_of (t ∷ ts) = exposure_of t + total_of ts

abbrev pub market_total : ℕ → List GuardedTrade → ℕ
market_total m [] = 0
market_total m (t ∷ ts) = (if m == t.market_id then exposure_of t else 0) + market_total m ts

abbrev pub dict_total : Dict ℕ → ℕ
dict_total [] = 0
dict_total ((k, n) ∷ d) = n + dict_total d

accumulate_lem :
    (ts : List GuardedTrade) (n : ℕ) (d : Dict ℕ) (m : ℕ)
    → ((accumulate ts n d).0 ≡ n + total_of ts)
      × (get_or (lookup m (accumulate ts n d).1) 0 ≡ get_or (lookup m d) 0 + market_total m ts)
unfolding accumulate
accumulate_lem [] n d m = ground arith
accumulate_lem (t ∷ ts) n d m =
    let v = get_or (lookup t.market_id d) 0 + exposure_of t in
    ground (
      arith,
      accumulate_lem ts (n + exposure_of t) (insert t.market_id v d) m,
      lookup-insert m t.market_id v d,
    )

dict_total-insert :
    (k e : ℕ) (d : Dict ℕ) → dict_total (insert k (get_or (lookup k d) 0 + e) d) ≡ dict_total d + e
dict_total-insert k e [] = omega arith
dict_total-insert k e ((j, n) ∷ d) = ground (arith, dict_total-insert k e d)

accumulate_total :
    (ts : List GuardedTrade) (n : ℕ) (d : Dict ℕ)
    → dict_total (accumulate ts n d).1 ≡ dict_total d + total_of ts
unfolding accumulate
accumulate_total [] n d = omega arith
accumulate_total (t ∷ ts) n d = omega (
  arith,
  accumulate_total ts (n + exposure_of t)
      (insert t.market_id (get_or (lookup t.market_id d) 0 + exposure_of t) d),
  dict_total-insert t.market_id (exposure_of t) d,
)

module _ (c : GuardSettings) where
  -- The report adds up: the open exposure is the sum over the open and pending trades, the dict holds
  -- for each market the sum over its trades, and its entries together are the open exposure.
  pub check_exposure_report :
      (trades : List GuardedTrade) (market m size price : ℕ)
      → let result = check_exposure c trades market size price in
        let open_trades = keep is_live_trade trades in
        (result.current_open_exposure ≡ total_of open_trades)
        × (get_or (lookup m result.exposure_by_market) 0 ≡ market_total m open_trades)
        × (dict_total result.exposure_by_market ≡ result.current_open_exposure)
  unfolding check_exposure
  check_exposure_report trades market m size price =
      let open_trades = keep is_live_trade trades in
      omega (arith, accumulate_lem open_trades 0 [] m, accumulate_total open_trades 0 [])

  -- A proposal is approved exactly when, with it, the exposure of the open and pending trades and that
  -- of those in its market stay within the limits, it is itself no larger than the limit for a
  -- position, and fewer than three trades are open or pending.
  pub check_exposure_approved :
      (trades : List GuardedTrade) (market size price : ℕ)
      → let limits = compute_effective_limits c none in
        let open_trades = keep is_live_trade trades in
        ((check_exposure c trades market size price).approved ≡ true) ↔ (
          (total_of open_trades + size * price ≤ limits.total_exposure)
          × (size * price ≤ limits.position_size)
          × (length open_trades < max_open_positions)
          × (market_total market open_trades + size * price ≤ limits.market_exposure))
  unfolding check_exposure
  check_exposure_approved trades market size price =
      let k = accumulate_lem (keep is_live_trade trades) 0 [] market in
      (λ h. ground arith, λ h. ground arith)
