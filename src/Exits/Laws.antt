-- ===== src/Exits/Laws.antt =====
-- What `ExitEngine` of backend/app/services/exit_engine.py decides, and what it counts.
use polymarket_agent.Common.{
  ◌≡◌, ◌↔◌, ◌+◌, ◌⊎◌, ◌≢◌, inl, inr, ℕ, suc, Bool, true, false, Option, none, some, refl, List, [],
  ◌∷◌, arith,
}
use polymarket_agent.Exits.Model.{
  Number, decimal, float, Regime, crisis, normal, extreme, high_volatility, ExitReason, stop_loss,
  take_profit, ExitDecision, trade_not_open, no_exit_triggered, exit, Evaluation, decides,
  type_error, ExitTrade, Tables, ExitEngine, fill_price, get_outcome_price, detect_regime, sl_hit,
  tp_hit, check_max_holding_time, detect_regime_flip, detect_liquidity_collapse,
  detect_correlation_risk,
}
use polymarket_agent.Exits.Engine.{
  after_evaluation, decide_exit, with_prices, counted, count_exit, evaluate, evaluate_all_open,
  total_exits,
}

with_prices_error :
    (now : ℕ) (regime : Regime) (t : ExitTrade) (db : Tables) (f : Number) (o : Option ℕ)
    → (with_prices now regime t db f o ≡ type_error)
      ↔ (((n : ℕ) × (f ≡ decimal n)) × ((p : ℕ) × (o ≡ some p)))
unfolding with_prices
with_prices_error now regime t db (decimal n) none = ground arith
with_prices_error now regime t db (decimal n) (some p) = (λ h. ((n, refl), (p, refl)), λ h. refl)
with_prices_error now regime t db (float n) none = ground arith
with_prices_error now regime t db (float n) (some p) = ground arith

fill_price_cases :
    (t : ExitTrade) → ((n : ℕ) × (fill_price t ≡ decimal (suc n))) ⊎ (fill_price t ≡ float 50000000)
unfolding fill_price
fill_price_cases t = ground arith

-- at the fill price itself neither threshold is met
level_hits :
    (regime : Regime) (is_sell : Bool) (n : ℕ)
    → (sl_hit regime is_sell (suc n) (suc n) ≡ false)
      × (tp_hit regime is_sell (suc n) (suc n) ≡ false)
unfolding sl_hit tp_hit
level_hits crisis is_sell n = ground arith
level_hits normal is_sell n = ground arith
level_hits extreme is_sell n = ground arith
level_hits high_volatility is_sell n = ground arith

level_price :
    (now : ℕ) (regime : Regime) (t : ExitTrade) (db : Tables) (n : ℕ) (p q : Number)
    → let d = decide_exit now regime t db (suc n) (suc n) p in
      (d ≢ exit stop_loss q) × (d ≢ exit take_profit q)
unfolding decide_exit
level_price now regime t db n p q = ground (arith, level_hits regime t.is_sell n)

priced_never :
    (now : ℕ) (regime : Regime) (t : ExitTrade) (db : Tables) (n : ℕ) (o : Option ℕ) (q : Number)
    → let result = with_prices now regime t db (decimal (suc n)) o in
      (result ≢ decides (exit stop_loss q)) × (result ≢ decides (exit take_profit q))
unfolding with_prices
priced_never now regime t db n none q =
    ground (arith, level_price now regime t db n (decimal (suc n)) q)
priced_never now regime t db n (some p) q = ground arith

-- `evaluate` raises a `TypeError` exactly for an open or pending trade that has a price that is not 0,
-- its own or that of its fill, on a market with a priced event. A stop loss or a take profit is then
-- decided only for a trade without such a price.
pub evaluate_type_error :
    (now : ℕ) (regime : Option Regime) (db : Tables) (t : ExitTrade) (s : ExitEngine)
    → let result = (evaluate now regime db t s).0 in
      ((result ≡ type_error) ↔ (
        (t.is_active ≡ true)
        × ((n : ℕ) × (fill_price t ≡ decimal n))
        × ((p : ℕ) × (get_outcome_price t db.events ≡ some p))))
      × ((p : Number)
          → (result ≡ decides (exit stop_loss p)) ⊎ (result ≡ decides (exit take_profit p))
          → fill_price t ≡ float 50000000)
unfolding evaluate
evaluate_type_error now regime db t s =
    let o = get_outcome_price t db.events in
    let g = detect_regime regime in
    let e = with_prices_error now g t db (fill_price t) o in
    (
      (λ h. ground (arith, e.0), λ h. ground (arith, e.1)),
      λ q h. elim (fill_price_cases t) [
        | inl (n, f) ↦ ground (arith, priced_never now g t db n o q)
        | inr f ↦ f
      ],
    )

-- An open or pending trade is kept exactly if none of the six tests holds.
decide_exit_iff :
    (now : ℕ) (regime : Regime) (t : ExitTrade) (db : Tables) (fill latest : ℕ) (p : Number)
    → (decide_exit now regime t db fill latest p ≡ no_exit_triggered) ↔ (
        (sl_hit regime t.is_sell fill latest ≡ false)
        × (tp_hit regime t.is_sell fill latest ≡ false)
        × (check_max_holding_time now t ≡ false)
        × (detect_regime_flip regime t db.events ≡ false)
        × (detect_liquidity_collapse now t db.events ≡ false)
        × (detect_correlation_risk t db.correlations ≡ false))
unfolding decide_exit
decide_exit_iff now regime t db fill latest p = ground arith

total-count :
    (why : ExitReason) (s : ExitEngine) → total_exits (count_exit why s) ≡ total_exits s + 1
unfolding total_exits count_exit
total-count why s = ground arith

total-counted :
    (r : Evaluation) (s : ExitEngine)
    → s.forced_exit_count ≡ total_exits s
    → (counted r s).forced_exit_count ≡ total_exits (counted r s)
unfolding counted count_exit
total-counted type_error s h = h
total-counted (decides trade_not_open) s h = h
total-counted (decides no_exit_triggered) s h = h
total-counted (decides (exit why p)) s h = ground (arith, total-count why s)

round_none :
    (r : Evaluation) (s' : ExitEngine) (rest : Option (List ExitDecision) × ExitEngine)
    → s'.forced_exit_count ≡ total_exits s'
    → rest.1.forced_exit_count ≡ total_exits rest.1
    → let s'' = (after_evaluation r s' rest).1 in s''.forced_exit_count ≡ total_exits s''
unfolding after_evaluation
round_none type_error s' rest h k = h
round_none (decides d) s' (none, s'') h k = k
round_none (decides d) s' (some ds, s'') h k = k

-- The number of forced exits stays the sum of the exits by reason over every round of
-- `evaluate_all_open`, also one that ends in a `TypeError`.
pub total-evaluate_all_open :
    (now : ℕ) (db : Tables) (ts : List ExitTrade) (s : ExitEngine)
    → s.forced_exit_count ≡ total_exits s
    → let s' = (evaluate_all_open now db ts s).1 in s'.forced_exit_count ≡ total_exits s'
unfolding evaluate_all_open
total-evaluate_all_open now db [] s h = h
total-evaluate_all_open now db (t ∷ ts) s h =
    let (r, s') = evaluate now none db t s in
    let h' = total-counted r s h in
    round_none r s' (evaluate_all_open now db ts s') h' (total-evaluate_all_open now db ts s' h')
