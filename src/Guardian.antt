-- ===== src/Guardian.antt =====
-- `StrategyGuardian` of backend/app/services/strategy_guardian.py. Results are in units of the eighth decimal;
-- a win rate is the two numbers that are divided. The rounding of the code to the sixth decimal is
-- modelled where it can decide; floating point rounding is not. The trades of a strategy are those that the
-- query gives, at most 200 with the newest first, and the average of the correlations is an argument.
pub mod Table
pub mod Rounds
use polymarket_agent.Common.{
  ℕ, suc, ◌+◌, ◌-◌, ◌*◌, ◌==◌, Bool, true, false, Option, none, some, not, ◌&&◌, List, [], ◌∷◌,
  ◌++◌, ltb, leb, if◌then◌else◌, get_or, length, keep, nonempty, map,
}
use polymarket_agent.Common.Dict.{Dict, lookup, insert}
use polymarket_agent.Common.Int.{ℤ, pos, negsuc, pos_part, neg_part, ◌+ℤ◌}

pub data Status : Type 0 where
  active disabled probation : Status

pub data KillReason : Type 0 where
  win_rate_below_35 negative_expectancy too_many_losses drawdown_exceeds_25 losing_regime :
      KillReason

pub data Reason : Type 0 where
  insufficient_data all_checks_passed win_rate_below_45 : Reason
  killed : List KillReason → Reason

-- `StrategyStatus`, less its metrics
pub record StrategyStatus : Type 0 where
  pub status : Status
  pub reason : Reason

-- A `StrategyConfigRecord`, by the columns that are read or written.
pub record ConfigRecord : Type 0 where
  pub strategy_name : ℕ
  pub enabled : Bool
  pub is_disabled_lifecycle : Bool

-- A closed trade of a strategy.
pub record ClosedTrade : Type 0 where
  pub pnl : Option ℤ
  pub market_id : Option ℕ

-- The guardian with the table of strategies.
pub record Guardian : Type 0 where
  pub kill_count : ℕ
  pub cached_statuses : Dict StrategyStatus
  pub records : List ConfigRecord

unfoldable pub is_win : ClosedTrade → Bool
is_win t = elim t.pnl [ none ↦ false | some p ↦ ltb 0 (pos_part p) ]

unfoldable pub is_loss : ClosedTrade → Bool
is_loss t = elim t.pnl [ none ↦ false | some p ↦ pos_part p == 0 ]

-- `sum(float(t.pnl or 0) ...)`
unfoldable pub total_pnl : List ClosedTrade → ℤ
total_pnl [] = pos 0
total_pnl (t ∷ ts) = get_or t.pnl (pos 0) +ℤ total_pnl ts

-- the loop over the losses, from the present run and the longest one on
unfoldable pub longest_run : List ClosedTrade → ℕ → ℕ → ℕ
unfolding is_loss
longest_run [] run longest = longest
longest_run (t ∷ ts) run longest =
    let longer = if ltb longest (run + 1) then run + 1 else longest in
    let on = longest_run ts (run + 1) longer in
    let off = longest_run ts 0 longest in if is_loss t then on else off

pub record Curve : Type 0 where
  pub cumulative : ℤ
  pub peak : ℕ
  pub depth : ℕ

abbrev larger : ℕ → ℕ → ℕ
larger a b = if ltb a b then b else a

-- a round of the loop over the cumulative result; the peak starts at 0 and the depth is `abs(dd)`
unfoldable pub add_result : ClosedTrade → Curve → Curve
add_result t c =
    let cumulative = c.cumulative +ℤ get_or t.pnl (pos 0) in
    let peak = larger c.peak (pos_part cumulative) in
    record {
      cumulative = cumulative;
      peak = peak;
      depth = larger c.depth (peak + neg_part cumulative - pos_part cumulative);
    }

unfoldable pub curve_of : List ClosedTrade → Curve → Curve
unfolding add_result
curve_of [] c = c
curve_of (t ∷ ts) c = curve_of ts (add_result t c)

abbrev pub flat : Curve
flat = record { cumulative = pos 0; peak = 0; depth = 0 }

-- `strategy_drawdown > 0.25`, rounded to the sixth decimal; it is 0 without a peak
unfoldable pub drawdown_exceeds : List ClosedTrade → Bool
unfolding curve_of
drawdown_exceeds ts =
    let c = curve_of ts flat in ltb 0 c.peak && ltb (2500005 * c.peak) (c.depth * 10000000)

-- `expectancy < 0`, rounded to the sixth decimal
unfoldable pub expectancy_is_negative : List ClosedTrade → Bool
unfolding total_pnl
expectancy_is_negative ts = ltb (50 * length ts) (neg_part (total_pnl ts))

unfoldable pub markets_of : List ClosedTrade → List ℕ
markets_of [] = []
markets_of (t ∷ ts) =
    let rest = markets_of ts in elim t.market_id [ none ↦ rest | some m ↦ m ∷ rest ]

abbrev reason_if : Bool → KillReason → List KillReason
reason_if test why = if test then why ∷ [] else []

abbrev pub is_disabled : Status → Bool
is_disabled disabled = true
is_disabled _ = false

-- a row of the update of `_disable_strategy`
unfoldable pub disabled_if : ℕ → ConfigRecord → ConfigRecord
disabled_if name r =
    if r.strategy_name == name
    then record r { enabled = false; is_disabled_lifecycle = true }
    else r

-- whether a query by a name finds more than one record, where `scalar_one_or_none` raises
unfoldable pub is_repeated : ℕ → List ConfigRecord → Bool
is_repeated name records = ltb 1 (length (keep (λ r. r.strategy_name == name) records))

-- `_disable_strategy`, or `none` where it raises
unfoldable pub disable_strategy : ℕ → List ConfigRecord → Option (List ConfigRecord)
unfolding disabled_if is_repeated
disable_strategy name records =
    if is_repeated name records then none else some (map (disabled_if name) records)

-- the end of `evaluate_strategy` in the case of reasons
unfoldable pub kill_strategy : ℕ → StrategyStatus → Guardian → Guardian × Option StrategyStatus
unfolding disable_strategy
kill_strategy name s g = elim (disable_strategy name g.records) [
  | none ↦ (record g { kill_count = g.kill_count + 1 }, none)
  | some records ↦ (
    record {
      kill_count = g.kill_count + 1;
      cached_statuses = insert name s g.cached_statuses;
      records = records;
    },
    some s,
  )
]

-- the average of the correlations of some markets, in units of the sixth decimal
module _ (average : List ℕ → ℕ) where
  -- `_compute_losing_regime_correlation`
  unfoldable pub losing_regime_correlation : List ClosedTrade → ℕ
  unfolding markets_of is_loss
  losing_regime_correlation ts =
      let losing = keep is_loss ts in
      let markets = markets_of losing in
      if ltb (length losing) 3 then 0 else if nonempty markets then average markets else 0

  -- `kill_reasons`; a win rate is compared by its two numbers
  unfoldable pub kill_reasons : List ClosedTrade → List KillReason
  unfolding is_win longest_run expectancy_is_negative drawdown_exceeds losing_regime_correlation
  kill_reasons ts =
      let n = length ts in
      let wins = length (keep is_win ts) in
      reason_if (ltb (100 * wins) (35 * n) && leb 50 n) win_rate_below_35
      ++ reason_if (expectancy_is_negative ts && leb 200 n) negative_expectancy
      ++ reason_if (leb 4 (longest_run ts 0 0)) too_many_losses
      ++ reason_if (drawdown_exceeds ts) drawdown_exceeds_25
      ++ reason_if (ltb 800000 (losing_regime_correlation ts)) losing_regime

  -- the status that `evaluate_strategy` finds
  unfoldable pub status_of : List ClosedTrade → StrategyStatus
  unfolding kill_reasons is_win
  status_of ts =
      let n = length ts in
      let reasons = kill_reasons ts in
      let wins = length (keep is_win ts) in
      if ltb n 5
      then record { status = active; reason = insufficient_data }
      else if nonempty reasons
      then record { status = disabled; reason = killed reasons }
      else if ltb (100 * wins) (45 * n) && leb 20 n
      then record { status = probation; reason = win_rate_below_45 }
      else record { status = active; reason = all_checks_passed }

  -- `evaluate_strategy`, for the trades that `_get_recent_trades` gives of a strategy, with `none` where it
  -- raises
  unfoldable pub evaluate_strategy :
      (ℕ → List ClosedTrade) → ℕ → Guardian → Guardian × Option StrategyStatus
  unfolding status_of kill_strategy
  evaluate_strategy recent name g =
      let s = status_of (recent name) in
      if is_disabled s.status
      then kill_strategy name s g
      else (record g { cached_statuses = insert name s g.cached_statuses }, some s)

  -- the loop of `evaluate_all`, which an exception ends
  unfoldable pub evaluate_each :
      (ℕ → List ClosedTrade)
      → List ConfigRecord
      → Guardian
      → Dict StrategyStatus
      → Guardian × Option (Dict StrategyStatus)
  unfolding evaluate_strategy
  evaluate_each recent [] g results = (g, some results)
  evaluate_each recent (r ∷ rs) g results =
      let (h, answer) = evaluate_strategy recent r.strategy_name g in
      elim answer [
        | none ↦ (h, none)
        | some s ↦ evaluate_each recent rs h (insert r.strategy_name s results)
      ]

  -- `evaluate_all`
  unfoldable pub evaluate_all :
      (ℕ → List ClosedTrade) → Guardian → Guardian × Option (Dict StrategyStatus)
  unfolding evaluate_each
  evaluate_all recent g = evaluate_each recent (keep (λ r. r.enabled) g.records) g []

  -- A round of the loop of main.py over the table: a new guardian, and a commit unless an exception ends it.
  unfoldable pub guardian_round : (ℕ → List ClosedTrade) → List ConfigRecord → List ConfigRecord
  unfolding evaluate_all
  guardian_round recent table =
      let (g, answer) =
        evaluate_all recent (record { kill_count = 0; cached_statuses = []; records = table }) in
      elim answer [ none ↦ table | some results ↦ g.records ]

-- `reset`
unfoldable pub reset : Guardian → Guardian
reset g = record g { kill_count = 0; cached_statuses = [] }

-- `get_strategy_status`
unfoldable pub get_strategy_status : ℕ → Guardian → Option StrategyStatus
get_strategy_status name g = lookup name g.cached_statuses
