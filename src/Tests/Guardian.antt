-- ===== src/Tests/Guardian.antt =====
-- Rounds of the guardian over concrete tables of strategies.
use polymarket_agent.Common.{
  ◌≡◌, ℕ, ◌==◌, refl, true, false, some, none, List, [], ◌∷◌, if◌then◌else◌,
}
use polymarket_agent.Common.Int.{pos, negsuc}
use polymarket_agent.Guardian.{
  ClosedTrade, ConfigRecord, guardian_round, evaluate_all, evaluate_each, evaluate_strategy,
  kill_strategy, disable_strategy, disabled_if, is_repeated, status_of, kill_reasons, is_win,
  is_loss, total_pnl, longest_run, add_result, curve_of, drawdown_exceeds, expectancy_is_negative,
  markets_of, losing_regime_correlation,
}
use polymarket_agent.Guardian.Table.{after, is_stuck}
use polymarket_agent.Guardian.Rounds.{guardian_round_lem}

abbrev no_average : List ℕ → ℕ
no_average markets = 0

abbrev lost : ClosedTrade
lost = record { pnl = some (negsuc 4); market_id = none }

abbrev won : ClosedTrade
won = record { pnl = some (pos 7); market_id = some 3 }

-- strategy 1 only loses, the others win
abbrev recent : ℕ → List ClosedTrade
recent name =
    if name == 1 then lost ∷ lost ∷ lost ∷ lost ∷ lost ∷ [] else won ∷ won ∷ won ∷ won ∷ won ∷ []

abbrev on : ℕ → ConfigRecord
on name = record { strategy_name = name; enabled = true; is_disabled_lifecycle = false }

abbrev off : ℕ → ConfigRecord
off name = record { strategy_name = name; enabled = false; is_disabled_lifecycle = true }

-- five losses in a row from the start have a drawdown of 0
losses_without_drawdown : drawdown_exceeds (recent 1) ≡ false
unfolding drawdown_exceeds curve_of add_result
losses_without_drawdown = refl

-- a second version of strategy 1 keeps both enabled, and strategy 2 as it was
two_versions : guardian_round no_average recent (on 1 ∷ on 2 ∷ on 1 ∷ []) ≡ on 1 ∷ on 2 ∷ on 1 ∷ []
unfolding guardian_round evaluate_all evaluate_each evaluate_strategy kill_strategy disable_strategy
    disabled_if is_repeated status_of kill_reasons is_win is_loss total_pnl longest_run add_result
    curve_of drawdown_exceeds expectancy_is_negative markets_of losing_regime_correlation
two_versions = refl

guardian_round_lem_example : guardian_round no_average recent (on 1 ∷ on 2 ∷ []) ≡ off 1 ∷ on 2 ∷ []
unfolding after is_stuck is_repeated status_of kill_reasons is_win is_loss total_pnl longest_run
    add_result curve_of drawdown_exceeds expectancy_is_negative markets_of losing_regime_correlation
guardian_round_lem_example = guardian_round_lem no_average recent (on 1 ∷ on 2 ∷ [])
