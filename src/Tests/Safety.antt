-- ===== src/Tests/Safety.antt =====
-- The safety gate of backend/app/services/safety/execution_safety_gate.py at concrete contexts.
use polymarket_agent.Common.{◌≡◌, ◌↔◌, refl, true, false, [], ◌∷◌}
use polymarket_agent.Safety.{
  kill_switch_active, ExecutionContext, reasons_of, reset_metrics, validate, count_reasons,
  flag_reasons,
}
use polymarket_agent.Safety.Laws.{IsWithinLimits, validate-allowed}

abbrev calm : ExecutionContext
calm = record {
  position_size_eur = 1000;
  portfolio_exposure = 1500;
  drawdown = 1499;
  regime_confidence = 6000;
  drift_score = 0;
  stability_score = 500;
  risk_flags = [];
}

abbrev flagged : ExecutionContext
flagged = record calm { position_size_eur = 1001; risk_flags = kill_switch_active ∷ [] }

flagged_twice : (validate false flagged reset_metrics).1.block_reasons 6 ≡ 1
unfolding validate reasons_of reset_metrics count_reasons flag_reasons
flagged_twice = refl

validate-allowed_example :
    ((validate false calm reset_metrics).0.allowed ≡ true) ↔ ((false ≡ false) × IsWithinLimits calm)
validate-allowed_example = validate-allowed false calm reset_metrics
