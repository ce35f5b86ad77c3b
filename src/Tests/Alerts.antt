-- ===== src/Tests/Alerts.antt =====
-- Alerts of backend/app/services/alerts/alert_service.py over concrete contexts.
use polymarket_agent.Common.{◌≡◌, refl, true, false, some, none, List, [], ◌∷◌, All, ℕ, arith}
use polymarket_agent.Alerts.Rules.{
  Context, build_all_rules, normalize_fill_event, execution_rules, risk_rules, system_rules,
  order_results, slow_fills, exceeds_limit,
}
use polymarket_agent.Alerts.Service.{
  AlertService, init, register_default_rules, register_rules, evaluate, evaluate_rules,
  evaluate_rule, take_results, check_rule_cooldown, check_entity_cooldown, is_spam, new_alert,
  trigger,
}
use polymarket_agent.Alerts.Laws.{has_rule, IsWaiting}
use polymarket_agent.Alerts.Silence.{evaluate_calls, evaluate_silences, evaluate_fill_event}

-- a drawdown of 20 hundredths with a limit of 15
abbrev falling : Context
falling = record {
  active_orders = [];
  recent_fills = [];
  total_exposure = none;
  exposure_limit = none;
  drawdown = some 20;
  drawdown_limit = some 15;
  concentration_pct = none;
  concentration_limit = none;
  mismatch_detected = false;
  drift_alerts = [];
  snapshot_age_seconds = none;
}

abbrev service : AlertService
service = register_default_rules init

triggers : has_rule 4 (evaluate 1000000000 falling service).0 ≡ true
unfolding evaluate evaluate_rules evaluate_rule take_results check_rule_cooldown
    check_entity_cooldown is_spam new_alert trigger register_default_rules register_rules init
    build_all_rules execution_rules risk_rules system_rules order_results slow_fills exceeds_limit
triggers = refl

waits : IsWaiting 4 300 service.rules
unfolding IsWaiting register_default_rules register_rules init build_all_rules execution_rules
    risk_rules system_rules
waits = ground arith

registered : service.rules ≡ build_all_rules
unfolding register_default_rules register_rules init
registered = refl

-- one minute later, and nearly four
abbrev calls : List (ℕ × Context)
calls = (1060000000, falling) ∷ (1200000000, falling) ∷ []

evaluate_silences_example :
    All
      (λ alerts. has_rule 4 alerts ≡ false)
      (evaluate_calls calls (evaluate 1000000000 falling service).1).0
evaluate_silences_example =
    evaluate_silences 4 300 1000000000 falling calls service waits triggers
      (omega arith, (omega arith, tt))

evaluate_fill_event_example : (evaluate 1000000000 normalize_fill_event service).0 ≡ []
evaluate_fill_event_example = evaluate_fill_event 1000000000 service registered
