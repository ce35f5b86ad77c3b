-- ===== src/Alerts/Silence.antt =====
-- When backend/app/services/alerts/alert_service.py is silent, and how long its history gets.
use polymarket_agent.Common.{
  ◌≡◌, ◌≤◌, ◌<◌, ◌+◌, ◌-◌, ℕ, true, false, Option, some, List, [], ◌∷◌, arith, get_or, refl, All,
  length, length-drop, Bool-cases, inl, inr, ap, sym, ◌∙◌,
}
use polymarket_agent.Alerts.Rules.{
  AlertRule, Context, build_all_rules, execution_rules, risk_rules, system_rules,
  normalize_fill_event, order_results, slow_fills, exceeds_limit,
}
use mathlib.Core.Path.{subst}
use polymarket_agent.Alerts.Service.{
  Alert, AlertService, seconds, check_rule_cooldown, trigger, take_results, evaluate_rule,
  evaluate_rules, trim_history, evaluate, max_history,
}
use polymarket_agent.Alerts.Laws.{
  has_rule, IsMarked, IsWaiting, IsQuiet, evaluate_rules-IsMarked, evaluate_rules-IsQuiet,
}

take_results-rules :
    (rule : AlertRule) (now : ℕ) (results : List (Option ℕ)) (s : AlertService)
    → (take_results rule now results s).1.rules ≡ s.rules
unfolding take_results trigger
take_results-rules rule now [] s = refl
take_results-rules rule now (x ∷ results) s = ground (
  arith,
  take_results-rules rule now results s,
  take_results-rules rule now results (trigger rule (get_or x 3) now s),
)

evaluate_rule-rules :
    (rule : AlertRule) (now : ℕ) (ctx : Context) (s : AlertService)
    → (evaluate_rule rule now ctx s).1.rules ≡ s.rules
unfolding evaluate_rule
evaluate_rule-rules rule now ctx s =
    ground (arith, take_results-rules rule now (get_or (rule.evaluate ctx) []) s)

evaluate_rules-rules :
    (rules : List AlertRule) (now : ℕ) (ctx : Context) (s : AlertService)
    → (evaluate_rules rules now ctx s).1.rules ≡ s.rules
unfolding evaluate_rules
evaluate_rules-rules [] now ctx s = refl
evaluate_rules-rules (rule ∷ rules) now ctx s =
    evaluate_rules-rules rules now ctx (evaluate_rule rule now ctx s).1
    ∙ evaluate_rule-rules rule now ctx s

trim_history_lem :
    (s : AlertService)
    → ((trim_history s).rules ≡ s.rules)
      × ((trim_history s).cooldowns ≡ s.cooldowns)
      × (length (trim_history s).alert_history ≤ max_history)
unfolding trim_history
trim_history_lem s =
    ground (arith, length-drop (length s.alert_history - max_history) s.alert_history)

-- evaluations one after the other, each with its time and its context: their alerts, and the service
unfoldable pub evaluate_calls : List (ℕ × Context) → AlertService → List (List Alert) × AlertService
evaluate_calls [] s = ([], s)
evaluate_calls ((now, ctx) ∷ calls) s =
    let (alerts, s') = evaluate now ctx s in
    let (rest, last) = evaluate_calls calls s' in (alerts ∷ rest, last)

evaluate-rules :
    (now : ℕ) (ctx : Context) (s : AlertService) → (evaluate now ctx s).1.rules ≡ s.rules
unfolding evaluate
evaluate-rules now ctx s =
    (trim_history_lem (evaluate_rules s.rules now ctx s).1).0
    ∙ evaluate_rules-rules s.rules now ctx s

evaluate_marks :
    (r now : ℕ) (ctx : Context) (s : AlertService)
    → has_rule r (evaluate now ctx s).0 ≡ true
    → (evaluate now ctx s).1.cooldowns r ≡ now
unfolding evaluate IsMarked
evaluate_marks r now ctx s h =
    let s' = (evaluate_rules s.rules now ctx s).1 in
    ap (λ (f : ℕ → ℕ). f r) (trim_history_lem s').1
    ∙ (evaluate_rules-IsMarked s.rules r now ctx s).1 h

evaluate-IsQuiet :
    (r c now : ℕ) (ctx : Context) (s : AlertService)
    → IsWaiting r c s.rules
    → now < s.cooldowns r + seconds c
    → IsQuiet r s (evaluate now ctx s)
unfolding evaluate IsQuiet
evaluate-IsQuiet r c now ctx s w k =
    let s' = (evaluate_rules s.rules now ctx s).1 in
    let (q, t) = evaluate_rules-IsQuiet s.rules r c now ctx s w k in
    (q, ap (λ (f : ℕ → ℕ). f r) (trim_history_lem s').1 ∙ t)

silent_each :
    (r c : ℕ) (calls : List (ℕ × Context)) (s : AlertService)
    → IsWaiting r c s.rules
    → All (λ x. x.0 < s.cooldowns r + seconds c) calls
    → All (λ alerts. has_rule r alerts ≡ false) (evaluate_calls calls s).0
unfolding evaluate_calls IsQuiet
silent_each r c [] s w k = tt
silent_each r c ((now, ctx) ∷ calls) s w k =
    let s' = (evaluate now ctx s).1 in
    let (q, t) = evaluate-IsQuiet r c now ctx s w k.0 in
    let w' : IsWaiting r c s'.rules = subst (IsWaiting r c) (sym (evaluate-rules now ctx s)) w in
    let k' : All (λ x. x.0 < s'.cooldowns r + seconds c) calls =
      subst (λ n. All (λ x. x.0 < n + seconds c) calls) (sym t) k.1 in
    (q, silent_each r c calls s' w' k')

-- An alert silences its rule: after an evaluation that triggers an alert of a rule, none of the evaluations that
-- follow triggers another of that rule, for any entity and in any contexts, however many they are, as long as
-- each comes before the time has passed that each registered rule of the name waits at least.
pub evaluate_silences :
    (r c now : ℕ) (ctx : Context) (calls : List (ℕ × Context)) (s : AlertService)
    → IsWaiting r c s.rules
    → has_rule r (evaluate now ctx s).0 ≡ true
    → All (λ x. x.0 < now + seconds c) calls
    → All (λ alerts. has_rule r alerts ≡ false) (evaluate_calls calls (evaluate now ctx s).1).0
evaluate_silences r c now ctx calls s w h k =
    let s' = (evaluate now ctx s).1 in
    silent_each r c calls s' (subst (IsWaiting r c) (sym (evaluate-rules now ctx s)) w)
      (subst (λ n. All (λ x. x.0 < n + seconds c) calls) (sym (evaluate_marks r now ctx s h)) k)

-- However many alerts are triggered, the history holds at most 2000 after an evaluation.
pub length-evaluate :
    (now : ℕ) (ctx : Context) (s : AlertService)
    → length (evaluate now ctx s).1.alert_history ≤ max_history
unfolding evaluate
length-evaluate now ctx s = (trim_history_lem (evaluate_rules s.rules now ctx s).1).2

no_results :
    (rule : AlertRule) (now : ℕ) (ctx : Context) (s : AlertService)
    → rule.evaluate ctx ≡ some []
    → evaluate_rule rule now ctx s ≡ ([], s)
unfolding evaluate_rule take_results
no_results rule now ctx s h = elim (Bool-cases (check_rule_cooldown rule now s)) [
  | inl c ↦ rw (c, h, evaluate_rule) refl
  | inr c ↦ rw (c, evaluate_rule) refl
]

All-empty :
    (rules : List AlertRule) (now : ℕ) (ctx : Context) (s : AlertService)
    → All (λ rule. rule.evaluate ctx ≡ some []) rules
    → (evaluate_rules rules now ctx s).0 ≡ []
unfolding evaluate_rules
All-empty [] now ctx s h = refl
All-empty (rule ∷ rules) now ctx s h =
    rw (no_results rule now ctx s h.0, evaluate_rules) (All-empty rules now ctx s h.1)

fill_results : All (λ rule. rule.evaluate normalize_fill_event ≡ some []) build_all_rules
unfolding build_all_rules execution_rules risk_rules system_rules normalize_fill_event order_results
    slow_fills exceeds_limit
fill_results = (refl, (refl, (refl, (refl, (refl, (refl, (refl, (refl, (refl, tt)))))))))

-- The event of a fill triggers none of the default rules, where these are the registered ones, whenever it
-- comes and whatever was triggered before.
pub evaluate_fill_event :
    (now : ℕ) (s : AlertService)
    → s.rules ≡ build_all_rules
    → (evaluate now normalize_fill_event s).0 ≡ []
unfolding evaluate
evaluate_fill_event now s h =
    ap (λ (rules : List AlertRule). (evaluate_rules rules now normalize_fill_event s).0) h
    ∙ All-empty build_all_rules now normalize_fill_event s fill_results
