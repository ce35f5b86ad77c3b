-- ===== src/Alerts/Laws.antt =====
-- What backend/app/services/alerts/alert_service.py triggers, and when.
use polymarket_agent.Common.{
  ◌≡◌, ◌≢◌, ◌≤◌, ◌<◌, ◌+◌, ◌==◌, ◌⊎◌, ◌||◌, inl, inr, ℕ, Bool, true, false, Option, List, [], ◌∷◌,
  ◌++◌, arith, get_or, refl, All, any, Bool-cases, Option-cases, ap,
}
use polymarket_agent.Alerts.Rules.{AlertRule, Context}
use polymarket_agent.Alerts.Service.{
  Alert, AlertService, seconds, check_rule_cooldown, new_alert, trigger, take_results,
  evaluate_rule, evaluate_rules,
}

-- whether some alert is of a rule
abbrev pub has_rule : ℕ → List Alert → Bool
has_rule r alerts = any (λ a. a.rule == r) alerts

-- What a part of an evaluation does for a rule: its time stays, or it is now; and it is now if an alert of it is
-- triggered.
unfoldable pub IsMarked : ℕ → ℕ → AlertService → List Alert × AlertService → Type 0
IsMarked r now s result =
    ((result.1.cooldowns r ≡ s.cooldowns r) ⊎ (result.1.cooldowns r ≡ now))
    × (has_rule r result.0 ≡ true → result.1.cooldowns r ≡ now)

has_rule-append :
    (r : ℕ) (xs ys : List Alert) → has_rule r (xs ++ ys) ≡ has_rule r xs || has_rule r ys
has_rule-append r [] ys = refl
has_rule-append r (x ∷ xs) ys = ground (arith, has_rule-append r xs ys)

take_results-IsMarked :
    (rule : AlertRule) (r now : ℕ) (results : List (Option ℕ)) (s : AlertService)
    → IsMarked r now s (take_results rule now results s)
unfolding take_results trigger new_alert IsMarked
take_results-IsMarked rule r now [] s = ground arith
take_results-IsMarked rule r now (x ∷ results) s =
    let fired = trigger rule (get_or x 3) now s in
    ground (
      arith,
      take_results-IsMarked rule r now results s,
      take_results-IsMarked rule r now results fired,
    )

nothing-IsMarked : (r now : ℕ) (s : AlertService) → IsMarked r now s ([], s)
unfolding IsMarked
nothing-IsMarked r now s = ground arith

evaluate_rule-IsMarked :
    (rule : AlertRule) (r now : ℕ) (ctx : Context) (s : AlertService)
    → IsMarked r now s (evaluate_rule rule now ctx s)
unfolding evaluate_rule
evaluate_rule-IsMarked rule r now ctx s = elim (Bool-cases (check_rule_cooldown rule now s)) [
  | inl c ↦ elim (Option-cases (rule.evaluate ctx)) [
    | inl e ↦ rw (c, e, evaluate_rule) (nothing-IsMarked r now s)
    | inr (results, e) ↦ rw (c, e, evaluate_rule) (take_results-IsMarked rule r now results s)
  ]
  | inr c ↦ rw (c, evaluate_rule) (nothing-IsMarked r now s)
]

pub evaluate_rules-IsMarked :
    (rules : List AlertRule) (r now : ℕ) (ctx : Context) (s : AlertService)
    → IsMarked r now s (evaluate_rules rules now ctx s)
unfolding evaluate_rules IsMarked
evaluate_rules-IsMarked [] r now ctx s = ground arith
evaluate_rules-IsMarked (rule ∷ rules) r now ctx s =
    let first = evaluate_rule rule now ctx s in
    ground (
      arith,
      evaluate_rule-IsMarked rule r now ctx s,
      evaluate_rules-IsMarked rules r now ctx first.1,
      has_rule-append r first.0 (evaluate_rules rules now ctx first.1).0,
    )

-- Every rule of a name waits for a time at least.
unfoldable pub IsWaiting : ℕ → ℕ → List AlertRule → Type 0
IsWaiting r c rules = All (λ rule. rule.name ≡ r → c ≤ rule.cooldown_seconds) rules

-- nothing of a rule is triggered, and its time stays
unfoldable pub IsQuiet : ℕ → AlertService → List Alert × AlertService → Type 0
IsQuiet r s result = (has_rule r result.0 ≡ false) × (result.1.cooldowns r ≡ s.cooldowns r)

take_results-IsQuiet :
    (rule : AlertRule) (r now : ℕ) (results : List (Option ℕ)) (s : AlertService)
    → rule.name ≢ r
    → IsQuiet r s (take_results rule now results s)
unfolding take_results trigger new_alert IsQuiet
take_results-IsQuiet rule r now [] s h = ground arith
take_results-IsQuiet rule r now (x ∷ results) s h =
    let fired = trigger rule (get_or x 3) now s in
    ground (
      arith,
      take_results-IsQuiet rule r now results s h,
      take_results-IsQuiet rule r now results fired h,
    )

nothing-IsQuiet : (r : ℕ) (s : AlertService) → IsQuiet r s ([], s)
unfolding IsQuiet
nothing-IsQuiet r s = (refl, refl)

other-IsQuiet :
    (rule : AlertRule) (r now : ℕ) (ctx : Context) (s : AlertService)
    → rule.name ≢ r
    → IsQuiet r s (evaluate_rule rule now ctx s)
unfolding evaluate_rule
other-IsQuiet rule r now ctx s h = elim (Bool-cases (check_rule_cooldown rule now s)) [
  | inl c ↦ elim (Option-cases (rule.evaluate ctx)) [
    | inl e ↦ rw (c, e, evaluate_rule) (nothing-IsQuiet r s)
    | inr (results, e) ↦ rw (c, e, evaluate_rule) (take_results-IsQuiet rule r now results s h)
  ]
  | inr c ↦ rw (c, evaluate_rule) (nothing-IsQuiet r s)
]

waits :
    (rule : AlertRule) (r c now : ℕ) (s : AlertService)
    → rule.name ≡ r
    → c ≤ rule.cooldown_seconds
    → now < s.cooldowns r + seconds c
    → check_rule_cooldown rule now s ≡ false
unfolding check_rule_cooldown
waits rule r c now s e h k = ground (arith, ap s.cooldowns e)

same-IsQuiet :
    (rule : AlertRule) (r c now : ℕ) (ctx : Context) (s : AlertService)
    → rule.name ≡ r
    → c ≤ rule.cooldown_seconds
    → now < s.cooldowns r + seconds c
    → IsQuiet r s (evaluate_rule rule now ctx s)
unfolding evaluate_rule
same-IsQuiet rule r c now ctx s e h k =
    rw (waits rule r c now s e h k, evaluate_rule) (nothing-IsQuiet r s)

evaluate_rule-IsQuiet :
    (rule : AlertRule) (r c now : ℕ) (ctx : Context) (s : AlertService)
    → (rule.name ≡ r → c ≤ rule.cooldown_seconds)
    → now < s.cooldowns r + seconds c
    → IsQuiet r s (evaluate_rule rule now ctx s)
evaluate_rule-IsQuiet rule r c now ctx s h k = elim (Bool-cases (rule.name == r)) [
  | inl e ↦ let e' : rule.name ≡ r = ground arith in same-IsQuiet rule r c now ctx s e' (h e') k
  | inr e ↦ other-IsQuiet rule r now ctx s (λ e'. ground arith)
]

pub evaluate_rules-IsQuiet :
    (rules : List AlertRule) (r c now : ℕ) (ctx : Context) (s : AlertService)
    → IsWaiting r c rules
    → now < s.cooldowns r + seconds c
    → IsQuiet r s (evaluate_rules rules now ctx s)
unfolding evaluate_rules IsQuiet IsWaiting
evaluate_rules-IsQuiet [] r c now ctx s h k = (refl, refl)
evaluate_rules-IsQuiet (rule ∷ rules) r c now ctx s h k =
    let first = evaluate_rule rule now ctx s in
    let q = evaluate_rule-IsQuiet rule r c now ctx s h.0 k in
    let l = evaluate_rules-IsQuiet rules r c now ctx first.1 h.1 (omega (arith, q.1)) in
    ground (arith, q, l, has_rule-append r first.0 (evaluate_rules rules now ctx first.1).0)
