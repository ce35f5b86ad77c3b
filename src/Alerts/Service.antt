-- ===== src/Alerts/Service.antt =====
-- `AlertService` of backend/app/services/alerts/alert_service.py.
use polymarket_agent.Common.{
  ℕ, ◌+◌, ◌-◌, ◌*◌, ◌/◌, ◌==◌, Bool, true, false, Option, none, some, not, ◌&&◌, List, [], ◌∷◌,
  ◌++◌, ltb, leb, if◌then◌else◌, get_or, length, drop, keep,
}
use polymarket_agent.Alerts.Rules.{
  AlertRule, Context, Severity, info, warning, critical, build_all_rules,
}

pub data AlertStatus : Type 0 where
  triggered acknowledged_status resolved : AlertStatus

pub record Alert : Type 0 where
  pub id : ℕ
  pub rule : ℕ
  pub severity : Severity
  pub entity_id : ℕ
  pub timestamp : ℕ
  pub status : AlertStatus
  pub acknowledged : Bool
  pub escalation_level : ℕ

-- The service; a time that is not there is read as 0, as is a count. `next_id` is the id of the next alert.
pub record AlertService : Type 0 where
  pub rules : List AlertRule
  pub alert_history : List Alert
  pub cooldowns : ℕ → ℕ
  pub entity_cooldowns : ℕ → ℕ → ℕ
  pub escalation_counts : ℕ → ℕ → ℕ
  pub dedup_window : ℕ → ℕ → ℕ
  pub next_id : ℕ

abbrev pub max_history : ℕ
max_history = 2000

-- the default of `result.get("entity_id", "global")`
abbrev pub global_entity : ℕ
global_entity = 3

-- a new service
unfoldable pub init : AlertService
init = record {
  rules = [];
  alert_history = [];
  cooldowns = λ r. 0;
  entity_cooldowns = λ r e. 0;
  escalation_counts = λ r e. 0;
  dedup_window = λ r e. 0;
  next_id = 0;
}

unfoldable pub register_rules : List AlertRule → AlertService → AlertService
register_rules rules s = record s { rules = s.rules ++ rules }

unfoldable pub register_default_rules : AlertService → AlertService
unfolding register_rules
register_default_rules s = register_rules build_all_rules s

-- `d[k] = v`
abbrev pub set : ℕ → ℕ → (ℕ → ℕ) → ℕ → ℕ
set k v d j = if j == k then v else d j

abbrev pub set_at : ℕ → ℕ → ℕ → (ℕ → ℕ → ℕ) → ℕ → ℕ → ℕ
set_at r e v d j k = if j == r && k == e then v else d j k

abbrev pub seconds : ℕ → ℕ
seconds n = n * 1000000

-- `_check_rule_cooldown`
unfoldable pub check_rule_cooldown : AlertRule → ℕ → AlertService → Bool
check_rule_cooldown rule now s = leb (s.cooldowns rule.name + seconds rule.cooldown_seconds) now

-- `_check_entity_cooldown`
unfoldable pub check_entity_cooldown : AlertRule → ℕ → ℕ → AlertService → Bool
check_entity_cooldown rule entity now s =
    let third = rule.cooldown_seconds / 3 in
    let min_cd = if ltb third 10 then 10 else third in
    leb (s.entity_cooldowns rule.name entity + seconds min_cd) now

abbrev pub severity_index : Severity → ℕ
severity_index info = 0
severity_index warning = 1
severity_index critical = 2

abbrev pub severity_of : ℕ → Severity
severity_of n = if n == 0 then info else if n == 1 then warning else critical

-- `_get_effective_severity`
unfoldable pub get_effective_severity : AlertRule → ℕ → AlertService → Severity
get_effective_severity rule entity s =
    severity_of (severity_index rule.severity + s.escalation_counts rule.name entity / 3)

-- `_is_spam`
unfoldable pub is_spam : ℕ → ℕ → ℕ → AlertService → Bool
is_spam entity name now s = ltb now (s.dedup_window name entity + seconds 5)

unfoldable pub new_alert : AlertRule → ℕ → ℕ → AlertService → Alert
unfolding get_effective_severity
new_alert rule entity now s = record {
  id = s.next_id;
  rule = rule.name;
  severity = get_effective_severity rule entity s;
  entity_id = entity;
  timestamp = now;
  status = triggered;
  acknowledged = false;
  escalation_level = s.escalation_counts rule.name entity;
}

-- an alert that is triggered
unfoldable pub trigger : AlertRule → ℕ → ℕ → AlertService → AlertService
unfolding new_alert
trigger rule entity now s = record s {
  alert_history = s.alert_history ++ new_alert rule entity now s ∷ [];
  cooldowns = set rule.name now s.cooldowns;
  entity_cooldowns = set_at rule.name entity now s.entity_cooldowns;
  escalation_counts =
      set_at rule.name entity (s.escalation_counts rule.name entity + 1) s.escalation_counts;
  dedup_window = set_at rule.name entity now s.dedup_window;
  next_id = s.next_id + 1;
}

-- the inner loop of `evaluate`, with what it triggers
unfoldable pub take_results :
    AlertRule → ℕ → List (Option ℕ) → AlertService → List Alert × AlertService
unfolding check_entity_cooldown is_spam trigger
take_results rule now [] s = ([], s)
take_results rule now (r ∷ rs) s =
    let entity = get_or r global_entity in
    let (later, after) = take_results rule now rs (trigger rule entity now s) in
    let skipped = take_results rule now rs s in
    if check_entity_cooldown rule entity now s && not (is_spam entity rule.name now s)
    then (new_alert rule entity now s ∷ later, after)
    else skipped

-- a round of the outer loop
unfoldable pub evaluate_rule : AlertRule → ℕ → Context → AlertService → List Alert × AlertService
unfolding check_rule_cooldown take_results
evaluate_rule rule now ctx s =
    if check_rule_cooldown rule now s
    then elim (rule.evaluate ctx) [
      | none ↦ ([], s)
      | some results ↦ take_results rule now results s
    ]
    else ([], s)

unfoldable pub evaluate_rules :
    List AlertRule → ℕ → Context → AlertService → List Alert × AlertService
unfolding evaluate_rule
evaluate_rules [] now ctx s = ([], s)
evaluate_rules (rule ∷ rules) now ctx s =
    let (first, s') = evaluate_rule rule now ctx s in
    let (later, s'') = evaluate_rules rules now ctx s' in (first ++ later, s'')

-- `_trim_history`
unfoldable pub trim_history : AlertService → AlertService
trim_history s =
    if ltb max_history (length s.alert_history)
    then record s { alert_history = drop (length s.alert_history - max_history) s.alert_history }
    else s

-- `evaluate`
unfoldable pub evaluate : ℕ → Context → AlertService → List Alert × AlertService
unfolding evaluate_rules trim_history
evaluate now ctx s =
    let (alerts, s') = evaluate_rules s.rules now ctx s in (alerts, trim_history s')

-- a change of the first alert with an id; the flag says whether there is one
unfoldable pub change_alert : (Alert → Alert) → ℕ → List Alert → Bool × List Alert
change_alert change id [] = (false, [])
change_alert change id (a ∷ others) =
    let (found, rest) = change_alert change id others in
    if a.id == id then (true, change a ∷ others) else (found, a ∷ rest)

unfoldable pub acknowledge : ℕ → AlertService → Bool × AlertService
unfolding change_alert
acknowledge id s =
    let (found, alerts) =
      change_alert (λ a. record a { acknowledged = true; status = acknowledged_status }) id
        s.alert_history in
    (found, record s { alert_history = alerts })

unfoldable pub dismiss : ℕ → AlertService → Bool × AlertService
unfolding change_alert
dismiss id s =
    let (found, alerts) = change_alert (λ a. record a { status = resolved }) id s.alert_history in
    (found, record s { alert_history = alerts })

unfoldable pub resolve_alerts : ℕ → List Alert → List Alert
resolve_alerts entity [] = []
resolve_alerts entity (a ∷ others) =
    let is_open : Bool = elim a.status [
      | triggered ↦ true
      | acknowledged_status ↦ true
      | resolved ↦ false
    ] in
    (if a.entity_id == entity && is_open then record a { status = resolved } else a)
    ∷ resolve_alerts entity others

unfoldable pub resolve_all_for_entity : ℕ → AlertService → AlertService
unfolding resolve_alerts
resolve_all_for_entity entity s = record s { alert_history = resolve_alerts entity s.alert_history }

unfoldable pub get_unacknowledged : AlertService → List Alert
get_unacknowledged s = keep (λ a. not a.acknowledged) s.alert_history
