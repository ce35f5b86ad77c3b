-- ===== src/Mode/Manager.antt =====
-- `ModeManager` of backend/app/core/system_mode.py. Every method takes the reading of
-- `time.monotonic()` at which it runs, in milliseconds, and returns the new manager. The manager
-- holds what its methods write outside it too: the module's `_LOCAL_CACHE`, the Redis key
-- `system:mode`, the rows of the transition table, and the metrics of the mode.
use Prim.Native.String.{String}
use polymarket_agent.Common.{
  ℕ, ◌-◌, ◌*◌, Bool, true, false, Option, none, some, not, List, [], ◌∷◌, ◌++◌, ◌&&◌, ◌||◌, ltb,
  leb, ◌==◌, if◌then◌else◌, get_or, keep,
}
use polymarket_agent.Mode.Kind.{
  SystemMode, normal, shadow, degraded, protected, read_only, emergency_stop, index, same, update,
}
use polymarket_agent.Mode.Context.{ModeContext, mode_context, get_hold_time}
use polymarket_agent.Mode.Metrics.{
  HealthMetrics, Reason, manual_override, mode_value, given, is_truthy, compute_mode_from_metrics,
}

-- `triggered_by` is always `["manual_override"]` or empty: `is_manual_override` says which.
pub record ModeSnapshot : Type 0 where
  pub mode : SystemMode
  pub reason : Reason
  pub updated_at : ℕ
  pub ttl_seconds : Option ℕ
  pub is_manual_override : Bool
  pub operator : String

pub record Vote : Type 0 where
  pub reason : String
  pub source : String
  pub severity : ℕ
  pub timestamp : ℕ

-- the JSON payload of `_persist`, also the shape of `_LOCAL_CACHE`
pub record Persisted : Type 0 where
  pub mode : SystemMode
  pub reason : Reason
  pub updated_at : ℕ

-- `SystemModeTransition`, less the metrics and the duration
pub record TransitionRow : Type 0 where
  pub from_mode : SystemMode
  pub to_mode : SystemMode
  pub reason : Reason
  pub is_manual : Bool
  pub operator : String

-- Whether Redis and the database answer while a method runs: `_persist` and
-- `record_transition_db` catch every exception.
pub record Services : Type 0 where
  pub redis_up : Bool
  pub db_up : Bool

pub record Manager : Type 0 where
  pub override : Option ModeSnapshot
  pub mode : SystemMode
  pub reason : Reason
  pub last_transition_time : ℕ
  pub vote_counts : SystemMode → List Vote
  pub entry_time : SystemMode → Option ℕ
  pub local_cache : Persisted
  pub stored : Option Persisted
  pub rows : List TransitionRow
  pub mode_gauge : SystemMode → ℕ
  pub transitions_total : List (SystemMode × SystemMode)

-- `ModeManager()` in a fresh process
unfoldable pub init : Manager
init = record {
  override = none;
  mode = normal;
  reason = given "";
  last_transition_time = 0;
  vote_counts = λ m. [];
  entry_time = λ m. none;
  local_cache = record { mode = normal; reason = given ""; updated_at = 0 };
  stored = none;
  rows = [];
  mode_gauge = λ m. 0;
  transitions_total = [];
}

-- `_minimum_duration.get(mode, 60.0)`
unfoldable pub minimum_duration : SystemMode → ℕ
minimum_duration normal = 120000
minimum_duration shadow = 60000
minimum_duration degraded = 60000
minimum_duration protected = 60000
minimum_duration read_only = 30000
minimum_duration emergency_stop = 10000

-- A lifetime of 0 seconds is false in Python, and never expires.
unfoldable pub has_expired : Option ℕ → ℕ → Bool
has_expired none elapsed = false
has_expired (some ttl) elapsed = not (ttl == 0) && leb (ttl * 1000) elapsed

-- `self._override and self._is_override_valid()`: the override that is in force
valid_override : Option ModeSnapshot → ℕ → Option ModeSnapshot
valid_override none now = none
valid_override (some o) now =
    if has_expired o.ttl_seconds (now - o.updated_at) then none else some o

-- The test drops an override that has expired.
unfoldable pub check_override : Manager → ℕ → Manager
unfolding has_expired valid_override
check_override s now = record s { override = valid_override s.override now }

mode_of : Option ModeSnapshot → SystemMode → SystemMode
mode_of none mode = mode
mode_of (some o) mode = o.mode

unfoldable pub get_mode : Manager → ℕ → SystemMode × Manager
unfolding check_override mode_of
get_mode s now = let s' = check_override s now in (mode_of s'.override s'.mode, s')

-- It reads `_mode`, not the override.
unfoldable pub get_context : Manager → ModeContext
unfolding mode_context
get_context s = mode_context s.mode

snapshot_of : Option ModeSnapshot → Manager → ℕ → ModeSnapshot
snapshot_of (some o) s now = o
snapshot_of none s now = record {
  mode = s.mode;
  reason = s.reason;
  updated_at = if s.last_transition_time == 0 then now else s.last_transition_time;
  ttl_seconds = none;
  is_manual_override = false;
  operator = "";
}

unfoldable pub get_snapshot : Manager → ℕ → ModeSnapshot × Manager
unfolding check_override snapshot_of
get_snapshot s now = let s' = check_override s now in (snapshot_of s'.override s' now, s')

unfoldable pub request_mode : Manager → ℕ → SystemMode → String → String → ℕ → Manager
unfolding update
request_mode s now target why source severity =
    let v : Vote = record { reason = why; source = source; severity = severity; timestamp = now } in
    record s { vote_counts = update target (s.vote_counts target ++ v ∷ []) s.vote_counts }

-- `_persist`
unfoldable pub persist : Bool → ℕ → SystemMode → Reason → Manager → Manager
persist false now mode reason s = s
persist true now mode reason s =
    let p : Persisted = record { mode = mode; reason = reason; updated_at = now } in
    record s { local_cache = p; stored = some p }

unfoldable pub record_transition_db : Bool → TransitionRow → Manager → Manager
record_transition_db false row s = s
record_transition_db true row s = record s { rows = s.rows ++ row ∷ [] }

unfoldable pub set_manual_override :
    Services → Manager → ℕ → SystemMode → String → String → ℕ → Manager
unfolding persist record_transition_db
set_manual_override env s now mode why operator ttl =
    let o : ModeSnapshot = record {
      mode = mode;
      reason = given why;
      updated_at = now;
      ttl_seconds = some ttl;
      is_manual_override = true;
      operator = operator;
    } in
    let row : TransitionRow = record {
      from_mode = s.mode;
      to_mode = mode;
      reason = given why;
      is_manual = true;
      operator = operator;
    } in
    record_transition_db env.db_up row
      (persist env.redis_up now mode (manual_override why) (record s { override = some o }))

unfoldable pub clear_manual_override : Manager → Manager
clear_manual_override s = record s { override = none }

-- A list of votes that becomes empty loses its key, which a `defaultdict` reads as empty.
unfoldable pub prune_stale_votes : ℕ → Manager → Manager
prune_stale_votes now s = record s {
  vote_counts = λ m. keep (λ v. ltb (now - v.timestamp) 30000) (s.vote_counts m);
}

-- `downgrade_map` at the current mode, and the target where it has no entry
unfoldable pub downgrade : SystemMode → SystemMode → SystemMode
downgrade protected target = degraded
downgrade degraded target = normal
downgrade current target = target

-- The mode to go to, from the time at which the current one was entered.
unfoldable pub hysteresis : SystemMode → SystemMode → Option ℕ → ℕ → SystemMode
unfolding same index get_hold_time minimum_duration downgrade
hysteresis current target entered now =
    if same target current
    then target
    else if ltb (index current) (index target)
    then (if same target emergency_stop then target else elim entered [
      | none ↦ target
      | some t ↦ if ltb (now - t) (get_hold_time current) then current else target
    ])
    else elim entered [
      | none ↦ target
      | some t ↦
          if ltb (now - t) (minimum_duration current) then current else downgrade current target
    ]

unfoldable pub apply_hysteresis : Manager → SystemMode → ℕ → SystemMode
apply_hysteresis s target now = hysteresis s.mode target (s.entry_time s.mode) now

unfoldable pub transition : Services → Manager → ℕ → SystemMode → Reason → Manager
unfolding persist record_transition_db update same
transition env s now target reason =
    let previous = s.mode in
    let gauge = update target 1 s.mode_gauge in
    let row : TransitionRow = record {
      from_mode = previous;
      to_mode = target;
      reason = reason;
      is_manual = false;
      operator = "";
    } in
    record_transition_db env.db_up row (
      persist env.redis_up now target reason (record s {
        mode = target;
        reason = reason;
        last_transition_time = now;
        entry_time = update target (some now) s.entry_time;
        mode_gauge = if same previous target then gauge else update previous 0 gauge;
        transitions_total = s.transitions_total ++ (previous, target) ∷ [];
      }))

-- `reason or mode.value`
unfoldable pub reason_or : Reason → SystemMode → Reason
unfolding is_truthy
reason_or reason m = if is_truthy reason then reason else mode_value m

-- `evaluate` once no override is in force
unfoldable pub evaluate_metrics : Services → Manager → ℕ → HealthMetrics → SystemMode × Manager
unfolding prune_stale_votes apply_hysteresis
evaluate_metrics env s now metrics =
    let pruned = prune_stale_votes now s in
    let (computed, reason) = compute_mode_from_metrics pruned.mode metrics in
    let seen : Manager = record pruned { reason = reason } in
    let proposed = apply_hysteresis seen computed now in
    let moved =
      if not (same proposed seen.mode)
      then transition env seen now proposed (reason_or seen.reason proposed)
      else record seen { reason = reason_or seen.reason proposed } in
    (moved.mode, record moved { vote_counts = λ m. [] })

unfoldable pub evaluate : Services → Manager → ℕ → HealthMetrics → SystemMode × Manager
unfolding check_override evaluate_metrics
evaluate env s now metrics =
    let s' = check_override s now in
    elim s'.override [ some o ↦ (o.mode, s') | none ↦ evaluate_metrics env s' now metrics ]

-- What Redis answers for the stored mode: an exception, no value, a value that is no JSON object or
-- names no mode, or a payload whose keys may be missing.
pub data StoredReply : Type 0 where
  fails absent malformed : StoredReply
  payload : Option SystemMode → Option Reason → Option ℕ → StoredReply

unfoldable pub load_from_redis : Manager → StoredReply → Manager
load_from_redis s (payload mode reason updated_at) =
    let loaded = get_or mode normal in
    record s {
      mode = loaded;
      reason = get_or reason (given "");
      last_transition_time = get_or updated_at 0;
      local_cache = record s.local_cache { mode = loaded };
    }
load_from_redis s _ = s

unfoldable pub can_process : Manager → Bool
unfolding same
can_process s = not (same s.mode emergency_stop || same s.mode read_only)

unfoldable pub can_write : Manager → Bool
unfolding same
can_write s = not (same s.mode emergency_stop || (same s.mode read_only || same s.mode protected))

unfoldable pub can_execute_trades : Manager → Bool
unfolding same
can_execute_trades s = same s.mode normal

unfoldable pub is_shadow : Manager → Bool
unfolding same
is_shadow s = same s.mode shadow

unfoldable pub can_recover : Manager → Bool
unfolding same
can_recover s = not (same s.mode emergency_stop || same s.mode read_only)
