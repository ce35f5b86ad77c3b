-- ===== src/Scheduler.antt =====
-- `TaskScheduler` of backend/app/services/scheduler/task_scheduler.py. The hash of a job in Redis is a record
-- whose fields are there or not. Whether Redis gives a client and answers each command is a part of a round,
-- as is what the callback does; a write that raises has written nothing. `decodes` is `decode_responses` of
-- the client, which backend/app/redis.py sets. The stream of executions is not trimmed, and names are numbers.
pub mod Laws
pub mod Failing
use polymarket_agent.Common.{
  ℕ, ◌+◌, ◌==◌, Bool, true, false, Option, none, some, not, ◌&&◌, List, [], ◌∷◌, ◌++◌, leb,
  if◌then◌else◌, get_or, map,
}
use polymarket_agent.Common.Dict.{Dict, lookup, insert, contains}
use polymarket_agent.Redis.{Wire, str, bytes}

-- The hash of a job; "0" and "1" of `enabled` are Booleans, and "" of `last_run` is `none`.
pub record JobHash : Type 0 where
  pub interval : Option ℕ
  pub enabled : Option Bool
  pub retry_count : Option ℕ
  pub last_run : Option (Option ℕ)

abbrev pub no_hash : JobHash
no_hash = record { interval = none; enabled = none; retry_count = none; last_run = none }

-- What a callback does, with its duration or its error.
pub data Outcome : Type 0 where
  returns raises : ℕ → Outcome
  is_cancelled : Outcome

-- `record` of `_record_execution`
pub data Execution : Type 0 where
  success : ℕ → ℕ → Execution
  failure : ℕ → ℕ → Execution

-- The alert that `_increment_retry` passes on.
pub record Incident : Type 0 where
  pub job : ℕ
  pub retries : ℕ
  pub last_error : ℕ

-- The scheduler with the hashes and the streams of Redis, and the incidents.
pub record Scheduler : Type 0 where
  pub callbacks : List ℕ
  pub jobs : Dict JobHash
  pub history : List Execution
  pub incidents : List Incident

-- A round of the loop of a job: the time, what its callback does, and which calls of Redis answer.
pub record Round : Type 0 where
  pub now : ℕ
  pub outcome : Outcome
  pub gets_client : Bool
  pub reads_enabled : Bool
  pub adds_history : Bool
  pub writes_success : Bool
  pub gets_retry_client : Bool
  pub reads_retry : Bool
  pub writes_retry : Bool
  pub creates_incident : Bool

pub data Result : Type 0 where
  skipped succeeded failed cancelled : Result

unfoldable pub hash_of : ℕ → Scheduler → JobHash
hash_of name s = get_or (lookup name s.jobs) no_hash

-- `hset`
unfoldable pub write_hash : ℕ → JobHash → Scheduler → Scheduler
write_hash name h s = record s { jobs = insert name h s.jobs }

-- `register_job`, for whether `hset` answers
unfoldable pub register_job : Bool → ℕ → ℕ → Bool → Scheduler → Scheduler
unfolding write_hash
register_job answers name interval enabled s =
    let registered =
      if contains name (map (λ n. (n, n)) s.callbacks)
      then s
      else record s { callbacks = s.callbacks ++ name ∷ [] } in
    let h : JobHash = record {
      interval = some interval;
      enabled = some enabled;
      retry_count = some 0;
      last_run = some none;
    } in
    if answers then write_hash name h registered else registered

-- `enable_job` and `disable_job`
unfoldable pub set_enabled : Bool → ℕ → Bool → Scheduler → Scheduler
unfolding write_hash hash_of
set_enabled answers name value s =
    if answers then write_hash name (record (hash_of name s) { enabled = some value }) s else s

unfoldable pub disable_job : Bool → ℕ → Scheduler → Scheduler
unfolding set_enabled
disable_job answers name s = set_enabled answers name false s

unfoldable pub enable_job : Bool → ℕ → Scheduler → Scheduler
unfolding set_enabled
enable_job answers name s = set_enabled answers name true s

-- a value in a reply
abbrev pub reply : {A : Type 0} → Bool → A → Wire A
reply decodes a = if decodes then str a else bytes a

-- `enabled == b"0"`
abbrev pub is_zero_bytes : Wire Bool → Bool
is_zero_bytes (str b) = false
is_zero_bytes (bytes b) = not b

-- whether a round goes back to sleep
unfoldable pub skips : Bool → ℕ → Round → Scheduler → Bool
unfolding hash_of
skips decodes name r s =
    r.gets_client
    && r.reads_enabled
    && elim (hash_of name s).enabled [ none ↦ false | some b ↦ is_zero_bytes (reply decodes b) ]

-- `_record_execution`
unfoldable pub record_execution : Bool → Execution → Scheduler → Scheduler
record_execution answers e s = if answers then record s { history = s.history ++ e ∷ [] } else s

-- the writes after a callback that returned
unfoldable pub write_success : ℕ → Round → Scheduler → Scheduler
unfolding hash_of write_hash
write_success name r s =
    if r.gets_client && r.writes_success
    then write_hash name
        (record (hash_of name s) { retry_count = some 0; last_run = some (some r.now) }) s
    else s

-- the count of `_increment_retry`, which is 0 where it could not be read
unfoldable pub next_retry : ℕ → Round → Scheduler → ℕ
unfolding hash_of
next_retry name r s =
    if r.gets_retry_client && r.reads_retry then get_or (hash_of name s).retry_count 0 + 1 else 0

unfoldable pub write_retry : ℕ → Round → Scheduler → Scheduler
unfolding hash_of write_hash next_retry
write_retry name r s =
    if r.gets_retry_client && r.reads_retry && r.writes_retry
    then write_hash name (record (hash_of name s) { retry_count = some (next_retry name r s) }) s
    else s

-- the incident of `_increment_retry`, where it is created
unfoldable pub report_failing : ℕ → ℕ → ℕ → Bool → Scheduler → Scheduler
report_failing name error count creates s =
    if leb 5 count && creates
    then record s {
      incidents = s.incidents ++ record { job = name; retries = count; last_error = error } ∷ [];
    }
    else s

-- `_increment_retry`
unfoldable pub increment_retry : ℕ → ℕ → Round → Scheduler → Scheduler
unfolding next_retry write_retry report_failing
increment_retry name error r s =
    report_failing name error (next_retry name r s) r.creates_incident (write_retry name r s)

-- a round of `_run_job` that is not skipped
unfoldable pub run_callback : ℕ → Round → Scheduler → Scheduler × Result
unfolding record_execution write_success increment_retry
run_callback name r s = elim r.outcome [
  | returns duration ↦
      (write_success name r (record_execution r.adds_history (success name duration) s), succeeded)
  | raises error ↦ (
    increment_retry name error r (record_execution r.adds_history (failure name error) s),
    failed,
  )
  | is_cancelled ↦ (s, cancelled)
]

-- a round of `_run_job`
unfoldable pub run_round : Bool → ℕ → Round → Scheduler → Scheduler × Result
unfolding skips run_callback
run_round decodes name r s = if skips decodes name r s then (s, skipped) else run_callback name r s

-- `_run_job` over some rounds: the scheduler after them and their results
unfoldable pub run_job : Bool → ℕ → List Round → Scheduler → Scheduler × List Result
unfolding run_round
run_job decodes name [] s = (s, [])
run_job decodes name (r ∷ rs) s =
    let (after, result) = run_round decodes name r s in
    let (last, results) = run_job decodes name rs after in
    elim result [ cancelled ↦ (after, cancelled ∷ []) | other ↦ (last, other ∷ results) ]

-- What `get_job` gives: the hash, or the default of a registered job.
unfoldable pub get_job : Bool → ℕ → Scheduler → Option JobHash
get_job answers name s =
    let known = contains name (map (λ n. (n, n)) s.callbacks) in
    let default : JobHash = record {
      interval = some 0;
      enabled = some true;
      retry_count = some 0;
      last_run = some none;
    } in
    let fallback = if known then some default else none in
    if answers then elim (lookup name s.jobs) [ none ↦ fallback | some h ↦ some h ] else fallback
