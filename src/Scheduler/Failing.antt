-- ===== src/Scheduler/Failing.antt =====
-- The failures of a job in backend/app/services/scheduler/task_scheduler.py.
use polymarket_agent.Common.{
  ◌≡◌, ℕ, suc, ◌+◌, ◌-◌, Bool, true, some, List, [], ◌∷◌, arith, if◌then◌else◌, refl, length, leb,
  get_or, ap, ◌∙◌, sym, All, length-append,
}
use polymarket_agent.Common.Dict.{lookup-insert}
use mathlib.Core.Path.{subst}
use polymarket_agent.Scheduler.{
  Scheduler, Incident, success, report_failing, failure, JobHash, Execution, Round, Outcome, Result,
  returns, raises, is_cancelled, succeeded, failed, cancelled, hash_of, write_hash,
  record_execution, next_retry, write_retry, write_success, increment_retry, run_callback, run_job,
}
use polymarket_agent.Scheduler.Laws.{runs}

-- a round in which the callback raises and everything else answers
pub record IsFailing (r : Round) : Type 0 where
  pub error : ℕ
  pub outcome : r.outcome ≡ raises error
  pub gets_retry_client : r.gets_retry_client ≡ true
  pub reads_retry : r.reads_retry ≡ true
  pub writes_retry : r.writes_retry ≡ true
  pub creates_incident : r.creates_incident ≡ true

-- the stored number of failures of a job
abbrev pub retries : ℕ → Scheduler → ℕ
retries name s = get_or (hash_of name s).retry_count 0

-- the incident of a failure
abbrev incidents_at : ℕ → ℕ
incidents_at count = if leb 5 count then 1 else 0

record_execution-incidents :
    (answers : Bool) (e : Execution) (s : Scheduler)
    → (record_execution answers e s).incidents ≡ s.incidents
unfolding record_execution
record_execution-incidents answers e s = ground arith

record_execution-hash_of :
    (name : ℕ) (answers : Bool) (e : Execution) (s : Scheduler)
    → hash_of name (record_execution answers e s) ≡ hash_of name s
unfolding record_execution hash_of
record_execution-hash_of name answers e s = ground arith

next_retry-failing :
    (name : ℕ) (r : Round) (s : Scheduler) → IsFailing r → next_retry name r s ≡ retries name s + 1
unfolding next_retry
next_retry-failing name r s f = rw (f.gets_retry_client, f.reads_retry) refl

hash_of-write : (name : ℕ) (h : JobHash) (s : Scheduler) → hash_of name (write_hash name h s) ≡ h
unfolding hash_of write_hash
hash_of-write name h s = ground (arith, lookup-insert name name h s.jobs)

write_retry-failing :
    (name : ℕ) (r : Round) (s : Scheduler)
    → IsFailing r
    → write_retry name r s
      ≡ write_hash name (record (hash_of name s) { retry_count = some (next_retry name r s) }) s
unfolding write_retry
write_retry-failing name r s f = rw (f.gets_retry_client, f.reads_retry, f.writes_retry) refl

report_failing-hash_of :
    (name error count : ℕ) (creates : Bool) (s : Scheduler)
    → hash_of name (report_failing name error count creates s) ≡ hash_of name s
unfolding report_failing hash_of
report_failing-hash_of name error count creates s = ground arith

report_failing-incidents :
    (name error count : ℕ) (creates : Bool) (s : Scheduler)
    → creates ≡ true
    → length (report_failing name error count creates s).incidents
      ≡ length s.incidents + incidents_at count
unfolding report_failing
report_failing-incidents name error count creates s c =
    let i : Incident = record { job = name; retries = count; last_error = error } in
    ground (arith, c, length-append s.incidents (i ∷ []))

retries-write_retry :
    (name : ℕ) (r : Round) (s : Scheduler)
    → IsFailing r
    → retries name (write_retry name r s) ≡ retries name s + 1
retries-write_retry name r s f =
    ap (retries name) (write_retry-failing name r s f)
    ∙ ap (λ h. get_or h.retry_count 0)
        (hash_of-write name (record (hash_of name s) { retry_count = some (next_retry name r s) })
          s)
    ∙ next_retry-failing name r s f

write_retry-incidents :
    (name : ℕ) (r : Round) (s : Scheduler) → (write_retry name r s).incidents ≡ s.incidents
unfolding write_retry write_hash
write_retry-incidents name r s = ground arith

increment_retry-failing :
    (name error : ℕ) (r : Round) (s : Scheduler)
    → IsFailing r
    → (retries name (increment_retry name error r s) ≡ retries name s + 1)
      × (length (increment_retry name error r s).incidents
          ≡ length s.incidents + incidents_at (retries name s + 1))
unfolding increment_retry
increment_retry-failing name error r s f =
    let written = write_retry name r s in
    let count = next_retry name r s in
    (
      ap (λ h. get_or h.retry_count 0)
            (report_failing-hash_of name error count r.creates_incident written)
          ∙ retries-write_retry name r s f,
      report_failing-incidents name error count r.creates_incident written f.creates_incident
          ∙ rw (write_retry-incidents name r s, next_retry-failing name r s f) refl,
    )

-- `run_callback` by what the callback does
abbrev by_outcome : ℕ → Round → Scheduler → Outcome → Scheduler × Result
by_outcome name r s o = elim o [
  | returns duration ↦
      (write_success name r (record_execution r.adds_history (success name duration) s), succeeded)
  | raises error ↦ (
    increment_retry name error r (record_execution r.adds_history (failure name error) s),
    failed,
  )
  | is_cancelled ↦ (s, cancelled)
]

run_callback-failing :
    (name : ℕ) (r : Round) (s : Scheduler) (f : IsFailing r)
    → run_callback name r s ≡ by_outcome name r s (raises f.error)
unfolding run_callback
run_callback-failing name r s f = ap (by_outcome name r s) f.outcome

-- A failing round adds one to the count and, from the fifth on, an incident.
IsCounted : ℕ → Scheduler → Scheduler × Result → Type 0
IsCounted name s (after, result) =
    (retries name after ≡ retries name s + 1)
    × (length after.incidents ≡ length s.incidents + incidents_at (retries name s + 1))
    × (result ≡ failed)

run_callback-IsCounted :
    (name : ℕ) (r : Round) (s : Scheduler) → IsFailing r → IsCounted name s (run_callback name r s)
unfolding IsCounted hash_of
run_callback-IsCounted name r s f =
    let e = failure name f.error in
    let recorded = record_execution r.adds_history e s in
    let (n, i) = increment_retry-failing name f.error r recorded f in
    let h = ap (λ h. get_or h.retry_count 0) (record_execution-hash_of name r.adds_history e s) in
    let k = record_execution-incidents r.adds_history e s in
    subst (λ out. IsCounted name s out) (sym (run_callback-failing name r s f))
      (n ∙ ap (λ c. c + 1) h, i ∙ rw (k, h) refl, refl)

-- the scheduler after the rounds of a job from one that failed on
run_job-failed :
    (name : ℕ) (r : Round) (rs : List Round) (s : Scheduler)
    → (run_callback name r s).1 ≡ failed
    → (run_job true name (r ∷ rs) s).0 ≡ (run_job true name rs (run_callback name r s).0).0
unfolding run_job
run_job-failed name r rs s e = ground (arith, runs name r s, e)

counting :
    (c d m i j : ℕ)
    → d ≡ c + 1
    → j ≡ i + incidents_at (c + 1)
    → j + (d + m - 4 - (d - 4)) ≡ i + (c + suc m - 4 - (c - 4))
counting c d m i j n k = ground arith

run_callback-counted :
    (name : ℕ) (r : Round) (s : Scheduler)
    → IsFailing r
    → (retries name (run_callback name r s).0 ≡ retries name s + 1)
      × (length (run_callback name r s).0.incidents
          ≡ length s.incidents + incidents_at (retries name s + 1))
      × ((run_callback name r s).1 ≡ failed)
unfolding IsCounted
run_callback-counted name r s f = run_callback-IsCounted name r s f

run_job-none : (name : ℕ) (s : Scheduler) → (run_job true name [] s).0 ≡ s
unfolding run_job
run_job-none name s = refl

-- If the callback of a job raises in each of some rounds and Redis and the incidents answer, the stored count
-- grows by the number of rounds, and each failure from the fifth of the count on makes an incident.
pub run_job-failing :
    (name : ℕ) (rs : List Round) (s : Scheduler)
    → All IsFailing rs
    → (retries name (run_job true name rs s).0 ≡ retries name s + length rs)
      × (length (run_job true name rs s).0.incidents
          ≡ length s.incidents + (retries name s + length rs - 4 - (retries name s - 4)))
run_job-failing name [] s fs =
    let e = ap (λ t. retries name t) (run_job-none name s) in
    let i = ap (λ t. length t.incidents) (run_job-none name s) in (e ∙ omega arith, i ∙ omega arith)
run_job-failing name (r ∷ rs) s (f, fs) =
    let next = (run_callback name r s).0 in
    let (n, i, e) = run_callback-counted name r s f in
    let (m, j) = run_job-failing name rs next fs in
    let g = run_job-failed name r rs s e in
    (
      ap (retries name) g ∙ m ∙ omega (arith, n),
      ap (λ t. length t.incidents) g
          ∙ j
          ∙ counting (retries name s) (retries name next) (length rs) (length s.incidents)
              (length next.incidents) n i,
    )
