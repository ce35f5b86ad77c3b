-- ===== src/Tests/Scheduler.antt =====
-- Jobs of the scheduler over concrete rounds.
use polymarket_agent.Common.{◌≡◌, refl, true, false, List, [], ◌∷◌, length}
use polymarket_agent.Scheduler.{
  Scheduler, Round, Outcome, returns, raises, is_cancelled, skipped, succeeded, failed, cancelled,
  hash_of, write_hash, disable_job, register_job, set_enabled, run_job, run_round, run_callback,
  skips,
}
use polymarket_agent.Scheduler.Laws.{run_job-outcomes}
use polymarket_agent.Scheduler.Failing.{IsFailing, retries, run_job-failing}

abbrev round_of : Outcome → Round
round_of o = record {
  now = 100;
  outcome = o;
  gets_client = true;
  reads_enabled = true;
  adds_history = true;
  writes_success = true;
  gets_retry_client = true;
  reads_retry = true;
  writes_retry = true;
  creates_incident = true;
}

abbrev empty : Scheduler
empty = record { callbacks = []; jobs = []; history = []; incidents = [] }

-- a job that was registered and disabled
abbrev off : Scheduler
off = disable_job true 4 (register_job true 4 60 true empty)

-- a client that gives `bytes` heeds the flag
disabled_with_bytes :
    (run_job false 4 (round_of (returns 7) ∷ round_of (raises 2) ∷ []) off).1
    ≡ skipped ∷ skipped ∷ []
unfolding run_job run_round skips run_callback disable_job register_job set_enabled hash_of
    write_hash
disabled_with_bytes = refl

run_job-outcomes_example :
    (run_job true 4 (round_of (returns 7) ∷ round_of (raises 2) ∷ round_of is_cancelled ∷ []) off).1
    ≡ succeeded ∷ failed ∷ cancelled ∷ []
run_job-outcomes_example =
    run_job-outcomes 4 (round_of (returns 7) ∷ round_of (raises 2) ∷ round_of is_cancelled ∷ []) off

abbrev failing : Round
failing = round_of (raises 2)

abbrev is_failing : IsFailing failing
is_failing = record {
  error = 2;
  outcome = refl;
  gets_retry_client = refl;
  reads_retry = refl;
  writes_retry = refl;
  creates_incident = refl;
}

abbrev six : List Round
six = failing ∷ failing ∷ failing ∷ failing ∷ failing ∷ failing ∷ []

run_job-failing_example :
    (retries 4 (run_job true 4 six empty).0 ≡ 6)
    × (length (run_job true 4 six empty).0.incidents ≡ 2)
unfolding hash_of
run_job-failing_example =
    run_job-failing 4 six empty
      (is_failing, (is_failing, (is_failing, (is_failing, (is_failing, (is_failing, tt))))))
