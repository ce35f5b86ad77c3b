-- ===== src/Scheduler/Laws.antt =====
-- The rounds of a job in backend/app/services/scheduler/task_scheduler.py.
use polymarket_agent.Common.{
  ◌≡◌, ℕ, Bool, true, false, Option, none, some, List, [], ◌∷◌, arith, refl, ◌∙◌,
}
use polymarket_agent.Scheduler.{
  Scheduler, Round, Result, returns, raises, is_cancelled, succeeded, failed, cancelled, hash_of,
  is_zero_bytes, reply, skips, run_callback, run_round, run_job,
}

-- the results of rounds that all run their callback
abbrev pub outcomes : List Round → List Result
outcomes [] = []
outcomes (r ∷ rs) =
    let rest = outcomes rs in
    elim r.outcome [
      | returns d ↦ succeeded ∷ rest
      | raises e ↦ failed ∷ rest
      | is_cancelled ↦ cancelled ∷ []
    ]

unheeded :
    (o : Option Bool) → (elim o [ none ↦ false | some b ↦ is_zero_bytes (reply true b) ]) ≡ false
unheeded none = refl
unheeded (some b) = refl

never_skips : (name : ℕ) (r : Round) (s : Scheduler) → skips true name r s ≡ false
unfolding skips hash_of
never_skips name r s = ground (arith, unheeded (hash_of name s).enabled)

pub runs : (name : ℕ) (r : Round) (s : Scheduler) → run_round true name r s ≡ run_callback name r s
unfolding run_round
runs name r s = rw (never_skips name r s) refl

-- the results of a job from a round on
abbrev collect : ℕ → List Round → Scheduler × Result → List Result
collect name rs (after, result) = elim result [
  | cancelled ↦ cancelled ∷ []
  | other ↦ other ∷ (run_job true name rs after).1
]

run_job-collect :
    (name : ℕ) (r : Round) (rs : List Round) (s : Scheduler) (out : Scheduler × Result)
    → run_round true name r s ≡ out
    → (run_job true name (r ∷ rs) s).1 ≡ collect name rs out
unfolding run_job
run_job-collect name r rs s out e = ground (arith, e)

collect-outcomes :
    (name : ℕ) (r : Round) (rs : List Round) (s : Scheduler)
    → ((after : Scheduler) → (run_job true name rs after).1 ≡ outcomes rs)
    → collect name rs (run_callback name r s) ≡ outcomes (r ∷ rs)
unfolding run_callback
collect-outcomes name r rs s h = ground (arith, h (run_callback name r s).0)

-- If the client decodes its replies, the results of a job's rounds are those of its callback, whatever the
-- scheduler and Redis hold: also those of a job that is disabled.
pub run_job-outcomes :
    (name : ℕ) (rs : List Round) (s : Scheduler) → (run_job true name rs s).1 ≡ outcomes rs
unfolding run_job
run_job-outcomes name [] s = refl
run_job-outcomes name (r ∷ rs) s =
    run_job-collect name r rs s (run_callback name r s) (runs name r s)
    ∙ collect-outcomes name r rs s (λ after. run_job-outcomes name rs after)
