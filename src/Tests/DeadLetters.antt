-- ===== src/Tests/DeadLetters.antt =====
-- A replay of backend/app/services/reliability/dead_letter_queue.py at a concrete queue.
use polymarket_agent.Common.{◌≡◌, refl, some, none, [], ◌∷◌, arith}
use polymarket_agent.DeadLetters.{Entry, Queue, Callbacks, Stream, attempt, succeeds, push, replay}
use polymarket_agent.DeadLetters.Laws.{fresh, pushed, replayed-push}

abbrev keep_all : Stream → Stream
keep_all s = s

abbrev accepting : Callbacks
accepting d = some (λ event payload. none)

abbrev start : Queue
start = record { backlog = []; stream = some []; next_id = 1; retry_times = λ d. []; calls = [] }

abbrev one : Queue
one = push keep_all 100 2 3 4 5 start

accepts : (e : Entry) → attempt accepting none e ≡ succeeds
unfolding attempt
accepts e = refl

abbrev first : Entry
first = record {
  domain = 2;
  event_type = 3;
  payload = 4;
  error = 5;
  retry_count = 0;
  timestamp = 100;
}

abbrev second : Entry
second = record first { payload = 6; timestamp = 110 }

abbrev two : Queue
two = push keep_all 110 2 3 6 5 one

replayed-push_example :
    let (report, q') = replay keep_all accepting none 100 two in
    (report.replayed ≡ 4) × (q'.backlog ≡ []) × (q'.calls ≡ first ∷ second ∷ second ∷ first ∷ [])
replayed-push_example =
    replayed-push keep_all accepting 100 (first ∷ second ∷ []) two (λ s h. refl)
      (pushed 110 2 3 6 5 (pushed 100 2 3 4 5 (fresh 1 (λ d. [])))) accepts (omega arith)
      (omega arith)
