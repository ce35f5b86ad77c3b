-- ===== src/DeadLetters.antt =====
-- `DeadLetterQueue` of backend/app/services/reliability/dead_letter_queue.py. An event is in the local
-- backlog and, where Redis answers, in a stream, which is a list with the newest entry first. The callbacks
-- and what the server keeps of a stream that is longer than its limit are arguments; times are in seconds.
pub mod Orders
pub mod Laws
use polymarket_agent.Common.{
  ℕ, zero, suc, ◌+◌, ◌==◌, Bool, true, false, Option, none, some, not, ◌&&◌, List, [], ◌∷◌, ◌++◌,
  ltb, leb, if◌then◌else◌, keep, take, length, is_some,
}

pub record Entry : Type 0 where
  pub domain : ℕ
  pub event_type : ℕ
  pub payload : ℕ
  pub error : ℕ
  pub retry_count : ℕ
  pub timestamp : ℕ

abbrev pub Stream : Type 0
Stream = List (ℕ × Entry)

-- `calls` are the entries that were given to a callback, the last one first, and `next_id` the id that
-- the server gives next.
pub record Queue : Type 0 where
  pub backlog : List Entry
  pub stream : Option Stream
  pub next_id : ℕ
  pub retry_times : ℕ → List ℕ
  pub calls : List Entry

pub record Report : Type 0 where
  pub replayed : ℕ
  pub failed : ℕ
  pub skipped : ℕ

pub data Attempt : Type 0 where
  skips succeeds : Attempt
  fails : ℕ → Attempt

-- What is registered for a domain: `none`, or what the callback does with an event and a payload, which is
-- `none` for a return and `some` for an exception and its text.
abbrev pub Callbacks : Type 0
Callbacks = ℕ → Option (ℕ → ℕ → Option ℕ)

-- `register_callback`
unfoldable pub register_callback : ℕ → (ℕ → ℕ → Option ℕ) → Callbacks → Callbacks
register_callback domain f callbacks = λ d. if d == domain then some f else callbacks d

unfoldable pub called : Option (ℕ → ℕ → Option ℕ) → Entry → Attempt
called none e = skips
called (some f) e = elim (f e.event_type e.payload) [ none ↦ succeeds | some text ↦ fails text ]

-- the branches of a loop of `replay`; the filter is a domain or none
unfoldable pub attempt : Callbacks → Option ℕ → Entry → Attempt
unfolding called
attempt callbacks none e = called (callbacks e.domain) e
attempt callbacks (some d) e = if e.domain == d then called (callbacks e.domain) e else skips

unfoldable pub add_attempt : Attempt → Report → Report
add_attempt skips s = record s { skipped = s.skipped + 1 }
add_attempt succeeds s = record s { replayed = s.replayed + 1 }
add_attempt (fails text) s = record s { failed = s.failed + 1 }

unfoldable pub add_call : Attempt → Entry → List Entry → List Entry
add_call skips e calls = calls
add_call _ e calls = e ∷ calls

unfoldable pub retried : ℕ → Entry → Entry
retried text e = record e { retry_count = e.retry_count + 1; error = text }

-- the entry of the backlog after an attempt, before those that follow
unfoldable pub put_back : Attempt → Entry → List Entry → List Entry
unfolding retried
put_back skips e es = e ∷ es
put_back succeeds e es = es
put_back (fails text) e es = retried text e ∷ es

-- the first loop of `replay`
unfoldable pub replay_backlog :
    Callbacks → Option ℕ → List Entry → Report → List Entry → List Entry × (Report × List Entry)
unfolding attempt add_attempt add_call put_back
replay_backlog callbacks domain [] report calls = ([], (report, calls))
replay_backlog callbacks domain (e ∷ es) report calls =
    let a = attempt callbacks domain e in
    let (left, result) =
      replay_backlog callbacks domain es (add_attempt a report) (add_call a e calls) in
    (put_back a e left, result)

-- `xdel`
unfoldable pub xdel : ℕ → Stream → Stream
xdel id [] = []
xdel id ((i, e) ∷ s) = let rest = xdel id s in if i == id then s else (i, e) ∷ rest

unfoldable pub find_message : ℕ → Stream → Option Entry
find_message id [] = none
find_message id ((i, e) ∷ s) = let rest = find_message id s in if i == id then some e else rest

-- `_check_threshold`: three events in 300 seconds empty the list; the incident that is to be created then
-- is called for with an argument that its function does not have, and the exception is dropped
unfoldable pub check_threshold : ℕ → ℕ → (ℕ → List ℕ) → ℕ → List ℕ
check_threshold now domain times =
    let recent = keep (λ t. ltb now (t + 300)) (times domain ++ now ∷ []) in
    λ d. if d == domain then (if leb 3 (length recent) then [] else recent) else times d

unfoldable pub no_report : Report
no_report = record { replayed = 0; failed = 0; skipped = 0 }

-- what `xadd` with `maxlen=50000` keeps
module _ (trim : Stream → Stream) where
  unfoldable pub xadd : ℕ → Entry → Stream → Stream
  xadd id e s = trim ((id, e) ∷ s)

  -- `push`
  unfoldable pub push : ℕ → ℕ → ℕ → ℕ → ℕ → Queue → Queue
  unfolding xadd check_threshold
  push now domain event_type payload error q =
      let e : Entry = record {
        domain = domain;
        event_type = event_type;
        payload = payload;
        error = error;
        retry_count = 0;
        timestamp = now;
      } in
      record q {
        backlog = q.backlog ++ e ∷ [];
        stream = elim q.stream [ none ↦ none | some s ↦ some (xadd q.next_id e s) ];
        next_id = q.next_id + 1;
        retry_times = check_threshold now domain q.retry_times;
      }

  -- the stream after an attempt; a failure adds the entry again, `_increment_retry_in_place`
  unfoldable pub settle_message : Attempt → ℕ → ℕ → Entry → Stream → Stream
  unfolding xdel retried xadd
  settle_message skips next id e s = s
  settle_message succeeds next id e s = xdel id s
  settle_message (fails text) next id e s = xdel id (xadd next (retried text e) s)

  -- the second loop of `replay`, over the messages that were read
  unfoldable pub replay_stream :
      Callbacks
      → Option ℕ
      → Stream
      → ℕ
      → Stream
      → Report
      → List Entry
      → Stream × (ℕ × (Report × List Entry))
  unfolding attempt add_attempt add_call settle_message
  replay_stream callbacks domain [] next s report calls = (s, (next, (report, calls)))
  replay_stream callbacks domain ((id, e) ∷ messages) next s report calls =
      let a = attempt callbacks domain e in
      replay_stream callbacks domain messages (next + 1) (settle_message a next id e s)
        (add_attempt a report) (add_call a e calls)

  unfoldable pub replay_rest :
      Callbacks → Option ℕ → ℕ → Option Stream → Report → Queue → Report × Queue
  unfolding replay_stream
  replay_rest callbacks domain limit none report q = (report, q)
  replay_rest callbacks domain limit (some s) report q =
      let (s', rest) = replay_stream callbacks domain (take limit s) q.next_id s report q.calls in
      let (next, result) = rest in
      let (report', calls) = result in
      (report', record q { stream = some s'; next_id = next; calls = calls })

  -- `replay`
  unfoldable pub replay : Callbacks → Option ℕ → ℕ → Queue → Report × Queue
  unfolding replay_backlog replay_rest no_report
  replay callbacks domain limit q =
      let (left, result) = replay_backlog callbacks domain q.backlog no_report q.calls in
      let (report, calls) = result in
      replay_rest callbacks domain limit q.stream report
        (record q { backlog = left; calls = calls })

unfoldable pub retry_message : Callbacks → ℕ → Entry → Stream → Queue → Bool × Queue
unfolding attempt xdel
retry_message callbacks id e s q = elim (attempt callbacks none e) [
  | skips ↦ (false, q)
  | succeeds ↦ (true, record q { stream = some (xdel id s); calls = e ∷ q.calls })
  | fails text ↦ (false, record q { calls = e ∷ q.calls })
]

-- `retry_one`
unfoldable pub retry_one : Callbacks → ℕ → Queue → Bool × Queue
unfolding retry_message find_message
retry_one callbacks id q = elim q.stream [
  | none ↦ (false, q)
  | some s ↦ elim (find_message id s) [
    | none ↦ (false, q)
    | some e ↦ retry_message callbacks id e s q
  ]
]

unfoldable pub after_first : ℕ → Stream → Stream
after_first zero s = s
after_first (suc n) [] = []
after_first (suc n) (m ∷ s) = after_first n s

unfoldable pub drop_expired : ℕ → ℕ → Stream → Stream
drop_expired cutoff n s = keep (λ m. not (ltb m.1.timestamp cutoff)) (take n s)

-- `purge_expired`, by the time before which an entry is too old. Only the newest 5000 are looked at; the
-- list has those that follow them unchanged.
unfoldable pub purge_expired : ℕ → Queue → Queue
unfolding drop_expired after_first
purge_expired cutoff q = elim q.stream [
  | none ↦ record q { backlog = [] }
  | some s ↦ record q { stream = some (drop_expired cutoff 5000 s ++ after_first 5000 s) }
]
