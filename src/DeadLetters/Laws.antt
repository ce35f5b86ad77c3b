-- ===== src/DeadLetters/Laws.antt =====
-- What a replay in backend/app/services/reliability/dead_letter_queue.py does with the events.
use polymarket_agent.Common.{
  ◌++◌, ◌∙◌, sym, ap, ◌≡◌, ◌≤◌, ◌+◌, ◌*◌, ℕ, zero, suc, Option, none, some, refl, List, [], ◌∷◌,
  arith, length, take, length-append,
}
use polymarket_agent.DeadLetters.{
  Entry, Stream, Queue, Report, Callbacks, Attempt, succeeds, attempt, add_attempt, add_call,
  put_back, replay_backlog, replay_stream, replay_rest, replay, push, no_report, settle_message,
  xadd,
}
use polymarket_agent.DeadLetters.Orders.{
  append-nil, append_assoc, reverse-append, reverse-reverse, length-reverse, length-entries,
  entries, reverse,
}

abbrev pub total : Report → ℕ
total r = r.replayed + r.failed + r.skipped

abbrev length_of : Option Stream → ℕ
length_of none = 0
length_of (some s) = length s

abbrev read : ℕ → Option Stream → ℕ
read limit none = 0
read limit (some s) = length (take limit s)

total-add : (a : Attempt) (r : Report) → total (add_attempt a r) ≡ total r + 1
unfolding add_attempt
total-add a r = ground arith

total-backlog :
    (c : Callbacks) (d : Option ℕ) (es : List Entry) (r : Report) (calls : List Entry)
    → total (replay_backlog c d es r calls).1.0 ≡ total r + length es
unfolding replay_backlog
total-backlog c d [] r calls = omega arith
total-backlog c d (e ∷ es) r calls =
    let a = attempt c d e in
    omega (arith, total-backlog c d es (add_attempt a r) (add_call a e calls), total-add a r)

-- the queues that pushes build while Redis answers, with the events that were pushed, the first one first
pub data Pushed (trim : Stream → Stream) : List Entry → Queue → Type 0 where
  fresh :
      (id : ℕ) (times : ℕ → List ℕ)
      → Pushed trim []
          (record { backlog = []; stream = some []; next_id = id; retry_times = times; calls = [] })
  pushed :
      {es : List Entry} {q : Queue} (now domain event_type payload error : ℕ)
      → Pushed trim es q
      → Pushed trim
          (es
            ++ record {
              domain = domain;
              event_type = event_type;
              payload = payload;
              error = error;
              retry_count = 0;
              timestamp = now;
            }
              ∷ [])
          (push trim now domain event_type payload error q)

-- what the server promises: up to 50,000 entries are all kept
abbrev pub IsKeeping : (Stream → Stream) → Type 0
IsKeeping trim = (s : Stream) → length s ≤ 50000 → trim s ≡ s

module _ (trim : Stream → Stream) where
  total-stream :
      (c : Callbacks) (d : Option ℕ) (ms : Stream) (next : ℕ) (s : Stream) (r : Report)
      (calls : List Entry)
      → total (replay_stream trim c d ms next s r calls).1.1.0 ≡ total r + length ms
  unfolding replay_stream
  total-stream c d [] next s r calls = omega arith
  total-stream c d ((id, e) ∷ ms) next s r calls =
      let a = attempt c d e in
      omega (
        arith,
        total-stream c d ms (next + 1) (settle_message trim a next id e s) (add_attempt a r)
            (add_call a e calls),
        total-add a r,
      )

  total-rest :
      (c : Callbacks) (d : Option ℕ) (limit : ℕ) (o : Option Stream) (r : Report) (q : Queue)
      → total (replay_rest trim c d limit o r q).0 ≡ total r + read limit o
  unfolding replay_rest
  total-rest c d limit none r q = omega arith
  total-rest c d limit (some s) r q = total-stream c d (take limit s) q.next_id s r q.calls

  -- A replay accounts for each entry of the backlog and each of the messages that it read: they are replayed,
  -- failed or skipped.
  pub total-replay :
      (c : Callbacks) (d : Option ℕ) (limit : ℕ) (q : Queue)
      → total (replay trim c d limit q).0 ≡ length q.backlog + read limit q.stream
  unfolding replay no_report
  total-replay c d limit q =
      let (left, result) = replay_backlog c d q.backlog no_report q.calls in
      let q' = record q { backlog = left; calls = result.1 } in
      omega (
        arith,
        total-rest c d limit q.stream result.0 q',
        total-backlog c d q.backlog no_report q.calls,
      )

  all_backlog :
      (c : Callbacks) (es : List Entry) (r : Report) (calls : List Entry)
      → ((e : Entry) → attempt c none e ≡ succeeds)
      → let (left, result) = replay_backlog c none es r calls in
        (left ≡ [])
        × (result.0.replayed ≡ r.replayed + length es)
        × (result.1 ≡ reverse es ++ calls)
  unfolding replay_backlog add_attempt add_call put_back
  all_backlog c [] r calls h = ground arith
  all_backlog c (e ∷ es) r calls h = ground (
    arith,
    h e,
    all_backlog c es (add_attempt succeeds r) (e ∷ calls) h,
    append_assoc (reverse es) (e ∷ []) calls,
  )

  all_stream :
      (c : Callbacks) (ms : Stream) (next : ℕ) (s : Stream) (r : Report) (calls : List Entry)
      → ((e : Entry) → attempt c none e ≡ succeeds)
      → let result = (replay_stream trim c none ms next s r calls).1.1 in
        (result.0.replayed ≡ r.replayed + length ms) × (result.1 ≡ reverse (entries ms) ++ calls)
  unfolding replay_stream add_attempt add_call
  all_stream c [] next s r calls h = ground arith
  all_stream c ((id, e) ∷ ms) next s r calls h = ground (
    arith,
    h e,
    all_stream c ms (next + 1) (settle_message trim succeeds next id e s) (add_attempt succeeds r)
        (e ∷ calls) h,
    append_assoc (reverse (entries ms)) (e ∷ []) calls,
  )

  -- a queue that holds each event in the backlog and, the newest first, in the stream
  unfoldable IsHolding : List Entry → Queue → Type 0
  IsHolding es q =
      (q.backlog ≡ es)
      × (q.calls ≡ [])
      × (s : Stream) × (q.stream ≡ some s)
      × (entries s ≡ reverse es)

  pushed-IsHolding :
      {es : List Entry} {q : Queue}
      → IsKeeping trim
      → Pushed trim es q
      → length es ≤ 50000
      → IsHolding es q
  unfolding push xadd IsHolding
  pushed-IsHolding k (fresh id times) l = (refl, refl, [], refl, refl)
  pushed-IsHolding k (pushed {es = es} {q = q} now domain event_type payload error p) l =
      let e : Entry = record {
        domain = domain;
        event_type = event_type;
        payload = payload;
        error = error;
        retry_count = 0;
        timestamp = now;
      } in
      let n = length-append es (e ∷ []) in
      let (b, c, s, t, u) = pushed-IsHolding k p (omega (arith, n)) in
      let added : Stream = (q.next_id, e) ∷ s in
      let m : length s ≡ length es = sym (length-entries s) ∙ ap length u ∙ length-reverse es in
      let kept = k added (omega (arith, n, m)) in
      (
        ap (λ xs. xs ++ e ∷ []) b,
        c,
        added,
        ap (λ o. elim o [ none ↦ none | some x ↦ some (trim ((q.next_id, e) ∷ x)) ]) t
            ∙ ap some kept,
        ap (λ xs. e ∷ xs) u ∙ sym (reverse-append es e),
      )

  length-take : (n : ℕ) (s : Stream) → length s ≤ n → take n s ≡ s
  length-take zero [] h = refl
  length-take zero (m ∷ s) h = ground arith
  length-take (suc n) [] h = refl
  length-take (suc n) (m ∷ s) h = ground (arith, length-take n s)

  replay_all :
      (c : Callbacks) (limit : ℕ) (s : Stream) (o : Option Stream) (r : Report) (q : Queue)
      → ((e : Entry) → attempt c none e ≡ succeeds)
      → o ≡ some s
      → length s ≤ limit
      → let (report, q') = replay_rest trim c none limit o r q in
        (report.replayed ≡ r.replayed + length s)
        × (q'.backlog ≡ q.backlog)
        × (q'.calls ≡ reverse (entries s) ++ q.calls)
  unfolding replay_rest
  replay_all c limit s none r q h o l = ground arith
  replay_all c limit s (some s') r q h o l =
      ground (arith, all_stream c (take limit s') q.next_id s' r q.calls h, length-take limit s l)

  -- After pushes while Redis answers, a replay of all domains with callbacks that return hands every
  -- event to its callback twice: the calls, the last one first, are all the pushed events, each with the
  -- payload and type that were pushed, from the stream, after all of them from the backlog, which is empty
  -- then. Provided that the server keeps the entries and the limit of the replay holds them all.
  pub replayed-push :
      (c : Callbacks) (limit : ℕ) (es : List Entry) (q : Queue)
      → IsKeeping trim
      → Pushed trim es q
      → ((e : Entry) → attempt c none e ≡ succeeds)
      → length es ≤ 50000
      → length es ≤ limit
      → let (report, q') = replay trim c none limit q in
        (report.replayed ≡ 2 * length es) × (q'.backlog ≡ []) × (q'.calls ≡ es ++ reverse es)
  unfolding replay no_report IsHolding
  replayed-push c limit es q k p h l m =
      let b = all_backlog c q.backlog no_report q.calls h in
      let (left, result) = replay_backlog c none q.backlog no_report q.calls in
      let q' = record q { backlog = left; calls = result.1 } in
      let (held, none_, s, t, u) = pushed-IsHolding k p l in
      let n : length s ≡ length es = sym (length-entries s) ∙ ap length u ∙ length-reverse es in
      let a = replay_all c limit s q.stream result.0 q' h t (omega (arith, n, m)) in
      let v = ap reverse u ∙ reverse-reverse es in
      let w =
        b.2
        ∙ ap (λ xs. reverse xs ++ q.calls) held
        ∙ ap (λ xs. reverse es ++ xs) none_
        ∙ append-nil (reverse es) in
      (
        omega (arith, a.0, b.1, ap length held, n),
        a.1 ∙ b.0,
        a.2 ∙ ap (λ xs. xs ++ result.1) v ∙ ap (λ xs. es ++ xs) w,
      )
